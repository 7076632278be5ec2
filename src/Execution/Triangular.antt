-- ===== src/Execution/Triangular.antt =====
-- backend/execution/triangular.py: three legs of a cycle on one exchange, fired at once.
pub mod Outcome
pub mod Tests
use Prim.Native.String.{◌++◌ as concat}
use gen.Prelude.{Bool, not, ◌&&◌, Option, none, some, String, if◌then◌else◌}
use gen.Exec.{Exec, pure, ◌>>=◌, Arrival, gather_three}
use gen.Num.{Float, ◌⊗◌, ◌<?◌, num}
use gen.Schemas.{ExecutionStatus, success, partial_fill, hedged, rejected, TradeExecutionResult}
use gen.Execution.Exchange.{buy, sell, LegResult, ExchangeClient}

pub record TriangleConfig : Type 0 where
  pub exchange : String
  pub quote : String
  pub bridge : String
  pub target : String

unfoldable pub symbol_bridge_quote : TriangleConfig → String
symbol_bridge_quote t = concat t.bridge (concat "/" t.quote)

unfoldable pub symbol_target_bridge : TriangleConfig → String
symbol_target_bridge t = concat t.target (concat "/" t.bridge)

unfoldable pub symbol_target_quote : TriangleConfig → String
symbol_target_quote t = concat t.target (concat "/" t.quote)

unfoldable pub symbols : TriangleConfig → String × String × String
symbols t = (symbol_bridge_quote t, symbol_target_bridge t, symbol_target_quote t)

unfoldable pub label : TriangleConfig → String
label t =
    concat t.quote
      (concat "->" (concat t.bridge (concat "->" (concat t.target (concat "->" t.quote)))))

-- The reason texts, with the figures that they quote.
pub data Reason : Type 0 where
  all_rejected : Option String → Option String → Option String → Reason
  partial : Bool → Bool → Bool → Reason

-- The arguments of `execute_triangle`.
pub record TriangleOrders (F : Type 0) : Type 0 where
  pub triangle : TriangleConfig
  pub quote_notional_usd : F
  pub bridge_quote_price : F
  pub target_bridge_price : F
  pub target_quote_price : F
  pub bridge_qty : F
  pub target_qty : F
  pub gross_spread_pct : F
  pub net_spread_pct : F
  pub ml_confidence_score : F

module _ {F : Type 0} ⦃fl : Float F⦄ where
  -- A `TradeExecutionResult` with what all three returns share.
  unfoldable pub report :
      TriangleOrders F → ExecutionStatus → F → F → Option Reason → TradeExecutionResult F Reason
  unfolding label
  report o status volume pnl reason = record {
    status = status;
    buy_exchange = o.triangle.exchange;
    sell_exchange = o.triangle.exchange;
    symbol = label o.triangle;
    executed_volume_usd = volume;
    gross_spread_pct = o.gross_spread_pct;
    net_spread_pct = o.net_spread_pct;
    realized_pnl_usd = pnl;
    ml_confidence_score = o.ml_confidence_score;
    reason = reason;
  }

module _ {F S : Type 0} ⦃fl : Float F⦄ (client : ExchangeClient F S) where
  -- A market sale, and what it brought.
  unfoldable pub sell_back : String → String → F → Exec S F
  sell_back exchange symbol amount = do
    sale ← client.place_market_order exchange symbol sell amount
    pure (sale.filled_amount ⊗ sale.avg_price)

  -- The notional unwound after a partial fill.
  unfoldable pub unwind : TriangleConfig → LegResult F → LegResult F → LegResult F → Exec S F
  unfolding sell_back symbol_bridge_quote symbol_target_quote
  unwind t leg1 leg2 leg3 =
      if leg1.accepted && not leg2.accepted
      then sell_back t.exchange (symbol_bridge_quote t) leg1.filled_amount
      else if leg1.accepted && (leg2.accepted && not leg3.accepted)
      then sell_back t.exchange (symbol_target_quote t) leg2.filled_amount
      else pure (num 0)

  unfoldable pub unwind_and_report :
      TriangleOrders F
      → LegResult F
      → LegResult F
      → LegResult F
      → Exec S (TradeExecutionResult F Reason)
  unfolding unwind report
  unwind_and_report o leg1 leg2 leg3 = do
    unwind_notional ← unwind o.triangle leg1 leg2 leg3
    pure (
        report o (if num 0 <? unwind_notional then hedged else partial_fill) unwind_notional (num 0)
          (some (partial leg1.accepted leg2.accepted leg3.accepted)))

  -- What follows the three orders.
  unfoldable pub settle_triangle :
      TriangleOrders F
      → LegResult F × LegResult F × LegResult F
      → Exec S (TradeExecutionResult F Reason)
  unfolding unwind_and_report report
  settle_triangle o (leg1, leg2, leg3) =
      if leg1.accepted && (leg2.accepted && leg3.accepted)
      then pure
          (report o success o.quote_notional_usd (o.quote_notional_usd ⊗ o.net_spread_pct) none)
      else if not leg1.accepted && (not leg2.accepted && not leg3.accepted)
      then pure (
          report o rejected (num 0) (num 0)
            (some (all_rejected leg1.reason leg2.reason leg3.reason)))
      else unwind_and_report o leg1 leg2 leg3

  -- The three orders, as `arrival` has them take effect.
  unfoldable pub place_legs :
      Arrival → TriangleOrders F → Exec S (LegResult F × LegResult F × LegResult F)
  unfolding symbol_bridge_quote symbol_target_bridge symbol_target_quote
  place_legs arrival o =
      let t = o.triangle in
      gather_three arrival
        (client.place_ioc_order t.exchange (symbol_bridge_quote t) buy o.bridge_qty
          o.bridge_quote_price)
        (client.place_ioc_order t.exchange (symbol_target_bridge t) buy o.target_qty
          o.target_bridge_price)
        (client.place_ioc_order t.exchange (symbol_target_quote t) sell o.target_qty
          o.target_quote_price)

  unfoldable pub execute_triangle :
      Arrival → TriangleOrders F → Exec S (TradeExecutionResult F Reason)
  unfolding place_legs settle_triangle
  execute_triangle arrival o = place_legs arrival o >>= settle_triangle o
