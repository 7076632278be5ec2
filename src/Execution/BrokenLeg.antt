-- ===== src/Execution/BrokenLeg.antt =====
-- backend/execution/broken_leg.py: two legs fired at once, and the hedge of a leg left open.
pub mod Hedge
pub mod Orders
pub mod Outcome
pub mod Returns
pub mod Total
pub mod Tests
use gen.Prelude.{
  ℕ, zero, suc, Bool, true, false, not, ◌&&◌, Option, none, some, String, if◌then◌else◌,
}
use gen.Errors.{raised, not_implemented_error}
use gen.Exec.{Exec, pure, lift, ◌>>=◌, gather}
use gen.Num.{Float, ◌⊕◌, ◌⊖◌, ◌⊗◌, ◌<?◌, ◌≤?◌, num, min}
use gen.Schemas.{
  ArbitrageSignal, ExecutionStatus, success, partial_fill, hedged, rejected, TradeExecutionResult,
}
use gen.Execution.Exchange.{Side, buy, sell, LegResult, ExchangeClient}

-- The reason texts, with the legs' reasons that they quote.
pub data Reason : Type 0 where
  both_rejected : Option String → Option String → Reason
  sell_rejected buy_rejected : Option String → Reason

-- The arguments of `execute_paired_orders`.
pub record PairedOrders (F : Type 0) : Type 0 where
  pub buy_exchange : String
  pub sell_exchange : String
  pub symbol : String
  pub amount : F
  pub buy_price : F
  pub sell_price : F
  pub gross_spread_pct : F
  pub net_spread_pct : F
  pub ml_confidence_score : F
  pub high_volatility : Bool

module _ {F S : Type 0} ⦃fl : Float F⦄ (client : ExchangeClient F S) where
  -- The re-pegging loop of `_auto_hedge`: what remains and what is filled after it.
  unfoldable pub repeg : ℕ → String → String → Side → F → F → Exec S (F × F)
  repeg zero exchange symbol side remaining filled_total = pure (remaining, filled_total)
  repeg (suc repegs) exchange symbol side remaining filled_total =
      let order = (do
        peg_price ← client.best_bid exchange symbol
        result ← client.place_limit_order exchange symbol side remaining peg_price
        repeg repegs exchange symbol side (remaining ⊖ result.filled_amount)
            (filled_total ⊕ result.filled_amount)) in
      if remaining ≤? num 0 then pure (remaining, filled_total) else order

  -- The market order for what the loop left.
  unfoldable pub liquidate_rest : String → String → Side → F → F → Exec S F
  liquidate_rest exchange symbol side remaining filled_total =
      if num 0 <? remaining
      then (do
        result ← client.place_market_order exchange symbol side remaining
        pure (filled_total ⊕ result.filled_amount))
      else pure filled_total

  -- `_auto_hedge`, for a client allowed `max_repegs` re-pegs.
  unfoldable pub auto_hedge : ℕ → String → String → Side → F → Bool → Exec S F
  auto_hedge max_repegs exchange symbol side amount high_volatility =
      if high_volatility
      then (do
        result ← client.place_market_order exchange symbol side amount
        pure result.filled_amount)
      else (do
        (remaining, filled_total) ← repeg max_repegs exchange symbol side amount (num 0)
        liquidate_rest exchange symbol side remaining filled_total)

module _ {F : Type 0} ⦃fl : Float F⦄ where
  -- A `TradeExecutionResult` with what all three returns share.
  unfoldable pub report :
      PairedOrders F → ExecutionStatus → F → F → Option Reason → TradeExecutionResult F Reason
  report o status volume pnl reason = record {
    status = status;
    buy_exchange = o.buy_exchange;
    sell_exchange = o.sell_exchange;
    symbol = o.symbol;
    executed_volume_usd = volume;
    gross_spread_pct = o.gross_spread_pct;
    net_spread_pct = o.net_spread_pct;
    realized_pnl_usd = pnl;
    ml_confidence_score = o.ml_confidence_score;
    reason = reason;
  }

module _ {F S : Type 0} ⦃fl : Float F⦄ (client : ExchangeClient F S) (max_repegs : ℕ) where
  -- The hedge of the one leg that filled, and the report on it.
  unfoldable pub flatten :
      PairedOrders F → String → F → Side → F → Reason → Exec S (TradeExecutionResult F Reason)
  unfolding report
  flatten o open_exchange open_amount hedge_side break_even_price broken_reason = do
    hedge_filled ←
        auto_hedge client max_repegs open_exchange o.symbol hedge_side open_amount o.high_volatility
    pure (
        report o (if open_amount ≤? hedge_filled then hedged else partial_fill)
          (open_amount ⊗ break_even_price) (num 0) (some broken_reason))

  -- What follows the two orders. The break-even price is the price of the leg that filled.
  unfoldable pub settle :
      PairedOrders F → LegResult F → LegResult F → Exec S (TradeExecutionResult F Reason)
  unfolding report
  settle o bought sold =
      if bought.accepted && sold.accepted
      then (let executed_volume_usd = min bought.filled_amount sold.filled_amount ⊗ o.buy_price in
          pure (report o success executed_volume_usd (executed_volume_usd ⊗ o.net_spread_pct) none))
      else if not bought.accepted && not sold.accepted
      then pure (report o rejected (num 0) (num 0) (some (both_rejected bought.reason sold.reason)))
      else if bought.accepted
      then flatten o o.buy_exchange bought.filled_amount sell o.buy_price
          (sell_rejected sold.reason)
      else flatten o o.sell_exchange sold.filled_amount buy o.sell_price
          (buy_rejected bought.reason)

  -- `swapped` says which of the two concurrent orders the exchange sees first.
  unfoldable pub execute_paired_orders :
      Bool → PairedOrders F → Exec S (TradeExecutionResult F Reason)
  execute_paired_orders swapped o = do
    (bought, sold) ←
        gather swapped (client.place_ioc_order o.buy_exchange o.symbol buy o.amount o.buy_price)
          (client.place_ioc_order o.sell_exchange o.symbol sell o.amount o.sell_price)
    settle o bought sold

-- `dispatch_orders` is not wired to an exchange: it raises whatever it is asked.
unfoldable pub dispatch_orders :
    {Request F S : Type 0} → Request → ArbitrageSignal F → Exec S (TradeExecutionResult F Reason)
dispatch_orders request signal = lift (raised not_implemented_error)
