-- ===== src/Execution/Triangular/Outcome.antt =====
-- What `execute_triangle` of backend/execution/triangular.py does, by the answers to its orders.
use gen.Prelude.{String, Bool, true, false, ◌≡◌, refl, some, none, if◌then◌else◌}
use gen.Errors.{ok}
use gen.Exec.{Arrival, gather_three-Returns}
use gen.Num.{Float, ◌⊗◌, ◌<?◌, num}
use gen.Num.Order.{IsOrdered, not_lt_of_le}
use gen.Schemas.{success, partial_fill, hedged, rejected, TradeExecutionResult}
use gen.Execution.Exchange.{buy, sell, LegResult, ExchangeClient, IsResponsive}
use gen.Execution.Triangular.{
  Reason, all_rejected, partial, TriangleOrders, symbol_bridge_quote, symbol_target_bridge,
  symbol_target_quote, report, settle_triangle, place_legs, execute_triangle,
}

module _ {F S : Type 0} ⦃fl : Float F⦄ (client : ExchangeClient F S) where
  -- One market sale, and the report on it.
  pub record Unwound (exchange symbol : String) (amount : F) (s s' : S)
      (r : TradeExecutionResult F Reason) : Type 0 where
    pub sale : LegResult F
    pub placed : client.place_market_order exchange symbol sell amount s ≡ (ok sale, s')
    pub volume : r.executed_volume_usd ≡ sale.filled_amount ⊗ sale.avg_price
    pub status : r.status ≡ (if num 0 <? r.executed_volume_usd then hedged else partial_fill)
    pub no_profit : r.realized_pnl_usd ≡ num 0

  -- Nothing is sold, and the report says so.
  abbrev pub LeftOpen : S → S → TradeExecutionResult F Reason → Type 0
  LeftOpen s s' r =
      (r.status ≡ partial_fill)
      × (r.executed_volume_usd ≡ num 0)
      × (r.realized_pnl_usd ≡ num 0)
      × (s' ≡ s)

  -- By the acceptance of the three legs.
  abbrev pub Outcome :
      Bool
      → Bool
      → Bool
      → TriangleOrders F
      → LegResult F
      → LegResult F
      → S
      → S
      → TradeExecutionResult F Reason
      → Type 0
  Outcome true true true o leg1 leg2 s s' r =
      (r.status ≡ success)
      × (r.executed_volume_usd ≡ o.quote_notional_usd)
      × (r.realized_pnl_usd ≡ o.quote_notional_usd ⊗ o.net_spread_pct)
      × (s' ≡ s)
  Outcome false false false o leg1 leg2 s s' r =
      (r.status ≡ rejected)
      × (r.executed_volume_usd ≡ num 0)
      × (r.realized_pnl_usd ≡ num 0)
      × (s' ≡ s)
  Outcome true false c o leg1 leg2 s s' r =
      Unwound o.triangle.exchange (symbol_bridge_quote o.triangle) leg1.filled_amount s s' r
  Outcome true true false o leg1 leg2 s s' r =
      Unwound o.triangle.exchange (symbol_target_quote o.triangle) leg2.filled_amount s s' r
  Outcome false b c o leg1 leg2 s s' r = LeftOpen s s' r

  module _ (laws : IsOrdered F) (responsive : IsResponsive client) where
    abbrev Settled :
        TriangleOrders F → LegResult F → LegResult F → LegResult F → Bool → Bool → Bool → S → Type 0
    Settled o leg1 leg2 leg3 a b c s =
        (r : TradeExecutionResult F Reason) × (s' : S) × (settle_triangle client o
            (leg1, leg2, leg3) s
          ≡ (ok r, s'))
        × Outcome a b c o leg1 leg2 s s' r

    zero_lt_zero : (fl.decimal 0 0 <? fl.decimal 0 0) ≡ false
    zero_lt_zero = not_lt_of_le laws (num 0) (num 0) laws.zero_num

    abbrev sold : TriangleOrders F → LegResult F → Reason → TradeExecutionResult F Reason
    sold o sale why =
        let volume = sale.filled_amount ⊗ sale.avg_price in
        report o (if num 0 <? volume then hedged else partial_fill) volume (num 0) (some why)

    settle-Outcome :
        (o : TriangleOrders F) (leg1 leg2 leg3 : LegResult F) (a b c : Bool) (s : S)
        → leg1.accepted ≡ a
        → leg2.accepted ≡ b
        → leg3.accepted ≡ c
        → Settled o leg1 leg2 leg3 a b c s
    unfolding settle_triangle
    settle-Outcome o leg1 leg2 leg3 true true true s ea eb ec =
        let r =
          report o success o.quote_notional_usd (o.quote_notional_usd ⊗ o.net_spread_pct) none in
        (r, s, rw (ea, eb, ec) refl, (refl, refl, refl, refl))
    settle-Outcome o leg1 leg2 leg3 false false false s ea eb ec =
        let why = all_rejected leg1.reason leg2.reason leg3.reason in
        (
          report o rejected (num 0) (num 0) (some why),
          s,
          rw (ea, eb, ec) refl,
          (refl, refl, refl, refl),
        )
    settle-Outcome o leg1 leg2 leg3 true false c s ea eb ec =
        let (sale, s', e) =
          responsive.market o.triangle.exchange (symbol_bridge_quote o.triangle) sell
            leg1.filled_amount s in
        (
          sold o sale (partial true false c),
          s',
          rw (ea, eb, ec, e) refl,
          record { sale = sale; placed = e; volume = refl; status = refl; no_profit = refl },
        )
    settle-Outcome o leg1 leg2 leg3 true true false s ea eb ec =
        let (sale, s', e) =
          responsive.market o.triangle.exchange (symbol_target_quote o.triangle) sell
            leg2.filled_amount s in
        (
          sold o sale (partial true true false),
          s',
          rw (ea, eb, ec, e) refl,
          record { sale = sale; placed = e; volume = refl; status = refl; no_profit = refl },
        )
    settle-Outcome o leg1 leg2 leg3 false true c s ea eb ec =
        let r = report o partial_fill (num 0) (num 0) (some (partial false true c)) in
        (r, s, rw (ea, eb, ec, zero_lt_zero) refl, (refl, refl, refl, refl))
    settle-Outcome o leg1 leg2 leg3 false false true s ea eb ec =
        let r = report o partial_fill (num 0) (num 0) (some (partial false false true)) in
        (r, s, rw (ea, eb, ec, zero_lt_zero) refl, (refl, refl, refl, refl))

    -- Through a client whose calls do not raise, `execute_triangle` returns, in whichever order
    -- the orders take effect. All legs accepted: SUCCESS with the notional as volume and the
    -- notional times the net spread as profit. None accepted: REJECTED and zeros. The first but
    -- not the second: the bridge asset of the first fill is sold at market. The first two but not
    -- the third: the target asset of the second fill is sold at market. The first rejected and
    -- another one accepted: nothing is sold, and PARTIAL_FILL is reported. After a sale the volume
    -- is what it brought, the profit zero, and the status HEDGED if the volume is positive, however
    -- little of the fill was sold.
    pub execute_triangle-Outcome :
        (arrival : Arrival) (o : TriangleOrders F) (s : S)
        → (leg1 leg2 leg3 : LegResult F) × (s' s'' : S) × (r : TradeExecutionResult F Reason)
          × (place_legs client arrival o s ≡ (ok (leg1, leg2, leg3), s'))
          × (execute_triangle client arrival o s ≡ (ok r, s''))
          × Outcome leg1.accepted leg2.accepted leg3.accepted o leg1 leg2 s' s'' r
    unfolding place_legs execute_triangle
    execute_triangle-Outcome arrival o s =
        let t = o.triangle in
        let ((leg1, leg2, leg3), s', e) =
          gather_three-Returns arrival
            (client.place_ioc_order t.exchange (symbol_bridge_quote t) buy o.bridge_qty
              o.bridge_quote_price)
            (client.place_ioc_order t.exchange (symbol_target_bridge t) buy o.target_qty
              o.target_bridge_price)
            (client.place_ioc_order t.exchange (symbol_target_quote t) sell o.target_qty
              o.target_quote_price)
            (responsive.ioc t.exchange (symbol_bridge_quote t) buy o.bridge_qty
              o.bridge_quote_price)
            (responsive.ioc t.exchange (symbol_target_bridge t) buy o.target_qty
              o.target_bridge_price)
            (responsive.ioc t.exchange (symbol_target_quote t) sell o.target_qty
              o.target_quote_price)
            s in
        let (r, s'', settled, outcome) =
          settle-Outcome o leg1 leg2 leg3 leg1.accepted leg2.accepted leg3.accepted s' refl refl
            refl in
        (leg1, leg2, leg3, s', s'', r, e, rw e settled, outcome)
