-- ===== src/Execution/BrokenLeg/Outcome.antt =====
-- What `execute_paired_orders` reports, for the replies of the two orders.
use gen.Prelude.{ℕ, String, Bool, true, false, ◌≡◌, ◌≢◌, ◌∙◌, sym, refl, some, if◌then◌else◌, arith}
use mathlib.Core.Path.{subst}
use gen.Errors.{ok}
use gen.Exec.{pure, >>=-eq-ok, gather, gather-eq-ok}
use gen.Num.{Float, ◌⊗◌, ◌≤?◌, ◌≼◌, num, min}
use gen.Num.Exact.{IsExact}
use gen.Schemas.{success, partial_fill, hedged, rejected, TradeExecutionResult}
use gen.Execution.Exchange.{Side, buy, sell, LegResult, ExchangeClient}
use gen.Execution.BrokenLeg.{
  Reason, sell_rejected, buy_rejected, PairedOrders, report, auto_hedge, flatten, settle,
  execute_paired_orders,
}
use gen.Execution.BrokenLeg.Hedge.{IsHonest, IsLiquid, auto_hedge_bounds}

module _ {F S : Type 0} ⦃fl : Float F⦄ (client : ExchangeClient F S) (max_repegs : ℕ) where
  -- The hedge that a broken leg asks for.
  pub record Flattened (o : PairedOrders F) (exchange : String) (side : Side)
      (open_amount price : F) (s s' : S) (r : TradeExecutionResult F Reason) : Type 0 where
    pub hedge : F
    pub placed :
        auto_hedge client max_repegs exchange o.symbol side open_amount o.high_volatility s
        ≡ (ok hedge, s')
    pub status : r.status ≡ (if open_amount ≤? hedge then hedged else partial_fill)
    pub volume : r.executed_volume_usd ≡ open_amount ⊗ price
    pub no_profit : r.realized_pnl_usd ≡ num 0

  flatten-Flattened :
      (o : PairedOrders F) (exchange : String) (open_amount : F) (side : Side) (price : F)
      (why : Reason) (s : S) {r : TradeExecutionResult F Reason} {s' : S}
      → flatten client max_repegs o exchange open_amount side price why s ≡ (ok r, s')
      → Flattened o exchange side open_amount price s s' r
  unfolding flatten
  flatten-Flattened o exchange open_amount side price why s e =
      let (h, s1, e1, last) =
        >>=-eq-ok
          (auto_hedge client max_repegs exchange o.symbol side open_amount o.high_volatility)
          (λ hedge_filled. pure (
            report o (if open_amount ≤? hedge_filled then hedged else partial_fill)
              (open_amount ⊗ price) (num 0) (some why)))
          s e in
      record {
        hedge = h;
        placed = cc;
        status = ground arith;
        volume = ground arith;
        no_profit = ground arith;
      }

  -- The report by the answers to the two orders. The state changes after them only for a hedge.
  abbrev pub Outcome :
      Bool
      → Bool
      → PairedOrders F
      → LegResult F
      → LegResult F
      → S
      → S
      → TradeExecutionResult F Reason
      → Type 0
  Outcome true true o bought sold s s' r =
      (r.status ≡ success)
      × (r.executed_volume_usd ≡ min bought.filled_amount sold.filled_amount ⊗ o.buy_price)
      × (r.realized_pnl_usd ≡ r.executed_volume_usd ⊗ o.net_spread_pct)
      × (s' ≡ s)
  Outcome false false o bought sold s s' r =
      (r.status ≡ rejected)
      × (r.executed_volume_usd ≡ num 0)
      × (r.realized_pnl_usd ≡ num 0)
      × (s' ≡ s)
  Outcome true false o bought sold s s' r =
      Flattened o o.buy_exchange sell bought.filled_amount o.buy_price s s' r
  Outcome false true o bought sold s s' r =
      Flattened o o.sell_exchange buy sold.filled_amount o.sell_price s s' r

  settle-Outcome :
      (o : PairedOrders F) (bought sold : LegResult F) (b c : Bool) (s : S)
      {r : TradeExecutionResult F Reason} {s' : S}
      → bought.accepted ≡ b
      → sold.accepted ≡ c
      → settle client max_repegs o bought sold s ≡ (ok r, s')
      → Outcome b c o bought sold s s' r
  unfolding settle
  settle-Outcome o bought sold true true s eb ec e = ground arith
  settle-Outcome o bought sold false false s eb ec e = ground arith
  settle-Outcome o bought sold true false s eb ec e =
      flatten-Flattened o o.buy_exchange bought.filled_amount sell o.buy_price
        (sell_rejected sold.reason) s (rw (eb, ec) at e)
  settle-Outcome o bought sold false true s eb ec e =
      flatten-Flattened o o.sell_exchange sold.filled_amount buy o.sell_price
        (buy_rejected bought.reason) s (rw (eb, ec) at e)

  -- A run that returns has placed the two orders, in the order of `swapped`. With both accepted it
  -- reports SUCCESS, the smaller fill at the buy price, and places nothing more, however much the
  -- fills differ. With both rejected it reports REJECTED and zeros, and places nothing more. With
  -- one accepted it hedges that leg's fill on its own exchange and on the other side, reports
  -- HEDGED if the hedge filled at least that much and PARTIAL_FILL otherwise, the volume at the
  -- leg's price, and no profit.
  pub execute-Outcome :
      (swapped : Bool) (o : PairedOrders F) (s : S) {r : TradeExecutionResult F Reason} {s'' : S}
      → execute_paired_orders client max_repegs swapped o s ≡ (ok r, s'')
      → (bought : LegResult F) × (sold : LegResult F) × (s' : S) × (gather swapped
            (client.place_ioc_order o.buy_exchange o.symbol buy o.amount o.buy_price)
            (client.place_ioc_order o.sell_exchange o.symbol sell o.amount o.sell_price)
            s
          ≡ (ok (bought, sold), s'))
        × Outcome bought.accepted sold.accepted o bought sold s' s'' r
  unfolding execute_paired_orders
  execute-Outcome swapped o s e =
      let ((bought, sold), s', placed, last) =
        >>=-eq-ok
          (gather swapped (client.place_ioc_order o.buy_exchange o.symbol buy o.amount o.buy_price)
            (client.place_ioc_order o.sell_exchange o.symbol sell o.amount o.sell_price))
          (λ (bought, sold). settle client max_repegs o bought sold) s e in
      (
        bought,
        sold,
        s',
        placed,
        settle-Outcome o bought sold bought.accepted sold.accepted s' refl refl last,
      )

  module _ (x : IsExact F) (honest : IsHonest client) (liquid : IsLiquid client) where
    Flattened-hedged :
        (o : PairedOrders F) (exchange : String) (side : Side) (open_amount price : F) (s s' : S)
        (r : TradeExecutionResult F Reason)
        → num 0 ≼ open_amount
        → Flattened o exchange side open_amount price s s' r
        → r.status ≡ hedged
    Flattened-hedged o exchange side open_amount price s s' r pos f =
        let bounds =
          auto_hedge_bounds client x honest exchange o.symbol side open_amount max_repegs
            o.high_volatility s pos f.placed in
        let whole : open_amount ≼ f.hedge =
          subst (λ t. open_amount ≼ t) (sym (bounds.2 liquid)) (x.le_refl open_amount) in
        f.status ∙ rw whole

    Outcome-ne-partial :
        (b c : Bool) (o : PairedOrders F) (bought sold : LegResult F) (s s' : S)
        (r : TradeExecutionResult F Reason)
        → num 0 ≼ bought.filled_amount
        → num 0 ≼ sold.filled_amount
        → Outcome b c o bought sold s s' r
        → r.status ≢ partial_fill
    Outcome-ne-partial true true o bought sold s s' r pb ps h = λ e. cc h.0
    Outcome-ne-partial false false o bought sold s s' r pb ps h = λ e. cc h.0
    Outcome-ne-partial true false o bought sold s s' r pb ps h = λ e.
        cc (Flattened-hedged o o.buy_exchange sell bought.filled_amount o.buy_price s s' r pb h)
    Outcome-ne-partial false true o bought sold s s' r pb ps h =
        λ e. cc (Flattened-hedged o o.sell_exchange buy sold.filled_amount o.sell_price s s' r ps h)

    -- Without rounding, with an amount that is not negative and through an honest client whose
    -- market orders fill in full, a run that returns does not report PARTIAL_FILL.
    pub execute_never_partial :
        (swapped : Bool) (o : PairedOrders F) (s : S) {r : TradeExecutionResult F Reason} {s'' : S}
        → num 0 ≼ o.amount
        → execute_paired_orders client max_repegs swapped o s ≡ (ok r, s'')
        → r.status ≢ partial_fill
    execute_never_partial swapped o s {r} {s''} pos e =
        let (bought, sold, s', placed, outcome) = execute-Outcome swapped o s e in
        let ((t, u, b), (v, w, c)) =
          gather-eq-ok swapped
            (client.place_ioc_order o.buy_exchange o.symbol buy o.amount o.buy_price)
            (client.place_ioc_order o.sell_exchange o.symbol sell o.amount o.sell_price) s placed in
        Outcome-ne-partial bought.accepted sold.accepted o bought sold s' s'' r
          (honest.ioc_fill o.buy_exchange o.symbol buy o.amount o.buy_price t bought u b pos).0
          (honest.ioc_fill o.sell_exchange o.symbol sell o.amount o.sell_price v sold w c pos).0
          outcome
