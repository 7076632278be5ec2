-- ===== src/Execution/BrokenLeg/Total.antt =====
-- Every run of backend/execution/broken_leg.py's engine over a client whose calls do not raise.
use gen.Prelude.{ℕ, Bool, ◌≡◌}
use gen.Errors.{ok}
use gen.Exec.{gather}
use gen.Num.{Float}
use gen.Schemas.{TradeExecutionResult}
use gen.Execution.Exchange.{buy, sell, LegResult, ExchangeClient, IsResponsive}
use gen.Execution.BrokenLeg.{Reason, PairedOrders, execute_paired_orders}
use gen.Execution.BrokenLeg.Returns.{execute-Returns}
use gen.Execution.BrokenLeg.Outcome.{Outcome, execute-Outcome}

module _ {F S : Type 0} ⦃fl : Float F⦄ (client : ExchangeClient F S)
    (responsive : IsResponsive client) where
  -- If no call of the client raises, `execute_paired_orders` ends with a report from every state, in
  -- both orders of the legs and for every number of re-pegs, and the report is the right one for
  -- the two replies: SUCCESS with the smaller fill at the buy price if both legs were accepted,
  -- REJECTED with zeros if none was, and with one accepted the report of the hedge of that leg's
  -- fill, on its own exchange and on the other side.
  pub execute_total :
      (max_repegs : ℕ) (swapped : Bool) (o : PairedOrders F) (s : S)
      → (r : TradeExecutionResult F Reason) × (s'' : S) × (execute_paired_orders client max_repegs
            swapped o s
          ≡ (ok r, s''))
        × (bought : LegResult F) × (sold : LegResult F) × (s' : S) × (gather swapped
              (client.place_ioc_order o.buy_exchange o.symbol buy o.amount o.buy_price)
              (client.place_ioc_order o.sell_exchange o.symbol sell o.amount o.sell_price)
              s
            ≡ (ok (bought, sold), s'))
        × Outcome client max_repegs bought.accepted sold.accepted o bought sold s' s'' r
  execute_total max_repegs swapped o s =
      let (r, s'', returns) = execute-Returns client responsive max_repegs swapped o s in
      let (bought, sold, s', placed, outcome) =
        execute-Outcome client max_repegs swapped o s returns in
      (r, s'', returns, bought, sold, s', placed, outcome)
