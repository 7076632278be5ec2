-- ===== src/Execution/Triangular/Tests.antt =====
-- A cycle whose sale is rejected.
use gen.Prelude.{◌≡◌, refl}
use gen.Errors.{ok}
use gen.Exec.{cab, gather_three}
use gen.Num.Int.{ℤ, pos, int_float, int_arith, ℤ-IsOrdered}
use gen.Schemas.{hedged, TradeExecutionResult}
use gen.Execution.Exchange.{LegResult}
use gen.Execution.BrokenLeg.Tests.{thin, thin-IsResponsive}
use gen.Execution.Triangular.{
  Reason, TriangleConfig, TriangleOrders, label, symbols, symbol_bridge_quote, symbol_target_bridge,
  symbol_target_quote, place_legs, execute_triangle,
}
use gen.Execution.Triangular.Outcome.{Outcome, execute_triangle-Outcome}

abbrev pub triangle : TriangleConfig
triangle = record { exchange = "kraken"; quote = "USDT"; bridge = "BTC"; target = "ETH" }

abbrev pub cycle : TriangleOrders ℤ
cycle = record {
  triangle = triangle;
  quote_notional_usd = pos 50;
  bridge_quote_price = pos 10;
  target_bridge_price = pos 1;
  target_quote_price = pos 11;
  bridge_qty = pos 5;
  target_qty = pos 4;
  gross_spread_pct = pos 1;
  net_spread_pct = pos 1;
  ml_confidence_score = pos 90;
}

names :
    (label triangle ≡ "USDT->BTC->ETH->USDT")
    × (symbols triangle ≡ ("BTC/USDT", "ETH/BTC", "ETH/USDT"))
unfolding label symbols symbol_bridge_quote symbol_target_bridge symbol_target_quote
names = (refl, refl)

-- The second fill, 4 units, is sold at 10.
unwound :
    (result : TradeExecutionResult ℤ Reason) × (execute_triangle thin cab cycle tt
      ≡ (ok result, tt))
    × (result.status ≡ hedged)
    × (result.executed_volume_usd ≡ pos 40)
unfolding execute_triangle gather_three int_arith
unwound = (_, refl, refl, refl)

execute_triangle-Outcome_example :
    (leg1 leg2 leg3 : LegResult ℤ) × (s' s'' : Unit {0}) × (r : TradeExecutionResult ℤ Reason)
    × (place_legs thin cab cycle tt ≡ (ok (leg1, leg2, leg3), s'))
    × (execute_triangle thin cab cycle tt ≡ (ok r, s''))
    × Outcome thin leg1.accepted leg2.accepted leg3.accepted cycle leg1 leg2 s' s'' r
execute_triangle-Outcome_example =
    execute_triangle-Outcome thin ℤ-IsOrdered thin-IsResponsive cab cycle tt
