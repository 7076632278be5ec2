-- ===== src/Execution/Decision/Tests.antt =====
-- Runs of the risk gate, and its theorems at concrete trades.
use gen.Prelude.{true, false, some, ◌≡◌, ◌↔◌, refl, arith}
use gen.Num.Int.{ℤ, pos, int_float, int_arith, ℤ-IsOrdered}
use gen.Schemas.{ArbitrageSignal, RiskLimits}
use gen.Execution.Decision.{authorized, low_alpha, daily_cap, check_notional, should_execute}
use gen.Execution.Decision.Laws.{
  IsAuthorized, Explains, should_execute_iff, should_execute-Explains,
}

abbrev pub signal : ArbitrageSignal ℤ
signal = record {
  execution_probability = pos 90;
  expected_alpha_bps = pos 20;
  adverse_hazard = pos 10;
}

abbrev better : ArbitrageSignal ℤ
better = record signal { execution_probability = pos 95; adverse_hazard = pos 3 }

-- Probabilities and hazards in percent.
abbrev limits : RiskLimits ℤ
limits = record {
  min_alpha_bps = pos 15;
  min_execution_probability = pos 85;
  max_adverse_hazard = pos 20;
  max_notional_usd_per_trade = pos 50;
  max_daily_notional_usd = pos 500;
  kill_switch_engaged = false;
}

approves : should_execute (pos 20) signal limits (some (pos 50)) (pos 450) ≡ (true, authorized)
unfolding should_execute check_notional int_arith
approves = refl

refuses_at_minimum :
    should_execute (pos 15) signal limits (some (pos 50)) (pos 0)
    ≡ (false, low_alpha (pos 15) (pos 15))
unfolding should_execute
refuses_at_minimum = refl

refuses_over_daily_cap :
    should_execute (pos 20) signal limits (some (pos 50)) (pos 451)
    ≡ (false, daily_cap (pos 501) (pos 500))
unfolding should_execute check_notional int_arith
refuses_over_daily_cap = refl

should_execute_iff_example :
    ((should_execute (pos 20) signal limits (some (pos 50)) (pos 450)).0 ≡ true)
    ↔ IsAuthorized (pos 20) signal limits (some (pos 50)) (pos 450)
should_execute_iff_example =
    should_execute_iff ℤ-IsOrdered (pos 20) signal limits (some (pos 50)) (pos 450) (ground arith)

should_execute-Explains_example :
    let (verdict, reason) = should_execute (pos 20) signal limits (some (pos 50)) (pos 451) in
    ((verdict ≡ true) ↔ (reason ≡ authorized))
    × Explains (pos 20) signal limits (some (pos 50)) (pos 451) reason
should_execute-Explains_example =
    should_execute-Explains (pos 20) signal limits (some (pos 50)) (pos 451)
