-- ===== src/Execution/Decision.antt =====
-- backend/execution/decision.py: the pre-trade risk gate.
pub mod Laws
pub mod Tests
use gen.Prelude.{Bool, true, false, Option, none, some, if◌then◌else◌}
use gen.Num.{Float, ◌⊕◌, ◌<?◌, ◌≤?◌}
use gen.Schemas.{ArbitrageSignal, RiskLimits}

-- The reason texts: the check that failed with the numbers that the text prints, value first.
-- `authorized` is the empty text.
pub data Reason (F : Type 0) : Type 0 where
  authorized kill_switch : Reason F
  low_alpha low_probability high_hazard : F → F → Reason F
  trade_cap daily_cap : F → F → Reason F

module _ {F : Type 0} ⦃fl : Float F⦄ where
  -- the checks under `if trade_notional_usd is not None`
  unfoldable pub check_notional : RiskLimits F → Option F → F → Bool × Reason F
  check_notional limits none used = (true, authorized)
  check_notional limits (some notional) used =
      if limits.max_notional_usd_per_trade <? notional
      then (false, trade_cap notional limits.max_notional_usd_per_trade)
      else (let projected_daily = used ⊕ notional in
          if limits.max_daily_notional_usd <? projected_daily
          then (false, daily_cap projected_daily limits.max_daily_notional_usd)
          else (true, authorized))

  unfoldable pub should_execute :
      F → ArbitrageSignal F → RiskLimits F → Option F → F → Bool × Reason F
  should_execute net_alpha_bps signal limits trade_notional used =
      if limits.kill_switch_engaged
      then (false, kill_switch)
      else if net_alpha_bps ≤? limits.min_alpha_bps
      then (false, low_alpha net_alpha_bps limits.min_alpha_bps)
      else if signal.execution_probability ≤? limits.min_execution_probability
      then (false, low_probability signal.execution_probability limits.min_execution_probability)
      else if limits.max_adverse_hazard ≤? signal.adverse_hazard
      then (false, high_hazard signal.adverse_hazard limits.max_adverse_hazard)
      else check_notional limits trade_notional used
