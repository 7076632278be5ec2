-- ===== src/Execution/Decision/Laws.antt =====
-- What the risk gate of backend/execution/decision.py decides.
use gen.Prelude.{true, false, Option, none, some, ◌≡◌, ◌↔◌, arith}
use gen.Num.{Float, ◌⊕◌, ◌≺◌, ◌≼◌, ◌<?◌, ◌≤?◌}
use gen.Num.Order.{IsOrdered, lt_of_not_le, le_of_not_lt, not_lt_of_le, not_le_of_lt}
use gen.Schemas.{ArbitrageSignal, RiskLimits}
use gen.Execution.Decision.{
  Reason, authorized, kill_switch, low_alpha, low_probability, high_hazard, trade_cap, daily_cap,
  check_notional, should_execute,
}

module _ {F : Type 0} ⦃fl : Float F⦄ where
  -- The caps, where the size of the trade is known.
  abbrev pub IsWithinCaps : RiskLimits F → Option F → F → Type 0
  IsWithinCaps limits none used = Unit
  IsWithinCaps limits (some notional) used =
      (notional ≼ limits.max_notional_usd_per_trade)
      × ((used ⊕ notional) ≼ limits.max_daily_notional_usd)

  -- The rule of docs/ARCHITECTURE.md section 5 with the caps and the kill switch.
  pub record IsAuthorized (alpha : F) (signal : ArbitrageSignal F) (limits : RiskLimits F)
      (notional : Option F) (used : F) : Type 0 where
    pub released : limits.kill_switch_engaged ≡ false
    pub alpha_above : limits.min_alpha_bps ≺ alpha
    pub probability_above : limits.min_execution_probability ≺ signal.execution_probability
    pub hazard_below : signal.adverse_hazard ≺ limits.max_adverse_hazard
    pub capped : IsWithinCaps limits notional used

  abbrev pub AreCapsNumbers : RiskLimits F → Option F → F → Type 0
  AreCapsNumbers limits none used = Unit
  AreCapsNumbers limits (some notional) used =
      (notional ≼ notional)
      × ((used ⊕ notional) ≼ (used ⊕ notional))
      × (limits.max_notional_usd_per_trade ≼ limits.max_notional_usd_per_trade)
      × (limits.max_daily_notional_usd ≼ limits.max_daily_notional_usd)

  -- No number that the gate compares is NaN.
  pub record AreNumbers (alpha : F) (signal : ArbitrageSignal F) (limits : RiskLimits F)
      (notional : Option F) (used : F) : Type 0 where
    pub alpha_num : alpha ≼ alpha
    pub min_alpha_num : limits.min_alpha_bps ≼ limits.min_alpha_bps
    pub probability_num : signal.execution_probability ≼ signal.execution_probability
    pub min_probability_num : limits.min_execution_probability ≼ limits.min_execution_probability
    pub hazard_num : signal.adverse_hazard ≼ signal.adverse_hazard
    pub max_hazard_num : limits.max_adverse_hazard ≼ limits.max_adverse_hazard
    pub caps_num : AreCapsNumbers limits notional used

  -- With the kill switch engaged nothing passes, whatever the other numbers are.
  pub kill_switch_blocks :
      (alpha : F) (signal : ArbitrageSignal F) (limits : RiskLimits F) (notional : Option F)
      (used : F)
      → limits.kill_switch_engaged ≡ true
      → should_execute alpha signal limits notional used ≡ (false, kill_switch)
  unfolding should_execute
  kill_switch_blocks alpha signal limits notional used h = ground arith

  module _ (laws : IsOrdered F) where
    check_notional_iff :
        (limits : RiskLimits F) (notional : Option F) (used : F)
        → AreCapsNumbers limits notional used
        → ((check_notional limits notional used).0 ≡ true) ↔ IsWithinCaps limits notional used
    unfolding check_notional
    check_notional_iff limits none used n = (λ h. tt, λ h. cc)
    check_notional_iff limits (some x) used (nx, nu, nt, nd) = (
      λ h. ground (
        arith,
        le_of_not_lt laws limits.max_notional_usd_per_trade x nt nx,
        le_of_not_lt laws limits.max_daily_notional_usd (used ⊕ x) nd nu,
      ),
      λ (a, b). ground (
        arith,
        not_lt_of_le laws x limits.max_notional_usd_per_trade a,
        not_lt_of_le laws (used ⊕ x) limits.max_daily_notional_usd b,
      ),
    )

    -- Away from NaN the gate approves exactly what the written rule authorizes.
    pub should_execute_iff :
        (alpha : F) (signal : ArbitrageSignal F) (limits : RiskLimits F) (notional : Option F)
        (used : F)
        → AreNumbers alpha signal limits notional used
        → ((should_execute alpha signal limits notional used).0 ≡ true)
          ↔ IsAuthorized alpha signal limits notional used
    unfolding should_execute
    should_execute_iff alpha signal limits notional used n =
        let caps = check_notional_iff limits notional used n.caps_num in
        (
          λ h. ground (
            arith,
            caps,
            lt_of_not_le laws alpha limits.min_alpha_bps n.alpha_num n.min_alpha_num,
            lt_of_not_le laws signal.execution_probability limits.min_execution_probability
                n.probability_num n.min_probability_num,
            lt_of_not_le laws limits.max_adverse_hazard signal.adverse_hazard n.max_hazard_num
                n.hazard_num,
          ),
          λ a. ground (
            arith,
            caps,
            not_le_of_lt laws limits.min_alpha_bps alpha a.alpha_above,
            not_le_of_lt laws limits.min_execution_probability signal.execution_probability
                a.probability_above,
            not_le_of_lt laws signal.adverse_hazard limits.max_adverse_hazard a.hazard_below,
          ),
        )

  -- The filters before the caps let the trade through.
  abbrev pub Filtered : F → ArbitrageSignal F → RiskLimits F → Type 0
  Filtered alpha signal limits =
      (limits.kill_switch_engaged ≡ false)
      × ((alpha ≤? limits.min_alpha_bps) ≡ false)
      × ((signal.execution_probability ≤? limits.min_execution_probability) ≡ false)
      × ((limits.max_adverse_hazard ≤? signal.adverse_hazard) ≡ false)

  -- What each reason says of all the checks before it and of the check that it names.
  abbrev pub Explains : F → ArbitrageSignal F → RiskLimits F → Option F → F → Reason F → Type 0
  Explains alpha signal limits none used authorized = Filtered alpha signal limits
  Explains alpha signal limits (some n) used authorized =
      Filtered alpha signal limits
      × ((limits.max_notional_usd_per_trade <? n) ≡ false)
      × ((limits.max_daily_notional_usd <? (used ⊕ n)) ≡ false)
  Explains alpha signal limits notional used kill_switch = limits.kill_switch_engaged ≡ true
  Explains alpha signal limits notional used (low_alpha a m) =
      (limits.kill_switch_engaged ≡ false) × (a ≡ alpha) × (m ≡ limits.min_alpha_bps) × (a ≼ m)
  Explains alpha signal limits notional used (low_probability p m) =
      (limits.kill_switch_engaged ≡ false)
      × ((alpha ≤? limits.min_alpha_bps) ≡ false)
      × (p ≡ signal.execution_probability)
      × (m ≡ limits.min_execution_probability)
      × (p ≼ m)
  Explains alpha signal limits notional used (high_hazard z m) =
      (limits.kill_switch_engaged ≡ false)
      × ((alpha ≤? limits.min_alpha_bps) ≡ false)
      × ((signal.execution_probability ≤? limits.min_execution_probability) ≡ false)
      × (z ≡ signal.adverse_hazard)
      × (m ≡ limits.max_adverse_hazard)
      × (m ≼ z)
  Explains alpha signal limits notional used (trade_cap n m) =
      Filtered alpha signal limits
      × (notional ≡ some n)
      × (m ≡ limits.max_notional_usd_per_trade)
      × (m ≺ n)
  Explains alpha signal limits none used (daily_cap p m) = ⊥
  Explains alpha signal limits (some n) used (daily_cap p m) =
      Filtered alpha signal limits
      × ((limits.max_notional_usd_per_trade <? n) ≡ false)
      × (p ≡ used ⊕ n)
      × (m ≡ limits.max_daily_notional_usd)
      × (m ≺ p)

  -- The verdict is `True` exactly with the empty reason. The empty reason says that no check failed,
  -- the two caps included where the size of the trade is given. Any other reason names a check that
  -- failed, with the two numbers that it compared, and every check that stands before it in the order
  -- kill switch, alpha, probability, hazard, trade cap, daily cap did not fail.
  pub should_execute-Explains :
      (alpha : F) (signal : ArbitrageSignal F) (limits : RiskLimits F) (notional : Option F)
      (used : F)
      → let (verdict, reason) = should_execute alpha signal limits notional used in
        ((verdict ≡ true) ↔ (reason ≡ authorized))
        × Explains alpha signal limits notional used reason
  unfolding should_execute check_notional
  should_execute-Explains alpha signal limits none used = ground arith
  should_execute-Explains alpha signal limits (some n) used = ground arith

  module _ (laws : IsOrdered F) where
    open laws use {le_trans}

    -- A trade that is at least as good on every count passes wherever the worse one passes.
    pub should_execute_mono :
        (alpha alpha' : F) (signal signal' : ArbitrageSignal F) (limits : RiskLimits F)
        (notional : Option F) (used : F)
        → alpha ≼ alpha'
        → signal.execution_probability ≼ signal'.execution_probability
        → signal'.adverse_hazard ≼ signal.adverse_hazard
        → (should_execute alpha signal limits notional used).0 ≡ true
        → (should_execute alpha' signal' limits notional used).0 ≡ true
    unfolding should_execute
    should_execute_mono alpha alpha' signal signal' limits notional used a p z h = ground (
      arith,
      le_trans alpha alpha' limits.min_alpha_bps a,
      le_trans signal.execution_probability signal'.execution_probability
          limits.min_execution_probability p,
      le_trans limits.max_adverse_hazard signal'.adverse_hazard signal.adverse_hazard,
    )
