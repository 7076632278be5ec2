-- ===== src/Ml/Heuristic.antt =====
-- backend/ml/heuristic.py: the signal from the recent gains and returns of a pair.
pub mod Bounds
mod Tests
use gen.Prelude.{
  ℕ, zero, suc, ◌+◌, ◌-◌, Bool, List, [], ◌∷◌, ◌++◌, length, drop, map, leb, if◌then◌else◌,
}
use gen.Errors.{Result, ok, ◌>>=◌}
use gen.Num.{Float, ◌⊖◌, ◌⊗◌, ◌⊘◌, ◌<?◌, num, min, max, sum}
use gen.Schemas.{ArbitrageSignal}

pub record HeuristicConfig (F : Type 0) : Type 0 where
  pub window_size : ℕ
  pub volatility_hazard_scale_bps : F

-- `HeuristicConfig()`
abbrev pub default_config : {F : Type 0} ⦃fl : Float F⦄ → HeuristicConfig F
default_config ⦃fl⦄ = record { window_size = 30; volatility_hazard_scale_bps = fl.decimal 50 0 }

pub record HeuristicSignalEstimator (F : Type 0) : Type 0 where
  pub config : HeuristicConfig F
  pub alpha_history : List F
  pub return_history : List F

-- `append` to a `deque(maxlen=n)`: the oldest entries beyond the length fall out.
unfoldable pub append {ℓ} : {A : Type ℓ} → ℕ → List A → A → List A
append n xs x = let ys = xs ++ x ∷ [] in drop (length ys - n) ys

unfoldable pub init : {F : Type 0} → HeuristicConfig F → HeuristicSignalEstimator F
init config = record { config = config; alpha_history = []; return_history = [] }

module _ {F : Type 0} ⦃fl : Float F⦄ where
  -- `sum(1 for a in self._alpha_history if a > 0)`
  unfoldable pub positive_ticks : List F → ℕ
  positive_ticks [] = 0
  positive_ticks (a ∷ rest) = if num 0 <? a then suc (positive_ticks rest) else positive_ticks rest

  -- `positive_ticks / n if n else 0.0`
  unfoldable pub persistence : List F → Result F
  unfolding positive_ticks
  persistence [] = ok (num 0)
  persistence (a ∷ rest) = num (positive_ticks (a ∷ rest)) ⊘ num (length (a ∷ rest))

  -- `n` is the number of gains, by which the source divides the sums of returns too.
  unfoldable pub stdev_bps : ℕ → List F → Result F
  stdev_bps n returns =
      let total = sum returns in
      let spread : F → F =
        λ mean_return. sum (map (λ r. (r ⊖ mean_return) ⊗ (r ⊖ mean_return)) returns) in
      if leb 2 n
      then (total ⊘ num n >>= λ mean_return.
          spread mean_return ⊘ num n >>= λ variance. ok (fl.sqrt variance ⊗ num 10000))
      else ok (num 0)

  -- The signal and the estimator after it; the histories keep the tick also if a division raises.
  unfoldable pub signal_of : HeuristicSignalEstimator F → F → F → Result (ArbitrageSignal F)
  unfolding persistence stdev_bps
  signal_of h net_alpha_bps depth_liquidity_hazard = persistence h.alpha_history >>= λ share.
      stdev_bps (length h.alpha_history) h.return_history >>= λ stdev.
      stdev ⊘ h.config.volatility_hazard_scale_bps >>= λ scaled. ok (record {
        execution_probability = share;
        expected_alpha_bps = net_alpha_bps;
        adverse_hazard = max (min (num 1) scaled) depth_liquidity_hazard;
      })

  unfoldable pub update :
      F
      → F
      → F
      → HeuristicSignalEstimator F
      → Result (ArbitrageSignal F) × HeuristicSignalEstimator F
  unfolding append signal_of
  update net_alpha_bps mid_price_return depth_liquidity_hazard h =
      let h' = record h {
        alpha_history = append h.config.window_size h.alpha_history net_alpha_bps;
        return_history = append h.config.window_size h.return_history mid_price_return;
      } in
      (signal_of h' net_alpha_bps depth_liquidity_hazard, h')
