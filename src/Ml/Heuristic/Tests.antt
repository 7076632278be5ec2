-- ===== src/Ml/Heuristic/Tests.antt =====
-- Two ticks of an estimator with a window of two.
use gen.Prelude.{[], ◌∷◌, ◌≡◌, refl}
use gen.Num.Int.{ℤ, pos, int_float}
use gen.Ml.Heuristic.{HeuristicConfig, HeuristicSignalEstimator, append, update}

abbrev config : HeuristicConfig ℤ
config = record { window_size = 2; volatility_hazard_scale_bps = pos 50 }

abbrev used : HeuristicSignalEstimator ℤ
used = record {
  config = config;
  alpha_history = pos 1 ∷ pos 2 ∷ [];
  return_history = pos 0 ∷ pos 0 ∷ [];
}

window_slides : (update (pos 3) (pos 0) (pos 1) used).1.alpha_history ≡ pos 2 ∷ pos 3 ∷ []
unfolding update append
window_slides = refl
