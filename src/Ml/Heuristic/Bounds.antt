-- ===== src/Ml/Heuristic/Bounds.antt =====
-- The histories of backend/ml/heuristic.py.
use gen.Prelude.{
  ℕ, ◌+◌, ◌-◌, ◌≤◌, ◌≡◌, List, [], ◌∷◌, ◌++◌, length, length-drop, length-append, arith,
}
use gen.Num.{Float}
use gen.Ml.Heuristic.{HeuristicConfig, HeuristicSignalEstimator, append, init, update}

pub length-append_deque :
    {A : Type 0} (n : ℕ) (xs : List A) (a : A)
    → length (append n xs a) ≡ (length xs + 1) - ((length xs + 1) - n)
unfolding append
length-append_deque n xs a =
    omega (arith, length-drop (length (xs ++ a ∷ []) - n) (xs ++ a ∷ []), length-append xs (a ∷ []))

-- As many returns as gains, and no more than the window.
abbrev pub IsAligned : {F : Type 0} → HeuristicSignalEstimator F → Type 0
IsAligned h =
    (length h.alpha_history ≡ length h.return_history)
    × (length h.alpha_history ≤ h.config.window_size)

-- A new estimator has aligned histories: as many returns as gains, and no more than the window. A
-- tick keeps them aligned, whether it returns a signal or raises, and it lengthens them until the
-- window is full. So the number of gains by which the sums of returns are divided is their number.
pub update-IsAligned :
    {F : Type 0} ⦃fl : Float F⦄ (net_alpha_bps mid_price_return depth_liquidity_hazard : F)
    (config : HeuristicConfig F) (h : HeuristicSignalEstimator F)
    → IsAligned h
    → let h' = (update net_alpha_bps mid_price_return depth_liquidity_hazard h).1 in
      IsAligned (init config)
      × IsAligned h'
      × (length h.alpha_history + 1 ≤ h.config.window_size
          → length h'.alpha_history ≡ length h.alpha_history + 1)
unfolding update init
update-IsAligned a r d config h aligned = omega (
  arith,
  aligned,
  length-append_deque h.config.window_size h.alpha_history a,
  length-append_deque h.config.window_size h.return_history r,
)
