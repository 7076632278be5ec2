-- ===== src/Ml/DepthSignal.antt =====
-- backend/ml/depth_signal.py: how much of the near liquidity an order would take.
pub mod Hazard
mod Tests
use gen.Prelude.{
  ℕ, ◌+◌, ◌-◌, ◌/◌, Bool, List, [], ◌∷◌, length, drop, take, ◌||◌, if◌then◌else◌, String, str_eq,
}
use gen.Errors.{Result, ok, ◌>>=◌}
use gen.Num.{Float, ◌⊘◌, ◌≤?◌, num, min, sum}
use gen.Schemas.{DepthMatrix}

abbrev pub near_touch_bins : ℕ
near_touch_bins = 5

-- `grid[-1]` of a grid with the rows `row ∷ rest`.
unfoldable pub last_row {ℓ} : {A : Type ℓ} → A → List A → A
last_row row [] = row
last_row row (next ∷ rest) = last_row next rest

module _ {F : Type 0} ⦃fl : Float F⦄ where
  -- The bins of a row that count: `row[a:b]` is `take (b - a) (drop a row)`, and a subtraction of
  -- numbers that stops at zero is the `max(0, …)` of the source.
  unfoldable pub near_bins : List F → String → List F
  near_bins row side =
      let half = length row / 2 in
      if str_eq side "ask"
      then take near_touch_bins (drop half row)
      else take (half - (half - near_touch_bins)) (drop (half - near_touch_bins) row)

  unfoldable pub compute_depth_liquidity_hazard : DepthMatrix F → F → String → Result F
  unfolding last_row near_bins
  compute_depth_liquidity_hazard depth quantity side = elim depth.grid [
    | [] ↦ ok (num 0)
    | row ∷ rest ↦
        let near_touch_liquidity = sum (near_bins (last_row row rest) side) in
        if quantity ≤? num 0
        then ok (num 0)
        else if near_touch_liquidity ≤? num 0
        then ok (num 1)
        else quantity ⊘ near_touch_liquidity >>= λ share. ok (min (num 1) share)
  ]
