-- ===== src/Ml/DepthSignal/Tests.antt =====
-- A row of twelve bins, six units near the touch on the ask side.
use gen.Prelude.{[], ◌∷◌, ◌≡◌, refl}
use gen.Errors.{ok}
use gen.Num.Int.{ℤ, pos, int_float, int_arith, ℤ-IsExact}
use gen.Schemas.{DepthMatrix}
use gen.Ml.DepthSignal.{compute_depth_liquidity_hazard}
use gen.Ml.DepthSignal.Hazard.{IsHazard, compute-IsHazard}

abbrev book : DepthMatrix ℤ
book = record {
  grid =
      ([]
        ∷ (pos 9
            ∷ pos 9
            ∷ pos 9
            ∷ pos 9
            ∷ pos 9
            ∷ pos 9
            ∷ pos 2
            ∷ pos 1
            ∷ pos 1
            ∷ pos 1
            ∷ pos 1
            ∷ pos 7
            ∷ [])
        ∷ []);
}

-- The quotient of whole numbers is rounded down.
all_of_it : compute_depth_liquidity_hazard book (pos 6) "ask" ≡ ok (pos 1)
unfolding compute_depth_liquidity_hazard int_arith
all_of_it = refl

part_of_it : compute_depth_liquidity_hazard book (pos 5) "ask" ≡ ok (pos 0)
unfolding compute_depth_liquidity_hazard int_arith
part_of_it = refl

compute-IsHazard_example : IsHazard ℤ-IsExact (compute_depth_liquidity_hazard book (pos 5) "bid")
compute-IsHazard_example = compute-IsHazard ℤ-IsExact book (pos 5) "bid"
