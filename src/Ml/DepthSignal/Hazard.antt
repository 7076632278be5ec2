-- ===== src/Ml/DepthSignal/Hazard.antt =====
-- The hazard of backend/ml/depth_signal.py.
use gen.Prelude.{false, List, [], ◌∷◌, String, ◌≡◌, refl, inl, inr, Bool-cases, if◌then◌else◌}
use gen.Errors.{Result, ok, ◌>>=◌}
use gen.Num.{Float, ◌≼◌, ◌≺◌, ◌≤?◌, ◌⊘◌, num, min, sum}
use gen.Num.Order.{lt_of_not_le, not_le_of_lt, lt-le_trans, min-le, le-min, ⊘_pos}
use gen.Num.Exact.{IsExact}
use gen.Num.Algebra.{le_of_lt, le_trans, quot-nonneg, quot-le-quot}
use gen.Schemas.{DepthMatrix}
use gen.Ml.DepthSignal.{last_row, near_bins, compute_depth_liquidity_hazard}

module _ {F : Type 0} ⦃fl : Float F⦄ where
  -- The hazard for a given liquidity.
  abbrev hazard_of : F → F → Result F
  hazard_of quantity near =
      if quantity ≤? num 0
      then ok (num 0)
      else if near ≤? num 0
      then ok (num 1)
      else (quantity ⊘ near >>= λ share. ok (min (num 1) share))

  abbrev near : List F → List (List F) → String → F
  near row rest side = sum (near_bins (last_row row rest) side)

  compute-hazard_of :
      (row : List F) (rest : List (List F)) (quantity : F) (side : String)
      → compute_depth_liquidity_hazard (record { grid = row ∷ rest }) quantity side
        ≡ hazard_of quantity (near row rest side)
  unfolding compute_depth_liquidity_hazard
  compute-hazard_of row rest quantity side = refl

module _ {F : Type 0} ⦃fl : Float F⦄ (x : IsExact F) where
  open x use {ordered, le_refl}

  zero-le-one : fl.decimal 0 0 ≼ fl.decimal 1 0
  zero-le-one = le_of_lt x (num 0) (num 1) x.zero-lt-one

  positive : (a : F) → (a ≤? num 0) ≡ false → num 0 ≺ a
  positive a = lt_of_not_le ordered a (num 0) (le_refl a) (le_refl (num 0))

  share :
      (q n : F)
      → num 0 ≺ n
      → (q ⊘ n >>= λ part. ok (min (num 1) part)) ≡ ok (min (num 1) (fl.quot q n))
  share q n h = rw (⊘_pos ordered q n h)

  abbrev pub IsHazard : Result F → Type 0
  IsHazard r = (h : F) × (r ≡ ok h) × (num 0 ≼ h) × (h ≼ num 1)

  hazard_of-IsHazard : (q n : F) → IsHazard (hazard_of q n)
  hazard_of-IsHazard q n = elim (Bool-cases (q ≤? num 0)) [
    | inl idle ↦ (num 0, rw idle refl, le_refl (num 0), zero-le-one)
    | inr busy ↦ elim (Bool-cases (n ≤? num 0)) [
      | inl dry ↦ (num 1, rw (busy, dry) refl, zero-le-one, le_refl (num 1))
      | inr wet ↦
          let part = fl.quot q n in
          let pos = quot-nonneg x q n (le_of_lt x (num 0) q (positive q busy)) (positive n wet) in
          (
            min (num 1) part,
            rw (busy, wet) (share q n (positive n wet)),
            le-min ordered (num 1) part (num 0) zero-le-one pos,
            (min-le ordered (num 1) part (le_refl (num 1)) (le_refl part)).0,
          )
    ]
  ]

  hazard_of-mono :
      (q q' n h h' : F) → q ≼ q' → hazard_of q n ≡ ok h → hazard_of q' n ≡ ok h' → h ≼ h'
  hazard_of-mono q q' n h h' le e e' = elim (Bool-cases (q ≤? num 0)) [
    | inl idle ↦
        let zero : num 0 ≡ h = cc (rw idle at e) in
        let (k, ek, low, high) = hazard_of-IsHazard q' n in
        let same : k ≡ h' = cc in rw (← zero, ← same) low
    | inr busy ↦
        let busy' : (q' ≤? num 0) ≡ false =
          not_le_of_lt ordered (num 0) q' (lt-le_trans ordered (num 0) q q' (positive q busy) le) in
        elim (Bool-cases (n ≤? num 0)) [
          | inl dry ↦
              let one : num 1 ≡ h = cc (rw (busy, dry) at e) in
              let one' : num 1 ≡ h' = cc (rw (busy', dry) at e') in
              rw (← one, ← one') (le_refl (num 1))
          | inr wet ↦
              let pos = positive n wet in
              let v : ok (min (num 1) (fl.quot q n)) ≡ ok h = rw (busy, wet, share q n pos) at e in
              let v' : ok (min (num 1) (fl.quot q' n)) ≡ ok h' =
                rw (busy', wet, share q' n pos) at e' in
              let w : min (num 1) (fl.quot q n) ≡ h = cc v in
              let w' : min (num 1) (fl.quot q' n) ≡ h' = cc v' in
              let bounds =
                min-le ordered (num 1) (fl.quot q n) (le_refl (num 1)) (le_refl (fl.quot q n)) in
              rw (← w, ← w')
                (le-min ordered (num 1) (fl.quot q' n) (min (num 1) (fl.quot q n)) bounds.0 (
                  le_trans x (min (num 1) (fl.quot q n)) (fl.quot q n) (fl.quot q' n) bounds.1
                    (quot-le-quot x q q' n pos le)))
        ]
  ]

  -- Without rounding the hazard is defined for every grid, quantity and side, and lies between 0
  -- and 1.
  pub compute-IsHazard :
      (depth : DepthMatrix F) (quantity : F) (side : String)
      → IsHazard (compute_depth_liquidity_hazard depth quantity side)
  unfolding compute_depth_liquidity_hazard
  compute-IsHazard depth quantity side = cases depth.grid
    where
      cases :
          (grid : List (List F))
          → IsHazard (compute_depth_liquidity_hazard (record { grid = grid }) quantity side)
      cases [] = (num 0, refl, le_refl (num 0), zero-le-one)
      cases (row ∷ rest) =
          rw (compute-hazard_of row rest quantity side)
            (hazard_of-IsHazard quantity (near row rest side))

  -- Without rounding a larger order on the same book has no smaller hazard.
  pub compute-mono :
      (depth : DepthMatrix F) (quantity quantity' h h' : F) (side : String)
      → quantity ≼ quantity'
      → compute_depth_liquidity_hazard depth quantity side ≡ ok h
      → compute_depth_liquidity_hazard depth quantity' side ≡ ok h'
      → h ≼ h'
  unfolding compute_depth_liquidity_hazard
  compute-mono depth q q' h h' side le = cases depth.grid
    where
      cases :
          (grid : List (List F))
          → compute_depth_liquidity_hazard (record { grid = grid }) q side ≡ ok h
          → compute_depth_liquidity_hazard (record { grid = grid }) q' side ≡ ok h'
          → h ≼ h'
      cases [] e e' = let same : h ≡ h' = cc in rw same (le_refl h')
      cases (row ∷ rest) e e' =
          hazard_of-mono q q' (near row rest side) h h' le
            (rw (compute-hazard_of row rest q side) at e)
            (rw (compute-hazard_of row rest q' side) at e')
