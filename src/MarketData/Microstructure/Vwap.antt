-- ===== src/MarketData/Microstructure/Vwap.antt =====
-- The walk of `compute_vwap` through a book side, in arithmetic without rounding.
use gen.Prelude.{false, List, [], ◌∷◌, ◌≡◌, ◌↔◌, inl, inr, All, arith, Bool-cases}
use mathlib.Core.Path.{subst}
use gen.Errors.{ok, raised, value_error}
use gen.Num.{Float, ◌⊕◌, ◌⊖◌, ◌⊗◌, ◌≺◌, ◌≼◌, ◌≤?◌, ◌<?◌, num, min}
use gen.Num.Order.{min-le, le-min, lt_of_not_le, le_of_not_lt, not_lt_of_le, not_le_of_lt, ⊘_pos}
use gen.Num.Exact.{IsExact}
use gen.Num.Algebra.{
  le_trans, le_of_lt, add-le-add, add-zero, add-nonneg, mul-add, mul-zero, lt_of_not-le, quot-le,
  sub-le_iff,
}
use gen.Schemas.{OrderBookLevel}
use gen.MarketData.Microstructure.{fill, compute_vwap}

module _ {F : Type 0} ⦃fl : Float F⦄ where
  -- Every volume is at least zero.
  abbrev pub AreVolumes : List (OrderBookLevel F) → Type 0
  AreVolumes = All (λ level. num 0 ≼ level.volume)

  -- Every price lies between two bounds.
  abbrev pub ArePriced : F → F → List (OrderBookLevel F) → Type 0
  ArePriced lo hi = All (λ level. (lo ≼ level.price) × (level.price ≼ hi))

  -- The volume on one side of the book.
  pub total_depth : List (OrderBookLevel F) → F
  total_depth [] = num 0
  total_depth (level ∷ levels) = level.volume ⊕ total_depth levels

  module _ (x : IsExact F) (quantity : F) where
    open x use {ordered, le_refl, add-sub_cancel, add_assoc, add-le-add_right}

    -- One level takes a volume from zero to what remains, and so never fills too much.
    taken_bounds :
        (volume filled : F)
        → num 0 ≼ volume
        → (quantity ⊖ filled ≤? num 0) ≡ false
        → let taken = min volume (quantity ⊖ filled) in
          (num 0 ≼ taken) × (taken ≼ volume) × ((filled ⊕ taken) ≼ quantity)
    taken_bounds volume filled v open_order =
        let remaining = quantity ⊖ filled in
        let more =
          lt_of_not_le ordered remaining (num 0) (le_refl remaining) (le_refl (num 0)) open_order in
        let below = min-le ordered volume remaining (le_refl volume) (le_refl remaining) in
        (
          le-min ordered volume remaining (num 0) v (le_of_lt x (num 0) remaining more),
          below.0,
          subst (λ t. (filled ⊕ min volume remaining) ≼ t) (add-sub_cancel filled quantity)
              (add-le-add x filled filled (min volume remaining) remaining (le_refl filled)
                below.1),
        )

    -- The notional paid stays between the bounds of the prices times the quantity filled.
    fill_bounds :
        (lo hi : F) (levels : List (OrderBookLevel F)) (filled notional : F)
        → AreVolumes levels
        → ArePriced lo hi levels
        → (lo ⊗ filled) ≼ notional
        → notional ≼ (hi ⊗ filled)
        → filled ≼ quantity
        → let (f, n) = fill quantity levels filled notional in
          ((lo ⊗ f) ≼ n) × (n ≼ (hi ⊗ f)) × (f ≼ quantity)
    unfolding fill
    fill_bounds lo hi [] filled notional v p l h q = (l, h, q)
    fill_bounds lo hi (level ∷ levels) filled notional v p l h q =
        elim (Bool-cases (quantity ⊖ filled ≤? num 0)) [
          | inl done ↦ rw done (l, h, q)
          | inr more ↦
              let taken = min level.volume (quantity ⊖ filled) in
              let b = taken_bounds level.volume filled v.0 more in
              rw more (
                fill_bounds lo hi levels (filled ⊕ taken) (notional ⊕ level.price ⊗ taken) v.1 p.1
                  (rw (mul-add x lo filled taken) (
                    add-le-add x (lo ⊗ filled) notional (lo ⊗ taken) (level.price ⊗ taken) l
                      (x.mul-le-mul_right lo level.price taken b.0 p.0.0)))
                  (rw (mul-add x hi filled taken) (
                    add-le-add x notional (hi ⊗ filled) (level.price ⊗ taken) (hi ⊗ taken) h
                      (x.mul-le-mul_right level.price hi taken b.0 p.0.1)))
                  b.2)
        ]

    total_depth_nonneg :
        (levels : List (OrderBookLevel F)) → AreVolumes levels → num 0 ≼ total_depth levels
    unfolding total_depth
    total_depth_nonneg [] v = le_refl (num 0)
    total_depth_nonneg (level ∷ levels) v =
        add-nonneg x level.volume (total_depth levels) v.0 (total_depth_nonneg levels v.1)

    -- One level: the walk can still reach the quantity exactly if it could before.
    taken_reach :
        (volume filled depth : F)
        → num 0 ≼ volume
        → num 0 ≼ depth
        → (quantity ≼ (filled ⊕ min volume (quantity ⊖ filled) ⊕ depth))
          ↔ (quantity ≼ (filled ⊕ (volume ⊕ depth)))
    taken_reach volume filled depth v d = elim (Bool-cases (quantity ⊖ filled <? volume)) [
      | inl short ↦
          let remaining = quantity ⊖ filled in
          let le_depth : (a : F) → quantity ≼ a → quantity ≼ (a ⊕ depth) = λ a h.
            le_trans x quantity a (a ⊕ depth) h (
              subst (λ t. t ≼ (a ⊕ depth)) (add-zero x a)
                (add-le-add x a a (num 0) depth (le_refl a) d)) in
          let by_volume : quantity ≼ (filled ⊕ volume) =
            subst (λ t. t ≼ (filled ⊕ volume)) (add-sub_cancel filled quantity)
              (add-le-add x filled filled remaining volume (le_refl filled)
                (le_of_lt x remaining volume short)) in
          rw short (
            λ _.
                subst (λ t. quantity ≼ t) (add_assoc filled volume depth)
                  (le_depth (filled ⊕ volume) by_volume),
            λ _. rw (add-sub_cancel filled quantity) (le_depth quantity (le_refl quantity)),
          )
      | inr enough ↦ rw (enough, add_assoc filled volume depth) (λ h. h, λ h. h)
    ]

    fill_reach :
        (levels : List (OrderBookLevel F)) (filled notional : F)
        → AreVolumes levels
        → (quantity ≼ (fill quantity levels filled notional).0)
          ↔ (quantity ≼ (filled ⊕ total_depth levels))
    unfolding fill total_depth
    fill_reach [] filled notional v = rw (add-zero x filled) (λ h. h, λ h. h)
    fill_reach (level ∷ levels) filled notional v =
        let d = total_depth_nonneg levels v.1 in
        elim (Bool-cases (quantity ⊖ filled ≤? num 0)) [
          | inl done ↦
              let full : quantity ≼ filled =
                subst (λ t. quantity ≼ t) (x.zero-add filled)
                  ((sub-le_iff x quantity (num 0) filled).0 done) in
              rw done (
                λ _.
                    le_trans x quantity filled (filled ⊕ (level.volume ⊕ total_depth levels)) full (
                      subst (λ t. t ≼ (filled ⊕ (level.volume ⊕ total_depth levels)))
                        (add-zero x filled)
                        (add-le-add x filled filled (num 0) (level.volume ⊕ total_depth levels)
                          (le_refl filled) (add-nonneg x level.volume (total_depth levels) v.0 d))),
                λ _. full,
              )
          | inr more ↦
              let taken = min level.volume (quantity ⊖ filled) in
              let rest = fill_reach levels (filled ⊕ taken) (notional ⊕ level.price ⊗ taken) v.1 in
              let step = taken_reach level.volume filled (total_depth levels) v.0 d in
              rw more (λ h. step.0 (rest.0 h), λ h. rest.1 (step.1 h))
        ]

  -- Without rounding, for a positive quantity and volumes that are not negative, `compute_vwap`
  -- returns a value if the book side holds the quantity, and raises ValueError if it does not.
  pub compute_vwap_total :
      (x : IsExact F) (levels : List (OrderBookLevel F)) (quantity : F)
      → num 0 ≺ quantity
      → AreVolumes levels
      → (quantity ≼ total_depth levels → (v : F) × (compute_vwap levels quantity ≡ ok v))
        × (¬ (quantity ≼ total_depth levels) → compute_vwap levels quantity ≡ raised value_error)
  unfolding compute_vwap
  compute_vwap_total x levels quantity pos v =
      let f = (fill quantity levels (num 0) (num 0)).0 in
      let n = (fill quantity levels (num 0) (num 0)).1 in
      let reach = fill_reach x quantity levels (num 0) (num 0) v in
      let depth = x.zero-add (total_depth levels) in
      let asked = not_le_of_lt x.ordered (num 0) quantity pos in
      (
        λ h. (
          fl.quot n quantity,
          rw (
            asked,
            not_lt_of_le x.ordered quantity f (reach.1 (rw depth h)),
            ⊘_pos x.ordered n quantity pos,
          ),
        ),
        λ h.
            let short =
              lt_of_not-le x f quantity (λ k. h (subst (λ t. quantity ≼ t) depth (reach.0 k))) in
            rw (asked, short),
      )

  -- What a successful call has found out.
  compute_vwap-eq-ok :
      (levels : List (OrderBookLevel F)) (quantity : F) {v : F}
      → compute_vwap levels quantity ≡ ok v
      → let (f, n) = fill quantity levels (num 0) (num 0) in
        ((quantity ≤? num 0) ≡ false) × ((f <? quantity) ≡ false) × (fl.quot n quantity ≡ v)
  unfolding compute_vwap
  compute_vwap-eq-ok levels quantity e = ground arith

  -- Without rounding, with volumes that are not negative and every price between two bounds, the
  -- value that `compute_vwap` returns lies between the bounds.
  pub compute_vwap_bounds :
      (x : IsExact F) (lo hi : F) (levels : List (OrderBookLevel F)) (quantity : F) {v : F}
      → AreVolumes levels
      → ArePriced lo hi levels
      → compute_vwap levels quantity ≡ ok v
      → (lo ≼ v) × (v ≼ hi)
  compute_vwap_bounds x lo hi levels quantity v p e =
      let f = (fill quantity levels (num 0) (num 0)).0 in
      let n = (fill quantity levels (num 0) (num 0)).1 in
      let (asked, full, value) = compute_vwap-eq-ok levels quantity e in
      let pos =
        lt_of_not_le x.ordered quantity (num 0) (x.le_refl quantity) (x.le_refl (num 0)) asked in
      let start : (a : F) → (a ⊗ num 0) ≡ num 0 = mul-zero x in
      let (low, high, within) =
        fill_bounds x quantity lo hi levels (num 0) (num 0) v p (rw (start lo) (x.le_refl (num 0)))
          (rw (start hi) (x.le_refl (num 0))) (le_of_lt x (num 0) quantity pos) in
      let exact : f ≡ quantity =
        x.le_antisymm f quantity within
          (le_of_not_lt x.ordered f quantity (x.le_refl f) (x.le_refl quantity) full) in
      rw (← value) (
        (x.le-quot_iff n quantity lo pos).1 (subst (λ t. (lo ⊗ t) ≼ n) exact low),
        quot-le x n quantity hi pos (subst (λ t. n ≼ (hi ⊗ t)) exact high),
      )
