-- ===== src/Execution/Alpha/Cycle.antt =====
-- What `compute_triangular_net_alpha` returns and when it raises.
use mathlib.Core.Path.{subst}
use gen.Prelude.{false, ◌≡◌, refl, ◌⊎◌, arith}
use gen.Errors.{ok, raised, value_error}
use gen.Num.{Float, ◌⊖◌, ◌⊗◌, ◌≤?◌, ◌≺◌, ◌≼◌, num}
use gen.Num.Order.{IsOrdered, ⊘_pos, lt_of_not_le, not_le_of_lt}
use gen.Num.Exact.{IsExact}
use gen.Num.Algebra.{
  le_trans, le_of_lt, sub-nonneg_iff, zero-mul, mul_left_comm, mul-nonneg, quot-mul-le,
  le_of_mul-le-mul,
}
use gen.Execution.Alpha.{TriangularAlpha, compute_triangular_net_alpha}

module _ {F : Type 0} ⦃fl : Float F⦄ where
  -- The amounts that the three legs of a cycle pass on, each less one fee.
  pub record Legs (notional bridge_quote target_bridge target_quote tau : F) (a : TriangularAlpha F)
      : Type 0 where
    pub bridge : a.bridge_qty ≡ fl.quot notional bridge_quote ⊗ (num 1 ⊖ tau)
    pub target : a.target_qty ≡ fl.quot a.bridge_qty target_bridge ⊗ (num 1 ⊖ tau)
    pub net :
        a.net_alpha ≡ fl.quot (a.target_qty ⊗ target_quote ⊗ (num 1 ⊖ tau) ⊖ notional) notional

  -- For numbers, `compute_triangular_net_alpha` returns the amounts of the three legs if the
  -- notional and the three prices are positive, and raises ValueError if one of them is not.
  pub triangular_total :
      (laws : IsOrdered F) (notional bridge_quote target_bridge target_quote tau : F)
      → (num 0 ≺ notional
          → num 0 ≺ bridge_quote
          → num 0 ≺ target_bridge
          → num 0 ≺ target_quote
          → (a : TriangularAlpha F) × (compute_triangular_net_alpha notional bridge_quote
                target_bridge target_quote tau
              ≡ ok a)
            × Legs notional bridge_quote target_bridge target_quote tau a)
        × (((notional ≼ num 0)
              ⊎ (bridge_quote ≼ num 0)
              ⊎ (target_bridge ≼ num 0)
              ⊎ (target_quote ≼ num 0))
            → compute_triangular_net_alpha notional bridge_quote target_bridge target_quote tau
              ≡ raised value_error)
  unfolding compute_triangular_net_alpha
  triangular_total laws notional bridge_quote target_bridge target_quote tau =
      let bridge_qty = fl.quot notional bridge_quote ⊗ (num 1 ⊖ tau) in
      let target_qty = fl.quot bridge_qty target_bridge ⊗ (num 1 ⊖ tau) in
      let received = target_qty ⊗ target_quote ⊗ (num 1 ⊖ tau) in
      (
        λ pn pb pt pq. (
          record {
            net_alpha = fl.quot (received ⊖ notional) notional;
            bridge_qty = bridge_qty;
            target_qty = target_qty;
          },
          rw (
            not_le_of_lt laws (num 0) notional pn,
            not_le_of_lt laws (num 0) bridge_quote pb,
            not_le_of_lt laws (num 0) target_bridge pt,
            not_le_of_lt laws (num 0) target_quote pq,
            ⊘_pos laws notional bridge_quote pb,
            ⊘_pos laws bridge_qty target_bridge pt,
            ⊘_pos laws (received ⊖ notional) notional pn,
          ),
          record { bridge = refl; target = refl; net = refl },
        ),
        λ h. ground arith,
      )

  module _ (x : IsExact F) (n vb vt vq k : F) where
    open x use {mul_comm, mul_assoc}

    -- The notional that comes back, times the two buying prices, is at most the notional that went
    -- in, times the selling price and three fees.
    cycle_bound :
        num 0 ≺ vb
        → num 0 ≺ vt
        → num 0 ≼ vq
        → num 0 ≼ k
        → let bridge = fl.quot n vb ⊗ k in
          let target = fl.quot bridge vt ⊗ k in
          (target ⊗ vq ⊗ k ⊗ (vb ⊗ vt)) ≼ (n ⊗ (vq ⊗ k ⊗ k ⊗ k))
    cycle_bound pb pt pq pk =
        let q1 = fl.quot n vb in
        let bridge = q1 ⊗ k in
        let q2 = fl.quot bridge vt in
        let fees = vq ⊗ k ⊗ k in
        let nonneg : num 0 ≼ fees = mul-nonneg x (vq ⊗ k) k (mul-nonneg x vq k pq pk) pk in
        let nonneg_vb : num 0 ≼ (fees ⊗ vb) =
          mul-nonneg x fees vb nonneg (le_of_lt x (num 0) vb pb) in
        let first : ((q2 ⊗ vt) ⊗ (fees ⊗ vb)) ≼ (bridge ⊗ (fees ⊗ vb)) =
          x.mul-le-mul_right (q2 ⊗ vt) bridge (fees ⊗ vb) nonneg_vb (quot-mul-le x bridge vt pt) in
        let second : ((q1 ⊗ vb) ⊗ (fees ⊗ k)) ≼ (n ⊗ (fees ⊗ k)) =
          x.mul-le-mul_right (q1 ⊗ vb) n (fees ⊗ k) (mul-nonneg x fees k nonneg pk)
            (quot-mul-le x n vb pb) in
        let middle : bridge ⊗ (fees ⊗ vb) ≡ (q1 ⊗ vb) ⊗ (fees ⊗ k) =
          simp (mul_comm, mul_assoc, mul_left_comm x) in
        let left : q2 ⊗ k ⊗ vq ⊗ k ⊗ (vb ⊗ vt) ≡ (q2 ⊗ vt) ⊗ (fees ⊗ vb) =
          simp (mul_comm, mul_assoc, mul_left_comm x) in
        rw left (
          le_trans x ((q2 ⊗ vt) ⊗ (fees ⊗ vb)) (bridge ⊗ (fees ⊗ vb)) (n ⊗ (fees ⊗ k)) first
            (rw middle second))

  -- What a successful call has found out.
  triangular-eq-ok :
      (n vb vt vq tau : F) {a : TriangularAlpha F}
      → compute_triangular_net_alpha n vb vt vq tau ≡ ok a
      → ((n ≤? num 0) ≡ false)
        × ((vb ≤? num 0) ≡ false)
        × ((vt ≤? num 0) ≡ false)
        × ((vq ≤? num 0) ≡ false)
        × Legs n vb vt vq tau a
  unfolding compute_triangular_net_alpha
  triangular-eq-ok n vb vt vq tau e = ground arith

  -- Without rounding: a cycle whose net alpha is not negative needs a mispricing of at least the
  -- three fees, `vb * vt <= vq * (1 - tau)^3`, for a fee of at most the whole.
  pub triangular_needs_mispricing :
      (x : IsExact F) (n vb vt vq tau : F) {a : TriangularAlpha F}
      → num 0 ≼ (num 1 ⊖ tau)
      → compute_triangular_net_alpha n vb vt vq tau ≡ ok a
      → num 0 ≼ a.net_alpha
      → let k = num 1 ⊖ tau in (vb ⊗ vt) ≼ (vq ⊗ k ⊗ k ⊗ k)
  triangular_needs_mispricing x n vb vt vq tau {a} pk e h =
      let k = num 1 ⊖ tau in
      let (no_n, no_vb, no_vt, no_vq, legs) = triangular-eq-ok n vb vt vq tau e in
      let pos : (c : F) → (c ≤? num 0) ≡ false → num 0 ≺ c =
        λ c. lt_of_not_le x.ordered c (num 0) (x.le_refl c) x.ordered.zero_num in
      let back = a.target_qty ⊗ vq ⊗ k in
      let returned : n ≼ back = (sub-nonneg_iff x n back).0 (
        subst (λ t. t ≼ (back ⊖ n)) (zero-mul x n)
          ((x.le-quot_iff (back ⊖ n) n (num 0) (pos n no_n)).0
            (subst (λ t. num 0 ≼ t) legs.net h))) in
      let bound : (back ⊗ (vb ⊗ vt)) ≼ (n ⊗ (vq ⊗ k ⊗ k ⊗ k)) =
        rw (legs.target, legs.bridge)
          (cycle_bound x n vb vt vq k (pos vb no_vb) (pos vt no_vt)
            (le_of_lt x (num 0) vq (pos vq no_vq)) pk) in
      let scaled : (n ⊗ (vb ⊗ vt)) ≼ (back ⊗ (vb ⊗ vt)) =
        x.mul-le-mul_right n back (vb ⊗ vt)
          (le_of_lt x (num 0) (vb ⊗ vt) (x.mul-pos vb vt (pos vb no_vb) (pos vt no_vt))) returned in
      le_of_mul-le-mul x (vb ⊗ vt) (vq ⊗ k ⊗ k ⊗ k) n (pos n no_n) (
        rw (x.mul_comm (vb ⊗ vt) n, x.mul_comm (vq ⊗ k ⊗ k ⊗ k) n)
          (le_trans x (n ⊗ (vb ⊗ vt)) (back ⊗ (vb ⊗ vt)) (n ⊗ (vq ⊗ k ⊗ k ⊗ k)) scaled bound))
