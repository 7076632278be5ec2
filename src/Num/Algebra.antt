-- ===== src/Num/Algebra.antt =====
-- Laws of arithmetic without rounding that follow from those assumed in Num/Exact.antt.
use gen.Prelude.{◌≡◌, sym, ap, ◌∙◌, ◌↔◌, inl, inr}
use mathlib.Core.Path.{subst}
use gen.Num.{Float, ◌⊕◌, ◌⊖◌, ◌⊗◌, ◌≺◌, ◌≼◌, num}
use gen.Num.Exact.{IsExact}

module _ {F : Type 0} ⦃fl : Float F⦄ (x : IsExact F) where
  open x use {
    ordered, le_refl, le_antisymm, add_comm, add_assoc, zero-add, add-sub_cancel, add-neg, mul_comm,
    add-mul, add-le-add_right, mul-le-mul_right, mul-pos, le-quot_iff,
  }

  pub le_trans : (a b c : F) → a ≼ b → b ≼ c → a ≼ c
  le_trans = ordered.le_trans

  pub le_of_lt : (a b : F) → a ≺ b → a ≼ b
  le_of_lt = ordered.le_of_lt

  pub not-le_of_lt : (a b : F) → a ≺ b → ¬ (b ≼ a)
  not-le_of_lt = ordered.not-le_of_lt

  pub lt_of_not-le : (a b : F) → ¬ (b ≼ a) → a ≺ b
  lt_of_not-le a b h = elim (ordered.le_or_lt b a (le_refl b) (le_refl a)) [
    | inl le ↦ absurd (h le)
    | inr lt ↦ lt
  ]

  pub add-zero : (a : F) → a ⊕ num 0 ≡ a
  add-zero a = add_comm a (num 0) ∙ zero-add a

  pub sub-add_cancel : (a c : F) → a ⊖ c ⊕ c ≡ a
  sub-add_cancel a c = add_comm (a ⊖ c) c ∙ add-sub_cancel c a

  add-neg_cancel : (a c : F) → a ⊕ c ⊕ fl.neg c ≡ a
  add-neg_cancel a c = add_assoc a c (fl.neg c) ∙ ap (λ t. a ⊕ t) (add-neg c) ∙ add-zero a

  pub le_of_add-le-add : (a b c : F) → (a ⊕ c) ≼ (b ⊕ c) → a ≼ b
  le_of_add-le-add a b c h =
      rw (← add-neg_cancel a c, ← add-neg_cancel b c)
        (add-le-add_right (a ⊕ c) (b ⊕ c) (fl.neg c) h)

  pub eq_of_add-eq-add : (a b c : F) → a ⊕ c ≡ b ⊕ c → a ≡ b
  eq_of_add-eq-add a b c h =
      sym (add-neg_cancel a c) ∙ ap (λ t. t ⊕ fl.neg c) h ∙ add-neg_cancel b c

  pub add-le-add : (a b c d : F) → a ≼ b → c ≼ d → (a ⊕ c) ≼ (b ⊕ d)
  add-le-add a b c d h k =
      le_trans (a ⊕ c) (b ⊕ c) (b ⊕ d) (add-le-add_right a b c h)
        (rw (add_comm b c, add_comm b d) (add-le-add_right c d b k))

  pub le-sub_iff : (a b c : F) → (a ≼ (b ⊖ c)) ↔ ((a ⊕ c) ≼ b)
  le-sub_iff a b c = (
    λ h. subst (λ t. (a ⊕ c) ≼ t) (sub-add_cancel b c) (add-le-add_right a (b ⊖ c) c h),
    λ h. le_of_add-le-add a (b ⊖ c) c (subst (λ t. (a ⊕ c) ≼ t) (sym (sub-add_cancel b c)) h),
  )

  pub sub-le_iff : (a b c : F) → ((a ⊖ c) ≼ b) ↔ (a ≼ (b ⊕ c))
  sub-le_iff a b c = (
    λ h. subst (λ t. t ≼ (b ⊕ c)) (sub-add_cancel a c) (add-le-add_right (a ⊖ c) b c h),
    λ h. le_of_add-le-add (a ⊖ c) b c (subst (λ t. t ≼ (b ⊕ c)) (sym (sub-add_cancel a c)) h),
  )

  pub zero-mul : (a : F) → num 0 ⊗ a ≡ num 0
  zero-mul a = eq_of_add-eq-add (num 0 ⊗ a) (num 0) (num 0 ⊗ a) (
      sym (add-mul (num 0) (num 0) a)
      ∙ ap (λ t. t ⊗ a) (zero-add (num 0))
      ∙ sym (zero-add (num 0 ⊗ a)))

  pub mul-zero : (a : F) → a ⊗ num 0 ≡ num 0
  mul-zero a = mul_comm a (num 0) ∙ zero-mul a

  pub mul-add : (a b c : F) → a ⊗ (b ⊕ c) ≡ a ⊗ b ⊕ a ⊗ c
  mul-add a b c = mul_comm a (b ⊕ c) ∙ add-mul b c a ∙ cc (mul_comm b a, mul_comm c a)

  pub mul_left_comm : (a b c : F) → a ⊗ (b ⊗ c) ≡ b ⊗ (a ⊗ c)
  mul_left_comm a b c = sym (x.mul_assoc a b c) ∙ ap (λ t. t ⊗ c) (mul_comm a b) ∙ x.mul_assoc b a c

  pub mul-nonneg : (a b : F) → num 0 ≼ a → num 0 ≼ b → num 0 ≼ (a ⊗ b)
  mul-nonneg a b h k = subst (λ t. t ≼ (a ⊗ b)) (zero-mul b) (mul-le-mul_right (num 0) a b k h)

  pub mul-le-mul_left : (a b c : F) → num 0 ≼ c → a ≼ b → (c ⊗ a) ≼ (c ⊗ b)
  mul-le-mul_left a b c h k = rw (mul_comm c a, mul_comm c b) (mul-le-mul_right a b c h k)

  pub add-nonneg : (a b : F) → num 0 ≼ a → num 0 ≼ b → num 0 ≼ (a ⊕ b)
  add-nonneg a b h k =
      subst (λ t. t ≼ (a ⊕ b)) (zero-add (num 0)) (add-le-add (num 0) a (num 0) b h k)

  pub sub-nonneg_iff : (a b : F) → (num 0 ≼ (b ⊖ a)) ↔ (a ≼ b)
  sub-nonneg_iff a b = (
    λ h. subst (λ t. t ≼ b) (zero-add a) ((le-sub_iff (num 0) b a).0 h),
    λ h. (le-sub_iff (num 0) b a).1 (subst (λ t. t ≼ b) (sym (zero-add a)) h),
  )

  pub sub-le_self : (a b : F) → num 0 ≼ b → (a ⊖ b) ≼ a
  sub-le_self a b h =
      (sub-le_iff a a b).1
        (subst (λ t. t ≼ (a ⊕ b)) (add-zero a) (add-le-add a a (num 0) b (le_refl a) h))

  pub sub-pos : (a b : F) → a ≺ b → num 0 ≺ (b ⊖ a)
  sub-pos a b h =
      lt_of_not-le (num 0) (b ⊖ a)
        (λ k. not-le_of_lt a b h (subst (λ t. b ≼ t) (zero-add a) ((sub-le_iff b (num 0) a).0 k)))

  pub mul-lt-mul_right : (a b c : F) → num 0 ≺ c → a ≺ b → (a ⊗ c) ≺ (b ⊗ c)
  mul-lt-mul_right a b c h k = lt_of_not-le (a ⊗ c) (b ⊗ c) (λ le.
      not-le_of_lt (num 0) ((b ⊖ a) ⊗ c) (mul-pos (b ⊖ a) c (sub-pos a b k) h) (
        le_of_add-le-add ((b ⊖ a) ⊗ c) (num 0) (a ⊗ c)
          (rw (← add-mul (b ⊖ a) a c, sub-add_cancel b a, zero-add (a ⊗ c)) le)))

  pub le_of_mul-le-mul : (a b c : F) → num 0 ≺ c → (a ⊗ c) ≼ (b ⊗ c) → a ≼ b
  le_of_mul-le-mul a b c h k = elim (ordered.le_or_lt a b (le_refl a) (le_refl b)) [
    | inl le ↦ le
    | inr lt ↦ absurd (not-le_of_lt (b ⊗ c) (a ⊗ c) (mul-lt-mul_right b a c h lt) k)
  ]

  pub quot-mul-le : (a c : F) → num 0 ≺ c → (fl.quot a c ⊗ c) ≼ a
  quot-mul-le a c h = (le-quot_iff a c (fl.quot a c) h).0 (le_refl (fl.quot a c))

  pub quot-le-quot : (a b c : F) → num 0 ≺ c → a ≼ b → fl.quot a c ≼ fl.quot b c
  quot-le-quot a b c h k =
      (le-quot_iff b c (fl.quot a c) h).1 (le_trans (fl.quot a c ⊗ c) a b (quot-mul-le a c h) k)

  pub quot-nonneg : (a c : F) → num 0 ≼ a → num 0 ≺ c → num 0 ≼ fl.quot a c
  quot-nonneg a c h k = (le-quot_iff a c (num 0) k).1 (subst (λ t. t ≼ a) (sym (zero-mul c)) h)

  -- A quotient is at most any bound whose product with the divisor bounds the dividend.
  pub quot-le : (a c b : F) → num 0 ≺ c → a ≼ (b ⊗ c) → fl.quot a c ≼ b
  quot-le a c b h k =
      le_of_mul-le-mul (fl.quot a c) b c h
        (le_trans (fl.quot a c ⊗ c) a (b ⊗ c) (quot-mul-le a c h) k)
