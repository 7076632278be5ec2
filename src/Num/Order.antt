-- ===== src/Num/Order.antt =====
-- The order of floats: what IEEE 754 promises of `<` and `<=`. NaN is the value that is not `<=`
-- itself, and the order is total only away from it.
use gen.Prelude.{◌≡◌, true, false, ◌⊎◌, inl, inr, arith, Bool-cases}
use gen.Num.{Float, ◌≺◌, ◌≼◌, ◌<?◌, ◌≤?◌, ◌=?◌, ◌⊘◌, num, min, max}
use gen.Errors.{ok}

pub record IsOrdered (F : Type 0) ⦃fl : Float F⦄ : Type 0 where
  pub le_of_lt : (a b : F) → a ≺ b → a ≼ b
  pub not-le_of_lt : (a b : F) → a ≺ b → ¬ (b ≼ a)
  pub le_trans : (a b c : F) → a ≼ b → b ≼ c → a ≼ c
  pub le_num : (a b : F) → a ≼ b → (a ≼ a) × (b ≼ b)
  pub zero_num : fl.le (fl.decimal 0 0) (fl.decimal 0 0) ≡ true
  pub le_of_eq : (a b : F) → (a =? b) ≡ true → a ≼ b
  pub le_or_lt : (a b : F) → a ≼ a → b ≼ b → (a ≼ b) ⊎ (b ≺ a)

module _ {F : Type 0} ⦃fl : Float F⦄ (laws : IsOrdered F) where
  open laws use {le_of_lt, not-le_of_lt, le_trans, le_num, le_or_lt}

  pub lt_num : (a b : F) → a ≺ b → (a ≼ a) × (b ≼ b)
  lt_num a b h = le_num a b (le_of_lt a b h)

  -- Of two numbers, `a < b` fails exactly when `b <= a` holds.
  pub le_of_not_lt : (a b : F) → a ≼ a → b ≼ b → (a <? b) ≡ false → b ≼ a
  le_of_not_lt a b na nb h = ground (arith, le_or_lt b a nb na)

  pub lt_of_not_le : (a b : F) → a ≼ a → b ≼ b → (a ≤? b) ≡ false → b ≺ a
  lt_of_not_le a b na nb h = ground (arith, le_or_lt a b na nb)

  pub lt-le_trans : (a b c : F) → a ≺ b → b ≼ c → a ≺ c
  lt-le_trans a b c h k = elim (le_or_lt c a (le_num b c k).1 (lt_num a b h).0) [
    | inl ca ↦ absurd (not-le_of_lt a b h (le_trans b c a k ca))
    | inr ac ↦ ac
  ]

  pub le-lt_trans : (a b c : F) → a ≼ b → b ≺ c → a ≺ c
  le-lt_trans a b c h k = elim (le_or_lt c a (lt_num b c k).1 (le_num a b h).0) [
    | inl ca ↦ absurd (not-le_of_lt b c k (le_trans c a b ca h))
    | inr ac ↦ ac
  ]

  pub not_lt_of_le : (a b : F) → a ≼ b → (b <? a) ≡ false
  not_lt_of_le a b h = elim (Bool-cases (b <? a)) [
    | inl lt ↦ absurd (not-le_of_lt b a lt h)
    | inr no_lt ↦ no_lt
  ]

  pub not_le_of_lt : (a b : F) → a ≺ b → (b ≤? a) ≡ false
  not_le_of_lt a b h = elim (Bool-cases (b ≤? a)) [
    | inl le ↦ absurd (not-le_of_lt a b h le)
    | inr no_le ↦ no_le
  ]

  -- The smaller of two numbers lies below both and is one of them.
  pub min-le : (a b : F) → a ≼ a → b ≼ b → (min a b ≼ a) × (min a b ≼ b)
  min-le a b na nb = ground (arith, le_of_lt b a, le_of_not_lt b a nb na)

  pub le-min : (a b c : F) → c ≼ a → c ≼ b → c ≼ min a b
  le-min a b c h k = ground arith

  pub le-max : (a b : F) → a ≼ a → b ≼ b → (a ≼ max a b) × (b ≼ max a b)
  le-max a b na nb = ground (arith, le_of_lt a b, le_of_not_lt a b na nb)

  pub max-le : (a b c : F) → a ≼ c → b ≼ c → max a b ≼ c
  max-le a b c h k = ground arith

  eq_pos : (c : F) → num 0 ≺ c → (c =? num 0) ≡ false
  eq_pos c h = elim (Bool-cases (c =? num 0)) [
    | inl same ↦ absurd (not-le_of_lt (num 0) c h (laws.le_of_eq c (num 0) same))
    | inr differs ↦ differs
  ]

  -- Division by a positive number does not raise.
  pub ⊘_pos : (a c : F) → num 0 ≺ c → (a ⊘ c) ≡ ok (fl.quot a c)
  ⊘_pos a c h = rw (eq_pos c h)
