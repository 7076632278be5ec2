-- ===== src/Num/Exact.antt =====
-- Arithmetic without rounding, overflow or NaN: the laws of an ordered ring, with a quotient that
-- is characterised by the order. A theorem that assumes them is about the formulas of the program
-- and not about the last digit of its floats.
use gen.Prelude.{true, ◌≡◌, ◌↔◌}
use gen.Num.{Float, ◌⊕◌, ◌⊖◌, ◌⊗◌, ◌=?◌, ◌≺◌, ◌≼◌, num}
use gen.Num.Order.{IsOrdered}

pub record IsExact (F : Type 0) ⦃fl : Float F⦄ : Type 0 where
  pub ordered : IsOrdered F
  pub le_refl : (a : F) → a ≼ a
  pub le_antisymm : (a b : F) → a ≼ b → b ≼ a → a ≡ b
  pub eq_iff : (a b : F) → ((a =? b) ≡ true) ↔ (a ≡ b)
  pub add_comm : (a b : F) → a ⊕ b ≡ b ⊕ a
  pub add_assoc : (a b c : F) → a ⊕ b ⊕ c ≡ a ⊕ (b ⊕ c)
  pub zero-add : (a : F) → num 0 ⊕ a ≡ a
  pub add-sub_cancel : (a b : F) → a ⊕ (b ⊖ a) ≡ b
  pub add-neg : (a : F) → a ⊕ fl.neg a ≡ num 0
  pub mul_comm : (a b : F) → a ⊗ b ≡ b ⊗ a
  pub mul_assoc : (a b c : F) → a ⊗ b ⊗ c ≡ a ⊗ (b ⊗ c)
  pub one-mul : (a : F) → num 1 ⊗ a ≡ a
  pub add-mul : (a b c : F) → (a ⊕ b) ⊗ c ≡ a ⊗ c ⊕ b ⊗ c
  pub add-le-add_right : (a b c : F) → a ≼ b → (a ⊕ c) ≼ (b ⊕ c)
  pub mul-le-mul_right : (a b c : F) → num 0 ≼ c → a ≼ b → (a ⊗ c) ≼ (b ⊗ c)
  pub mul-pos : (a b : F) → num 0 ≺ a → num 0 ≺ b → num 0 ≺ (a ⊗ b)
  pub le-quot_iff : (a c x : F) → num 0 ≺ c → (x ≼ fl.quot a c) ↔ ((x ⊗ c) ≼ a)
  pub zero-lt-one : fl.decimal 0 0 ≺ fl.decimal 1 0
