-- ===== src/Num.antt =====
-- Python's `float` is not code of this repository: every definition takes the type and the
-- operations it uses as an instance of `Float`. Division is `quot` under Python's test for a zero
-- divisor, and `min`, `max` and `sum` are written out from the comparisons and the addition.
pub mod Order
pub mod Exact
pub mod Algebra
pub mod Int
use gen.Prelude.{ℕ, Bool, true, false, List, foldl, ◌≡◌, if◌then◌else◌}
use gen.Errors.{Result, ok, raised, zero_division_error}

pub record Float (F : Type 0) : Type 0 where
  -- `decimal n k` is the literal n / 10 ^ k
  pub decimal : ℕ → ℕ → F
  pub add : F → F → F
  pub sub : F → F → F
  pub mul : F → F → F
  -- the quotient, asked for only at a divisor that is not equal to zero
  pub quot : F → F → F
  pub neg : F → F
  -- `x ** 0.5`
  pub sqrt : F → F
  pub lt : F → F → Bool
  pub le : F → F → Bool
  pub eq : F → F → Bool

module _ {F : Type 0} ⦃fl : Float F⦄ where
  infixl 65 ◌⊕◌ ◌⊖◌
  infixl 70 ◌⊗◌ ◌⊘◌
  infix 50 ◌<?◌ ◌≤?◌ ◌=?◌
  infix 4 ◌≺◌ ◌≼◌
  abbrev pub ◌⊕◌ : F → F → F
  a ⊕ b = fl.add a b

  abbrev pub ◌⊖◌ : F → F → F
  a ⊖ b = fl.sub a b

  abbrev pub ◌⊗◌ : F → F → F
  a ⊗ b = fl.mul a b

  abbrev pub ◌<?◌ : F → F → Bool
  a <? b = fl.lt a b

  abbrev pub ◌≤?◌ : F → F → Bool
  a ≤? b = fl.le a b

  abbrev pub ◌=?◌ : F → F → Bool
  a =? b = fl.eq a b

  -- The two comparisons as statements.
  abbrev pub ◌≺◌ : F → F → Type 0
  a ≺ b = fl.lt a b ≡ true

  abbrev pub ◌≼◌ : F → F → Type 0
  a ≼ b = fl.le a b ≡ true

  abbrev pub num : ℕ → F
  num n = fl.decimal n 0

  -- `a / b` raises ZeroDivisionError for `b == 0`.
  abbrev pub ◌⊘◌ : F → F → Result F
  a ⊘ b = if fl.eq b (fl.decimal 0 0) then raised zero_division_error else ok (fl.quot a b)

  -- `min(a, b)` and `max(a, b)` return the first argument unless the second one is beyond it.
  abbrev pub min : F → F → F
  min a b = if fl.lt b a then b else a

  abbrev pub max : F → F → F
  max a b = if fl.lt a b then b else a

  -- `sum(xs)` starts at zero and adds from the left.
  abbrev pub sum : List F → F
  sum = foldl fl.add (fl.decimal 0 0)
