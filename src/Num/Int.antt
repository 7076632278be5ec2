-- ===== src/Num/Int.antt =====
-- Integers over the native numbers, under the library's names. They meet the laws assumed of
-- floats, with the quotient rounded down, so the examples compute with them.
use gen.Prelude.{
  ℕ, zero, suc, ◌+◌, ◌-◌, ◌*◌, ◌/◌, ◌^◌, ◌≤◌, ◌≡◌, Bool, true, arith, ltb, leb, ◌==◌, if◌then◌else◌,
  ◌↔◌, ap, ◌<◌, refl,
}
use native.Mathlib.Nat.{mul-le-mul, le_refl, le-div_iff_mul-le, div-lt_iff_lt-mul}
use gen.Num.{Float}
use gen.Num.Order.{IsOrdered}
use gen.Num.Exact.{IsExact}

-- `negsuc n` is -(n + 1).
pub data ℤ : Type 0 where
  pos : ℕ → ℤ
  negsuc : ℕ → ℤ

abbrev pub pos_part : ℤ → ℕ
pos_part (pos n) = n
pos_part (negsuc n) = 0

abbrev pub neg_part : ℤ → ℕ
neg_part (pos n) = 0
neg_part (negsuc n) = suc n

abbrev pub sub_ℕ : ℕ → ℕ → ℤ
sub_ℕ a b = if leb b a then pos (a - b) else negsuc (b - a - 1)

infixl 65 ◌+ℤ◌ ◌-ℤ◌
infixl 70 ◌*ℤ◌ ◌/ℤ◌
unfoldable pub ◌+ℤ◌ : ℤ → ℤ → ℤ
a +ℤ b = sub_ℕ (pos_part a + pos_part b) (neg_part a + neg_part b)

unfoldable pub ◌-ℤ◌ : ℤ → ℤ → ℤ
a -ℤ b = sub_ℕ (pos_part a + neg_part b) (neg_part a + pos_part b)

unfoldable pub ◌*ℤ◌ : ℤ → ℤ → ℤ
a *ℤ b =
    sub_ℕ (pos_part a * pos_part b + neg_part a * neg_part b)
      (pos_part a * neg_part b + neg_part a * pos_part b)

-- Rounded down; zero where the divisor is not positive.
unfoldable pub ◌/ℤ◌ : ℤ → ℤ → ℤ
pos a /ℤ pos c = pos (a / c)
negsuc a /ℤ pos c = negsuc (a / c)
_ /ℤ negsuc c = pos 0

unfoldable pub neg_ℤ : ℤ → ℤ
neg_ℤ a = sub_ℕ (neg_part a) (pos_part a)

abbrev pub ltb_ℤ : ℤ → ℤ → Bool
ltb_ℤ a b = ltb (pos_part a + neg_part b) (pos_part b + neg_part a)

abbrev pub leb_ℤ : ℤ → ℤ → Bool
leb_ℤ a b = leb (pos_part a + neg_part b) (pos_part b + neg_part a)

abbrev pub eqb_ℤ : ℤ → ℤ → Bool
eqb_ℤ a b = (pos_part a + neg_part b) == (pos_part b + neg_part a)

-- Literals and square roots are rounded down.
sqrt_below : ℕ → ℕ → ℕ
sqrt_below n zero = 0
sqrt_below n (suc k) = if leb (suc k * suc k) n then suc k else sqrt_below n k

unfoldable pub sqrt_ℤ : ℤ → ℤ
unfolding sqrt_below
sqrt_ℤ a = pos (sqrt_below (pos_part a) (pos_part a))

instance abbrev pub int_float : Float ℤ
int_float = record {
  decimal = λ n k. pos (n / 10 ^ k);
  add = ◌+ℤ◌;
  sub = ◌-ℤ◌;
  mul = ◌*ℤ◌;
  quot = ◌/ℤ◌;
  neg = neg_ℤ;
  sqrt = sqrt_ℤ;
  lt = ltb_ℤ;
  le = leb_ℤ;
  eq = eqb_ℤ;
}

pub ℤ-IsOrdered : IsOrdered ℤ
ℤ-IsOrdered = record {
  le_of_lt = λ a b. ground arith;
  not-le_of_lt = λ a b. ground arith;
  le_trans = λ a b c. ground arith;
  le_num = λ a b. ground arith;
  zero_num = refl;
  le_of_eq = λ a b. ground arith;
  le_or_lt = λ a b. ground arith;
}

pub +ℤ_parts :
    (a b : ℤ)
    → pos_part (a +ℤ b) + neg_part a + neg_part b ≡ neg_part (a +ℤ b) + pos_part a + pos_part b
unfolding ◌+ℤ◌
+ℤ_parts a b = ground arith

pub -ℤ_parts :
    (a b : ℤ)
    → pos_part (a -ℤ b) + neg_part a + pos_part b ≡ neg_part (a -ℤ b) + pos_part a + neg_part b
unfolding ◌-ℤ◌
-ℤ_parts a b = ground arith

pub neg_ℤ_parts : (a : ℤ) → pos_part (neg_ℤ a) + pos_part a ≡ neg_part (neg_ℤ a) + neg_part a
unfolding neg_ℤ
neg_ℤ_parts a = ground arith

pub *ℤ_parts :
    (a b : ℤ)
    → pos_part (a *ℤ b) + (pos_part a * neg_part b + neg_part a * pos_part b)
      ≡ neg_part (a *ℤ b) + (pos_part a * pos_part b + neg_part a * neg_part b)
unfolding ◌*ℤ◌
*ℤ_parts a b = ground arith

pub eq_of_parts : (a b : ℤ) → pos_part a + neg_part b ≡ pos_part b + neg_part a → a ≡ b
eq_of_parts a b h = ground arith

le_of_parts : (a b : ℤ) → pos_part a + neg_part b ≤ pos_part b + neg_part a → leb_ℤ a b ≡ true
le_of_parts a b h = ground arith

parts_of_le : (a b : ℤ) → leb_ℤ a b ≡ true → pos_part a + neg_part b ≤ pos_part b + neg_part a
parts_of_le a b h = ground arith

parts_of_lt : (a b : ℤ) → ltb_ℤ a b ≡ true → pos_part a + neg_part b < pos_part b + neg_part a
parts_of_lt a b h = ground arith

lt_of_parts : (a b : ℤ) → pos_part a + neg_part b < pos_part b + neg_part a → ltb_ℤ a b ≡ true
lt_of_parts a b h = ground arith

pub ruleset int_laws = (arith, +ℤ_parts, -ℤ_parts, neg_ℤ_parts, *ℤ_parts, eq_of_parts)

+ℤ_assoc : (a b c : ℤ) → a +ℤ b +ℤ c ≡ a +ℤ (b +ℤ c)
+ℤ_assoc a b c = omega int_laws

*ℤ_comm : (a b : ℤ) → a *ℤ b ≡ b *ℤ a
*ℤ_comm a b = omega int_laws

*ℤ_assoc : (a b c : ℤ) → a *ℤ b *ℤ c ≡ a *ℤ (b *ℤ c)
*ℤ_assoc a b c = omega (
  int_laws,
  ap (λ (t : ℕ). t * pos_part c) (*ℤ_parts a b),
  ap (λ (t : ℕ). t * neg_part c) (*ℤ_parts a b),
  ap (λ (t : ℕ). t * pos_part a) (*ℤ_parts b c),
  ap (λ (t : ℕ). t * neg_part a) (*ℤ_parts b c),
)

add-mul_ℤ : (a b c : ℤ) → (a +ℤ b) *ℤ c ≡ a *ℤ c +ℤ b *ℤ c
add-mul_ℤ a b c = omega (
  int_laws,
  ap (λ (t : ℕ). t * pos_part c) (+ℤ_parts a b),
  ap (λ (t : ℕ). t * neg_part c) (+ℤ_parts a b),
)

mul-le-mul_ℤ :
    (a b c : ℤ) → leb_ℤ (pos 0) c ≡ true → leb_ℤ a b ≡ true → leb_ℤ (a *ℤ c) (b *ℤ c) ≡ true
mul-le-mul_ℤ a b (pos c) h k =
    le_of_parts (a *ℤ pos c) (b *ℤ pos c)
      (omega (int_laws, mul-le-mul (parts_of_le a b k) (le_refl c)))
mul-le-mul_ℤ a b (negsuc c) h k = ground arith

mul-pos_ℤ :
    (a b : ℤ) → ltb_ℤ (pos 0) a ≡ true → ltb_ℤ (pos 0) b ≡ true → ltb_ℤ (pos 0) (a *ℤ b) ≡ true
mul-pos_ℤ (pos (suc a)) (pos (suc b)) h k =
    lt_of_parts (pos 0) (pos (suc a) *ℤ pos (suc b)) (omega int_laws)
mul-pos_ℤ (pos zero) b h k = ground arith
mul-pos_ℤ (negsuc a) b h k = ground arith
mul-pos_ℤ a (pos zero) h k = ground arith
mul-pos_ℤ a (negsuc b) h k = ground arith

-- A dividend below zero is rounded away from it: `negsuc a` by `suc k` is `negsuc (a / suc k)`.
negsuc_quot_iff : (a x k : ℕ) → (a / suc k ≤ x) ↔ (suc a ≤ suc x * suc k)
negsuc_quot_iff a x k =
    let below = div-lt_iff_lt-mul {k = suc k} {x = a} {y = suc x} (omega arith) in
    (λ h. below.0 (omega arith), λ h. let lt = below.1 h in omega arith)

le-quot_pos :
    (a x : ℤ) (k : ℕ) → (leb_ℤ x (a /ℤ pos (suc k)) ≡ true) ↔ (leb_ℤ (x *ℤ pos (suc k)) a ≡ true)
unfolding ◌/ℤ◌
le-quot_pos (pos a) (pos x) k =
    let iff = le-div_iff_mul-le {k = suc k} {x = x} {y = a} (omega arith) in
    let parts = *ℤ_parts (pos x) (pos (suc k)) in
    (
      λ h.
          let prod = iff.0 (let le = parts_of_le (pos x) (pos (a / suc k)) h in omega arith) in
          le_of_parts (pos x *ℤ pos (suc k)) (pos a) (omega arith),
      λ h.
          let prod = parts_of_le (pos x *ℤ pos (suc k)) (pos a) h in
          le_of_parts (pos x) (pos (a / suc k)) (let q = iff.1 (omega arith) in omega arith),
    )
le-quot_pos (pos a) (negsuc x) k =
    let parts = *ℤ_parts (negsuc x) (pos (suc k)) in
    (
      λ h. le_of_parts (negsuc x *ℤ pos (suc k)) (pos a) (omega arith),
      λ h. le_of_parts (negsuc x) (pos (a / suc k)) (omega arith),
    )
le-quot_pos (negsuc a) (pos x) k =
    let parts = *ℤ_parts (pos x) (pos (suc k)) in
    (
      λ h. absurd (let le = parts_of_le (pos x) (negsuc (a / suc k)) h in omega arith),
      λ h. absurd (let le = parts_of_le (pos x *ℤ pos (suc k)) (negsuc a) h in omega arith),
    )
le-quot_pos (negsuc a) (negsuc x) k =
    let iff = negsuc_quot_iff a x k in
    let parts = *ℤ_parts (negsuc x) (pos (suc k)) in
    (
      λ h.
          let prod =
            iff.0 (let le = parts_of_le (negsuc x) (negsuc (a / suc k)) h in omega arith) in
          le_of_parts (negsuc x *ℤ pos (suc k)) (negsuc a) (omega arith),
      λ h.
          let prod = parts_of_le (negsuc x *ℤ pos (suc k)) (negsuc a) h in
          le_of_parts (negsuc x) (negsuc (a / suc k)) (let q = iff.1 (omega arith) in omega arith),
    )

le-quot_ℤ :
    (a c x : ℤ) → ltb_ℤ (pos 0) c ≡ true → (leb_ℤ x (a /ℤ c) ≡ true) ↔ (leb_ℤ (x *ℤ c) a ≡ true)
le-quot_ℤ a (pos zero) x h = absurd (let lt = parts_of_lt (pos 0) (pos 0) h in omega arith)
le-quot_ℤ a (pos (suc k)) x h = le-quot_pos a x k
le-quot_ℤ a (negsuc k) x h = absurd (let lt = parts_of_lt (pos 0) (negsuc k) h in omega arith)

pub ℤ-IsExact : IsExact ℤ
ℤ-IsExact = record {
  ordered = ℤ-IsOrdered;
  le_refl = λ a. ground arith;
  le_antisymm = λ a b. ground arith;
  eq_iff = λ a b. ground arith;
  add_comm = λ a b. omega int_laws;
  add_assoc = +ℤ_assoc;
  zero-add = λ a. omega int_laws;
  add-sub_cancel = λ a b. omega int_laws;
  add-neg = λ a. omega int_laws;
  mul_comm = *ℤ_comm;
  mul_assoc = *ℤ_assoc;
  one-mul = λ a. omega int_laws;
  add-mul = add-mul_ℤ;
  add-le-add_right = λ a b c h. le_of_parts (a +ℤ c) (b +ℤ c) (omega (int_laws, parts_of_le a b h));
  mul-le-mul_right = λ a b c. mul-le-mul_ℤ a b c;
  mul-pos = mul-pos_ℤ;
  le-quot_iff = le-quot_ℤ;
  zero-lt-one = refl;
}

-- Named on an `unfolding` line, it opens all of the arithmetic.
unfoldable pub int_arith : Float ℤ
unfolding ◌+ℤ◌ ◌-ℤ◌ ◌*ℤ◌ ◌/ℤ◌ neg_ℤ sqrt_ℤ
int_arith = int_float
