-- ===== src/Api/Dashboard/Signals.antt =====
-- Which signals the dashboard shows, and in which order.
use gen.Prelude.{
  ℕ, zero, suc, ◌-◌, ◌≤◌, ◌<◌, ◌≡◌, refl, sym, ap, ◌∙◌, ◌⊎◌, inl, inr, List, [], ◌∷◌, ◌++◌, reverse,
  length, take, drop, length-append, length-drop, arith,
}
use mathlib.Core.List.{reverse-cons, reverse-append}
use gen.Num.Int.{pos, negsuc}
use gen.RuntimeState.{RuntimeState}
use gen.Api.Dashboard.{last_items, get_signals}

le_or_lt : (m n : ℕ) → (m ≤ n) ⊎ (n < m)
le_or_lt zero n = inl (omega arith)
le_or_lt (suc m) zero = inr (omega arith)
le_or_lt (suc m) (suc n) = elim (le_or_lt m n) [
  | inl le ↦ inl (omega (arith, le))
  | inr lt ↦ inr (omega (arith, lt))
]

module _ {A : Type 0} where
  take-drop : (n : ℕ) (xs : List A) → take n xs ++ drop n xs ≡ xs
  take-drop zero xs = refl
  take-drop (suc n) [] = refl
  take-drop (suc n) (x ∷ xs) = ap (λ t. x ∷ t) (take-drop n xs)

  length-reverse : (xs : List A) → length (reverse xs) ≡ length xs
  length-reverse [] = refl
  length-reverse (x ∷ xs) =
      rw (reverse-cons x xs) (omega (arith, length-append (reverse xs) (x ∷ []), length-reverse xs))

  -- A list of the length asked for, or a whole list that is shorter, is what is taken.
  take_exact :
      (n : ℕ) (ys zs : List A)
      → (length ys ≡ n) ⊎ ((length ys ≤ n) × (zs ≡ []))
      → take n (ys ++ zs) ≡ ys
  take_exact zero [] zs h = refl
  take_exact zero (y ∷ ys) zs (inl e) = absurd (omega (arith, e))
  take_exact zero (y ∷ ys) zs (inr (le, e)) = absurd (omega (arith, le))
  take_exact (suc n) [] zs (inl e) = absurd (omega (arith, e))
  take_exact (suc n) [] zs (inr (le, e)) = rw e refl
  take_exact (suc n) (y ∷ ys) zs (inl e) =
      ap (λ t. y ∷ t) (take_exact n ys zs (inl (omega (arith, e))))
  take_exact (suc n) (y ∷ ys) zs (inr (le, e)) =
      ap (λ t. y ∷ t) (take_exact n ys zs (inr (omega (arith, le), e)))

  covers :
      (n : ℕ) (xs : List A)
      → let m = length xs - n in
        (length (reverse (drop m xs)) ≡ n)
        ⊎ ((length (reverse (drop m xs)) ≤ n) × (reverse (take m xs) ≡ []))
  covers n xs =
      let size = length-reverse (drop (length xs - n) xs) ∙ length-drop (length xs - n) xs in
      elim (le_or_lt n (length xs)) [
        | inl le ↦ inl (omega (arith, size, le))
        | inr lt ↦
            let all : length xs - n ≡ 0 = omega (arith, lt) in
            inr (omega (arith, size, lt), rw all refl)
      ]

  -- The last `n` items backwards are the first `n` of the list backwards.
  reverse-drop : (n : ℕ) (xs : List A) → reverse (drop (length xs - n) xs) ≡ take n (reverse xs)
  reverse-drop n xs =
      let m = length xs - n in
      let whole : reverse xs ≡ reverse (drop m xs) ++ reverse (take m xs) =
        ap reverse (sym (take-drop m xs)) ∙ reverse-append (take m xs) (drop m xs) in
      rw whole (sym (take_exact n (reverse (drop m xs)) (reverse (take m xs)) (covers n xs)))

-- For a positive limit the dashboard shows so many of the newest signals, or all if there are fewer,
-- the newest one first. For the limit 0 it shows all signals, and for a negative limit all but that
-- many of the oldest.
pub get_signals-take :
    {F R : Type 0} (n : ℕ) (state : RuntimeState F R)
    → (get_signals (pos (suc n)) state ≡ take (suc n) (reverse state.signal_history))
      × (get_signals (pos 0) state ≡ reverse state.signal_history)
      × (get_signals (negsuc n) state ≡ reverse (drop (suc n) state.signal_history))
unfolding get_signals last_items
get_signals-take n state = (reverse-drop (suc n) state.signal_history, refl, refl)
