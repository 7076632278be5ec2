-- ===== src/Api/RateLimit/Tokens.antt =====
-- One bucket of backend/api/rate_limit.py over time, without rounding.
use gen.Prelude.{
  Bool, true, false, ◌≡◌, refl, sym, ap, ◌∙◌, inl, inr, Option, some, none, Bool-cases,
}
use mathlib.Core.Path.{subst}
use gen.Num.{Float, ◌⊕◌, ◌⊖◌, ◌⊗◌, ◌≼◌, ◌≤?◌, num, min, max}
use gen.Num.Order.{min-le, le-min, max-le, le-max}
use gen.Num.Exact.{IsExact}
use gen.Num.Algebra.{
  le_trans, le_of_lt, add-le-add, sub-nonneg_iff, mul-nonneg, add-nonneg, sub-add_cancel,
  eq_of_add-eq-add, sub-le_self,
}
use gen.Api.RateLimit.{Bucket, refill, bucket_at, take_token}

module _ {F : Type 0} ⦃fl : Float F⦄ where
  abbrev pub spent : Bool → F
  spent true = num 1
  spent false = num 0

  -- Between nothing and a full bucket.
  abbrev pub IsFilled : F → Bucket F → Type 0
  IsFilled capacity b = (num 0 ≼ b.tokens) × (b.tokens ≼ capacity)

module _ {F : Type 0} ⦃fl : Float F⦄ (x : IsExact F) where
  open x use {
    ordered, le_refl, add_comm, add_assoc, zero-add, add-sub_cancel, add-mul, mul-le-mul_right,
  }

  sub-add-sub : (a b c : F) → (b ⊖ a) ⊕ (c ⊖ b) ≡ c ⊖ a
  sub-add-sub a b c = eq_of_add-eq-add x ((b ⊖ a) ⊕ (c ⊖ b)) (c ⊖ a) a (
      add_assoc (b ⊖ a) (c ⊖ b) a
      ∙ ap (λ t. (b ⊖ a) ⊕ t) (add_comm (c ⊖ b) a)
      ∙ sym (add_assoc (b ⊖ a) a (c ⊖ b))
      ∙ ap (λ t. t ⊕ (c ⊖ b)) (sub-add_cancel x b a)
      ∙ add-sub_cancel b c
      ∙ sym (sub-add_cancel x c a))

  pub gain-nonneg : (rate a b : F) → num 0 ≼ rate → a ≼ b → num 0 ≼ ((b ⊖ a) ⊗ rate)
  gain-nonneg rate a b hr h = mul-nonneg x (b ⊖ a) rate ((sub-nonneg_iff x a b).1 h) hr

  -- A refill adds the refill of the time that passed, at most.
  pub refill-le :
      (capacity rate : F) (b : Bucket F) (now : F)
      → num 0 ≼ rate
      → b.last_refill ≼ now
      → (refill capacity rate b now).tokens ≼ (b.tokens ⊕ (now ⊖ b.last_refill) ⊗ rate)
  unfolding refill
  refill-le capacity rate b now hr h =
      let d = now ⊖ b.last_refill in
      let elapsed = max (num 0) d in
      let whole = b.tokens ⊕ elapsed ⊗ rate in
      le_trans x (min capacity whole) whole (b.tokens ⊕ d ⊗ rate)
        (min-le ordered capacity whole (le_refl capacity) (le_refl whole)).1
        (add-le-add x b.tokens b.tokens (elapsed ⊗ rate) (d ⊗ rate) (le_refl b.tokens) (
          mul-le-mul_right elapsed d rate hr
            (max-le ordered (num 0) d d ((sub-nonneg_iff x b.last_refill now).1 h) (le_refl d))))

  refill-IsFilled :
      (capacity rate : F) (b : Bucket F) (now : F)
      → num 0 ≼ capacity
      → num 0 ≼ rate
      → num 0 ≼ b.tokens
      → IsFilled capacity (refill capacity rate b now)
  unfolding refill
  refill-IsFilled capacity rate b now hc hr h =
      let elapsed = max (num 0) (now ⊖ b.last_refill) in
      let whole = b.tokens ⊕ elapsed ⊗ rate in
      let pos = add-nonneg x b.tokens (elapsed ⊗ rate) h (
        mul-nonneg x elapsed rate
          (le-max ordered (num 0) (now ⊖ b.last_refill) (le_refl (num 0))
            (le_refl (now ⊖ b.last_refill))).0
          hr) in
      (
        le-min ordered capacity whole (num 0) hc pos,
        (min-le ordered capacity whole (le_refl capacity) (le_refl whole)).0,
      )

  -- What the test took and what it left are what it found.
  pub take_token-sum :
      (b : Bucket F)
      → (spent (take_token b).0 ⊕ (take_token b).1.tokens ≡ b.tokens)
        × ((take_token b).1.last_refill ≡ b.last_refill)
  unfolding take_token
  take_token-sum b = elim (Bool-cases (num 1 ≤? b.tokens)) [
    | inl enough ↦ rw enough (add-sub_cancel (num 1) b.tokens, refl)
    | inr short ↦ rw short (zero-add b.tokens, refl)
  ]

  take_token-IsFilled :
      (capacity : F) (b : Bucket F) → IsFilled capacity b → IsFilled capacity (take_token b).1
  unfolding take_token
  take_token-IsFilled capacity b h = elim (Bool-cases (num 1 ≤? b.tokens)) [
    | inl enough ↦ rw enough (
      (sub-nonneg_iff x (num 1) b.tokens).1 enough,
      le_trans x (b.tokens ⊖ num 1) b.tokens capacity
          (sub-le_self x b.tokens (num 1) (le_of_lt x (num 0) (num 1) x.zero-lt-one)) h.1,
    )
    | inr short ↦ rw short h
  ]

  -- A bucket that a call finds or makes, with nothing or something taken from it, is between empty
  -- and full, for any clock.
  pub take-IsFilled :
      (capacity rate : F) (b : Option (Bucket F)) (now : F)
      → num 0 ≼ capacity
      → num 0 ≼ rate
      → ((old : Bucket F) → b ≡ some old → num 0 ≼ old.tokens)
      → IsFilled capacity (take_token (bucket_at capacity rate b now)).1
  unfolding bucket_at
  take-IsFilled capacity rate none now hc hr h =
      take_token-IsFilled capacity (record { tokens = capacity; last_refill = now })
        (hc, le_refl capacity)
  take-IsFilled capacity rate (some b) now hc hr h =
      take_token-IsFilled capacity (refill capacity rate b now)
        (refill-IsFilled capacity rate b now hc hr (h b refl))

  -- Taken and left, with the refill until `end`, from one call on.
  pub spent-le :
      (rate tokens now end : F) (b : Bucket F)
      → b.last_refill ≡ now
      → b.tokens ≼ tokens
      → (spent (take_token b).0
          ⊕ ((take_token b).1.tokens ⊕ (end ⊖ (take_token b).1.last_refill) ⊗ rate))
        ≼ (tokens ⊕ (end ⊖ now) ⊗ rate)
  spent-le rate tokens now end b at h =
      let gain = (end ⊖ now) ⊗ rate in
      let (same, stamp) = take_token-sum b in
      rw (stamp ∙ at, ← add_assoc (spent (take_token b).0) (take_token b).1.tokens gain, same)
        (add-le-add x b.tokens tokens gain gain h (le_refl gain))

  pub gain-sum : (rate t a b c : F) → t ⊕ (b ⊖ a) ⊗ rate ⊕ (c ⊖ b) ⊗ rate ≡ t ⊕ (c ⊖ a) ⊗ rate
  gain-sum rate t a b c =
      add_assoc t ((b ⊖ a) ⊗ rate) ((c ⊖ b) ⊗ rate)
      ∙ ap (λ u. t ⊕ u)
          (sym (add-mul (b ⊖ a) (c ⊖ b) rate) ∙ ap (λ u. u ⊗ rate) (sub-add-sub a b c))

  -- A call and the calls after it, against the tokens held at `a`.
  pub spent_step :
      (rate tokens a now end rest : F) (b : Bucket F)
      → b.last_refill ≡ now
      → b.tokens ≼ (tokens ⊕ (now ⊖ a) ⊗ rate)
      → rest ≼ ((take_token b).1.tokens ⊕ (end ⊖ (take_token b).1.last_refill) ⊗ rate)
      → (spent (take_token b).0 ⊕ rest) ≼ (tokens ⊕ (end ⊖ a) ⊗ rate)
  spent_step rate tokens a now end rest b at h hr =
      let left = (take_token b).1.tokens ⊕ (end ⊖ (take_token b).1.last_refill) ⊗ rate in
      let s = spent (take_token b).0 in
      let held = tokens ⊕ (now ⊖ a) ⊗ rate in
      subst (λ t. (s ⊕ rest) ≼ t) (gain-sum rate tokens a now end)
        (le_trans x (s ⊕ rest) (s ⊕ left) (held ⊕ (end ⊖ now) ⊗ rate)
          (add-le-add x s s rest left (le_refl s) hr) (spent-le rate held now end b at h))
