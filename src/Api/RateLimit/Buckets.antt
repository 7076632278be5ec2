-- ===== src/Api/RateLimit/Buckets.antt =====
-- The buckets of all users of backend/api/rate_limit.py, and one call.
use gen.Prelude.{
  Bool, true, false, List, [], ◌∷◌, String, str_eq, str_eq_iff, ◌≡◌, ◌≢◌, refl, sym, ap, ◌∙◌,
  Option, some, inl, inr, Bool-cases, if◌then◌else◌,
}
use mathlib.Core.Path.{subst}
use gen.Num.{Float, ◌≼◌, num}
use gen.Num.Exact.{IsExact}
use gen.Api.RateLimit.{
  Bucket, TokenBucketRateLimiter, get, set, reset, bucket_at, take_token, allow,
}
use gen.Api.RateLimit.Tokens.{IsFilled, take-IsFilled}

str_eq_self : (s : String) → str_eq s s ≡ true
str_eq_self s = (str_eq_iff s s).1 refl

module _ {F : Type 0} where
  pub get-set_same :
      (bs : List (String × Bucket F)) (key : String) (b : Bucket F)
      → get (set bs key b) key ≡ some b
  unfolding get set
  get-set_same [] key b = rw (str_eq_self key)
  get-set_same ((k, old) ∷ rest) key b = elim (Bool-cases (str_eq k key)) [
    | inl same ↦ rw same (rw same)
    | inr differs ↦ rw differs (rw differs (get-set_same rest key b))
  ]

  pub get-set_other :
      (bs : List (String × Bucket F)) (key other : String) (b : Bucket F)
      → other ≢ key
      → get (set bs key b) other ≡ get bs other
  unfolding get set
  get-set_other [] key other b h = elim (Bool-cases (str_eq key other)) [
    | inl same ↦ absurd (h (sym ((str_eq_iff key other).0 same)))
    | inr differs ↦ rw differs
  ]
  get-set_other ((k, old) ∷ rest) key other b h = elim (Bool-cases (str_eq k key)) [
    | inl same ↦
        let differs : str_eq k other ≡ false =
          different k (λ e. h (sym e ∙ (str_eq_iff k key).0 same)) in
        rw same (rw differs)
    | inr new ↦ rw new (cases (str_eq k other) (some old) (get-set_other rest key other b h))
  ]
    where
      different : (k : String) → k ≢ other → str_eq k other ≡ false
      different k ne = elim (Bool-cases (str_eq k other)) [
        | inl same ↦ absurd (ne ((str_eq_iff k other).0 same))
        | inr differs ↦ differs
      ]

      cases :
          (t : Bool) (old : Option (Bucket F)) {p q : Option (Bucket F)}
          → p ≡ q
          → (if t then old else p) ≡ (if t then old else q)
      cases true old e = refl
      cases false old e = e

module _ {F : Type 0} ⦃fl : Float F⦄ where
  -- Every bucket is between empty and full.
  abbrev pub IsWithin : TokenBucketRateLimiter F → Type 0
  IsWithin l = (key : String) (b : Bucket F) → get l.buckets key ≡ some b → IsFilled l.capacity b

module _ {F : Type 0} ⦃fl : Float F⦄ (x : IsExact F) where
  open x use {le_refl, add_assoc, zero-add}

  -- Without rounding, with a capacity and a rate that are not negative, a call of any user at any
  -- time, and a reset, keep every bucket between empty and full.
  pub allow-IsWithin :
      (l : TokenBucketRateLimiter F) (key : String) (now : F)
      → num 0 ≼ l.capacity
      → num 0 ≼ l.refill_per_second
      → IsWithin l
      → IsWithin (allow key now l).1 × IsWithin (reset l)
  unfolding allow reset get
  allow-IsWithin l key now hc hr h = (after, λ k b e. absurd (cc e))
    where
      taken : Bucket F
      taken = (take_token (bucket_at l.capacity l.refill_per_second (get l.buckets key) now)).1

      after :
          (k : String) (b : Bucket F)
          → get (set l.buckets key taken) k ≡ some b
          → IsFilled l.capacity b
      after k b e = elim (Bool-cases (str_eq k key)) [
        | inl same ↦
            let found : some taken ≡ some b =
              sym (get-set_same l.buckets key taken)
              ∙ ap (λ t. get (set l.buckets key taken) t) (sym ((str_eq_iff k key).0 same))
              ∙ e in
            let eq : taken ≡ b = cc found in
            subst (λ t. IsFilled l.capacity t) eq
              (take-IsFilled x l.capacity l.refill_per_second (get l.buckets key) now hc hr
                (λ old there. (h key old there).0))
        | inr differs ↦ h k b (
            sym (
              get-set_other l.buckets key k taken
                (λ e. absurd (cc ((str_eq_iff k key).1 e, differs))))
            ∙ e)
      ]

  -- The bucket of the user after one of the user's calls, and after a call of another one.
  pub get-allow_same :
      (l : TokenBucketRateLimiter F) (key user : String) (now : F)
      → key ≡ user
      → get (allow key now l).1.buckets user
        ≡ some (take_token (bucket_at l.capacity l.refill_per_second (get l.buckets user) now)).1
  unfolding allow
  get-allow_same l key user now e = rw e (get-set_same l.buckets user _)

  pub get-allow_other :
      (l : TokenBucketRateLimiter F) (key user : String) (now : F)
      → (str_eq key user) ≡ false
      → get (allow key now l).1.buckets user ≡ get l.buckets user
  unfolding allow
  get-allow_other l key user now differs =
      get-set_other l.buckets key user _
        (λ e. absurd (cc ((str_eq_iff key user).1 (sym e), differs)))
