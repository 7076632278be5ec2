-- ===== src/Api/RateLimit/Quota.antt =====
-- All buckets of backend/api/rate_limit.py, over a run of calls by any users.
use gen.Prelude.{
  true, false, List, [], ◌∷◌, String, str_eq, str_eq_iff, ◌≡◌, refl, ◌∙◌, some, none, inl, inr,
  Bool-cases, if◌then◌else◌,
}
use mathlib.Core.Path.{subst}
use gen.Num.{Float, ◌⊕◌, ◌⊖◌, ◌⊗◌, ◌≼◌, num}
use gen.Num.Exact.{IsExact}
use gen.Num.Algebra.{le_trans, add-le-add, add-nonneg, add-zero}
use gen.Api.RateLimit.{
  Bucket, TokenBucketRateLimiter, init, get, set, refill, bucket_at, take_token, allow,
}
use gen.Api.RateLimit.Buckets.{get-set_same, get-allow_other}
use gen.Api.RateLimit.Tokens.{
  spent, gain-nonneg, refill-le, take-IsFilled, gain-sum, spent_step, take_token-sum,
}

module _ {F : Type 0} ⦃fl : Float F⦄ where
  -- The calls of a run, by user and time, do not go back in time and lie between two times.
  abbrev pub IsTimed : F → F → List (String × F) → Type 0
  IsTimed start end [] = start ≼ end
  IsTimed start end ((key, now) ∷ calls) = (start ≼ now) × IsTimed now end calls

  -- How many calls of the user were allowed.
  unfoldable pub granted : String → List (String × F) → TokenBucketRateLimiter F → F
  granted user [] l = num 0
  granted user ((key, now) ∷ calls) l =
      let (allowed, l') = allow key now l in
      let rest = granted user calls l' in if str_eq key user then spent allowed ⊕ rest else rest

module _ {F : Type 0} ⦃fl : Float F⦄ (x : IsExact F) where
  open x use {le_refl, add_assoc, zero-add}

  IsTimed-le : (start end : F) (calls : List (String × F)) → IsTimed start end calls → start ≼ end
  IsTimed-le start end [] h = h
  IsTimed-le start end ((key, now) ∷ calls) h =
      le_trans x start now end h.0 (IsTimed-le now end calls h.1)

  stamped : (cap rate : F) (b : Bucket F) (now : F) → (refill cap rate b now).last_refill ≡ now
  unfolding refill
  stamped cap rate b now = refl

  met :
      (l : TokenBucketRateLimiter F) (user : String) (now : F) (b : Bucket F)
      → get l.buckets user ≡ some b
      → bucket_at l.capacity l.refill_per_second (get l.buckets user) now
        ≡ refill l.capacity l.refill_per_second b now
  unfolding bucket_at
  met l user now b e = rw e refl

  le-add : (a b : F) → num 0 ≼ b → a ≼ (a ⊕ b)
  le-add a b h = subst (λ t. t ≼ (a ⊕ b)) (add-zero x a) (add-le-add x a a (num 0) b (le_refl a) h)

  gain_later :
      (rate t a b c : F) → num 0 ≼ rate → a ≼ b → (t ⊕ (c ⊖ b) ⊗ rate) ≼ (t ⊕ (c ⊖ a) ⊗ rate)
  gain_later rate t a b c hr h =
      subst (λ u. (t ⊕ (c ⊖ b) ⊗ rate) ≼ u) (gain-sum x rate t a b c)
        (add-le-add x t (t ⊕ (b ⊖ a) ⊗ rate) ((c ⊖ b) ⊗ rate) ((c ⊖ b) ⊗ rate)
          (le-add t ((b ⊖ a) ⊗ rate) (gain-nonneg x rate a b hr h)) (le_refl ((c ⊖ b) ⊗ rate)))

  left_stamp : (b : Bucket F) (now : F) → b.last_refill ≡ now → (take_token b).1.last_refill ≼ now
  left_stamp b now e = rw ((take_token-sum x b).1 ∙ e) (le_refl now)

  left_nonneg :
      (cap rate : F) (b : Bucket F) (now : F)
      → num 0 ≼ cap
      → num 0 ≼ rate
      → num 0 ≼ b.tokens
      → num 0 ≼ (take_token (refill cap rate b now)).1.tokens
  unfolding bucket_at
  left_nonneg cap rate b now hc hr hb =
      (take-IsFilled x cap rate (some b) now hc hr
        (λ old e. let same : b ≡ old = cc e in subst (λ t. num 0 ≼ t.tokens) same hb)).0

  module _ (user : String) where
    -- One call of the user and the calls after it.
    granted_same :
        (calls : List (String × F)) (l : TokenBucketRateLimiter F) (key : String)
        (now end tokens a : F) (b : Bucket F)
        → str_eq key user ≡ true
        → bucket_at l.capacity l.refill_per_second (get l.buckets user) now ≡ b
        → b.last_refill ≡ now
        → b.tokens ≼ (tokens ⊕ (now ⊖ a) ⊗ l.refill_per_second)
        → granted user calls (record l { buckets = set l.buckets user (take_token b).1 })
          ≼ ((take_token b).1.tokens ⊕ (end ⊖ (take_token b).1.last_refill) ⊗ l.refill_per_second)
        → granted user ((key, now) ∷ calls) l ≼ (tokens ⊕ (end ⊖ a) ⊗ l.refill_per_second)
    unfolding granted allow
    granted_same calls l key now end tokens a b same found stamp h rest =
        rw (same, (str_eq_iff key user).0 same, found)
          (spent_step x l.refill_per_second tokens a now end
            (granted user calls (record l { buckets = set l.buckets user (take_token b).1 })) b
            stamp h rest)

    other :
        (calls : List (String × F)) (l : TokenBucketRateLimiter F) (key : String) (now bound : F)
        → str_eq key user ≡ false
        → granted user calls (allow key now l).1 ≼ bound
        → granted user ((key, now) ∷ calls) l ≼ bound
    unfolding granted
    other calls l key now bound differs h = rw differs h

    -- With a bucket: its tokens and the refill since its last use.
    granted-le_known :
        (calls : List (String × F)) (l : TokenBucketRateLimiter F) (start end : F) (b : Bucket F)
        → num 0 ≼ l.capacity
        → num 0 ≼ l.refill_per_second
        → get l.buckets user ≡ some b
        → num 0 ≼ b.tokens
        → b.last_refill ≼ start
        → IsTimed start end calls
        → granted user calls l ≼ (b.tokens ⊕ (end ⊖ b.last_refill) ⊗ l.refill_per_second)
    unfolding granted allow
    granted-le_known [] l start end b hc hr e hb hs timed =
        add-nonneg x b.tokens ((end ⊖ b.last_refill) ⊗ l.refill_per_second) hb (
          gain-nonneg x l.refill_per_second b.last_refill end hr
            (le_trans x b.last_refill start end hs timed))
    granted-le_known ((key, now) ∷ calls) l start end b hc hr e hb hs timed =
        let cap = l.capacity in
        let rate = l.refill_per_second in
        let last = le_trans x b.last_refill start now hs timed.0 in
        elim (Bool-cases (str_eq key user)) [
          | inl same ↦
              granted_same calls l key now end b.tokens b.last_refill (refill cap rate b now) same
                (met l user now b e) (stamped cap rate b now) (refill-le x cap rate b now hr last)
                (let left = (take_token (refill cap rate b now)).1 in
                  granted-le_known calls (record l { buckets = set l.buckets user left }) now end
                    left hc hr (get-set_same l.buckets user left)
                    (left_nonneg cap rate b now hc hr hb)
                    (left_stamp (refill cap rate b now) now (stamped cap rate b now)) timed.1)
          | inr differs ↦ other calls l key now (b.tokens ⊕ (end ⊖ b.last_refill) ⊗ rate) differs (
              granted-le_known calls (allow key now l).1 now end b hc hr
                (get-allow_other x l key user now differs ∙ e) hb last timed.1)
        ]

    -- Without one: a full bucket and the refill since `start`.
    granted-le_fresh :
        (calls : List (String × F)) (l : TokenBucketRateLimiter F) (start end : F)
        → num 0 ≼ l.capacity
        → num 0 ≼ l.refill_per_second
        → get l.buckets user ≡ none
        → IsTimed start end calls
        → granted user calls l ≼ (l.capacity ⊕ (end ⊖ start) ⊗ l.refill_per_second)
    unfolding granted bucket_at allow
    granted-le_fresh [] l start end hc hr e timed =
        add-nonneg x l.capacity ((end ⊖ start) ⊗ l.refill_per_second) hc
          (gain-nonneg x l.refill_per_second start end hr timed)
    granted-le_fresh ((key, now) ∷ calls) l start end hc hr e timed =
        let full : Bucket F = record { tokens = l.capacity; last_refill = now } in
        let gain = gain-nonneg x l.refill_per_second start now hr timed.0 in
        let left = (take_token full).1 in
        let full-IsFilled =
          take-IsFilled x l.capacity l.refill_per_second none now hc hr (λ old e. absurd (cc e)) in
        elim (Bool-cases (str_eq key user)) [
          | inl same ↦
              granted_same calls l key now end l.capacity start full same (rw e refl) refl
                (le-add l.capacity ((now ⊖ start) ⊗ l.refill_per_second) gain)
                (granted-le_known calls (record l { buckets = set l.buckets user left }) now end
                  left hc hr (get-set_same l.buckets user left) full-IsFilled.0
                  (left_stamp full now refl) timed.1)
          | inr differs ↦
              other calls l key now (l.capacity ⊕ (end ⊖ start) ⊗ l.refill_per_second) differs (
                le_trans x (granted user calls (allow key now l).1)
                  (l.capacity ⊕ (end ⊖ now) ⊗ l.refill_per_second)
                  (l.capacity ⊕ (end ⊖ start) ⊗ l.refill_per_second)
                  (granted-le_fresh calls (allow key now l).1 now end hc hr
                    (get-allow_other x l key user now differs ∙ e) timed.1)
                  (gain_later l.refill_per_second l.capacity start now end hr timed.0))
        ]

    -- Without rounding, with a capacity and a rate that are not negative: from a limiter without
    -- buckets, in a run of calls by any users whose clock does not go back, the calls of one user
    -- that are allowed are no more than the capacity and the rate times the time between the bounds
    -- of the run.
    pub granted-le_quota :
        (capacity rate start end : F) (calls : List (String × F))
        → num 0 ≼ capacity
        → num 0 ≼ rate
        → IsTimed start end calls
        → granted user calls (init capacity rate) ≼ (capacity ⊕ (end ⊖ start) ⊗ rate)
    unfolding init get
    granted-le_quota capacity rate start end calls hc hr timed =
        granted-le_fresh calls (init capacity rate) start end hc hr refl timed
