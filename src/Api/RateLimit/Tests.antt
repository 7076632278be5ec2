-- ===== src/Api/RateLimit/Tests.antt =====
-- Two users with two tokens each, one token a second.
use gen.Prelude.{List, [], ◌∷◌, String, ◌≡◌, refl}
use gen.Num.{◌⊕◌, ◌⊖◌, ◌⊗◌, ◌≼◌}
use gen.Num.Int.{ℤ, pos, int_float, int_arith, ℤ-IsExact}
use gen.Api.RateLimit.{
  too_many_requests, TokenBucketRateLimiter, init, get, reset, allow, rate_limit_dependency,
}
use gen.Api.RateLimit.Buckets.{IsWithin, allow-IsWithin}
use gen.Api.RateLimit.Quota.{granted, granted-le_quota}

abbrev limiter : TokenBucketRateLimiter ℤ
limiter = record { capacity = pos 2; refill_per_second = pos 1; buckets = [] }

abbrev calls : List (String × ℤ)
calls =
    ("ana", pos 10)
    ∷ ("ana", pos 10)
    ∷ ("bob", pos 10)
    ∷ ("ana", pos 10)
    ∷ ("ana", pos 11)
    ∷ ("ana", pos 11)
    ∷ []

-- Two at once, one after a second.
three : granted "ana" calls limiter ≡ pos 3
unfolding granted allow int_arith
three = refl

refused :
    let l = (allow "ana" (pos 10) (allow "ana" (pos 10) limiter).1).1 in
    (rate_limit_dependency "ana" (pos 10) l).0 ≡ too_many_requests
unfolding rate_limit_dependency int_arith
refused = refl

allow-IsWithin_example : IsWithin (allow "ana" (pos 10) limiter).1 × IsWithin (reset limiter)
unfolding get
allow-IsWithin_example =
    allow-IsWithin ℤ-IsExact limiter "ana" (pos 10) refl refl (λ k b e. absurd (cc e))

granted-le_quota_example :
    granted "ana" calls (init (pos 2) (pos 1)) ≼ (pos 2 ⊕ (pos 11 ⊖ pos 10) ⊗ pos 1)
granted-le_quota_example =
    granted-le_quota ℤ-IsExact "ana" (pos 2) (pos 1) (pos 10) (pos 11) calls refl refl
      (refl, (refl, (refl, (refl, (refl, (refl, refl))))))
