-- ===== src/Api/RateLimit.antt =====
-- backend/api/rate_limit.py: a token bucket per user. The clock is code outside the repository:
-- its reading `now` is an argument of every call.
pub mod Tokens
pub mod Buckets
pub mod Quota
mod Tests
use gen.Prelude.{
  Bool, true, false, List, [], ◌∷◌, String, str_eq, if◌then◌else◌, Option, none, some,
}
use gen.Num.{Float, ◌⊕◌, ◌⊖◌, ◌⊗◌, ◌≤?◌, num, min, max}

pub record Bucket (F : Type 0) : Type 0 where
  pub tokens : F
  pub last_refill : F

pub record TokenBucketRateLimiter (F : Type 0) : Type 0 where
  pub capacity : F
  pub refill_per_second : F
  pub buckets : List (String × Bucket F)

-- What `rate_limit_dependency` comes to: the user's id, or HTTP 429.
pub data Reply : Type 0 where
  user : String → Reply
  too_many_requests : Reply

module _ {F : Type 0} where
  unfoldable pub init : F → F → TokenBucketRateLimiter F
  init capacity refill_per_second = record {
    capacity = capacity;
    refill_per_second = refill_per_second;
    buckets = [];
  }

  -- `self._buckets.get(key)`
  unfoldable pub get : List (String × Bucket F) → String → Option (Bucket F)
  get [] key = none
  get ((k, b) ∷ rest) key = if str_eq k key then some b else get rest key

  -- `self._buckets[key] = bucket`, and the writes through a reference to a bucket in the dict
  unfoldable pub set : List (String × Bucket F) → String → Bucket F → List (String × Bucket F)
  set [] key bucket = (key, bucket) ∷ []
  set ((k, b) ∷ rest) key bucket =
      let others = set rest key bucket in
      if str_eq k key then (k, bucket) ∷ rest else (k, b) ∷ others

  unfoldable pub reset : TokenBucketRateLimiter F → TokenBucketRateLimiter F
  reset limiter = record limiter { buckets = [] }

module _ {F : Type 0} ⦃fl : Float F⦄ where
  unfoldable pub refill : F → F → Bucket F → F → Bucket F
  refill capacity refill_per_second bucket now =
      let elapsed = max (num 0) (now ⊖ bucket.last_refill) in
      record {
        tokens = min capacity (bucket.tokens ⊕ elapsed ⊗ refill_per_second);
        last_refill = now;
      }

  -- The bucket as the test finds it: a new one, or the refilled old one.
  unfoldable pub bucket_at : F → F → Option (Bucket F) → F → Bucket F
  unfolding refill
  bucket_at capacity refill_per_second none now = record { tokens = capacity; last_refill = now }
  bucket_at capacity refill_per_second (some bucket) now =
      refill capacity refill_per_second bucket now

  -- `if bucket.tokens >= 1.0: bucket.tokens -= 1.0`
  unfoldable pub take_token : Bucket F → Bool × Bucket F
  take_token bucket =
      if num 1 ≤? bucket.tokens
      then (true, record bucket { tokens = bucket.tokens ⊖ num 1 })
      else (false, bucket)

  unfoldable pub allow : String → F → TokenBucketRateLimiter F → Bool × TokenBucketRateLimiter F
  unfolding get set bucket_at take_token
  allow key now limiter =
      let bucket =
        bucket_at limiter.capacity limiter.refill_per_second (get limiter.buckets key) now in
      let (allowed, bucket') = take_token bucket in
      (allowed, record limiter { buckets = set limiter.buckets key bucket' })

  unfoldable pub rate_limit_dependency :
      String → F → TokenBucketRateLimiter F → Reply × TokenBucketRateLimiter F
  unfolding allow
  rate_limit_dependency user_id now limiter =
      let (allowed, limiter') = allow user_id now limiter in
      (if allowed then user user_id else too_many_requests, limiter')
