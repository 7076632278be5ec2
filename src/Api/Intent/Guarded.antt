-- ===== src/Api/Intent/Guarded.antt =====
-- Who gets to the network, and what the endpoint answers.
use gen.Prelude.{
  true, ◌≡◌, refl, ap, sym, ◌∙◌, Option, none, some, String, str_eq, str_eq_iff, ◌↔◌, ◌⊎◌, inl, inr,
  Bool-cases, if◌then◌else◌, arith, ◌≢◌,
}
use gen.Errors.{Result, ok, raised, Exception, ◌>>=◌}
use gen.Exec.{Exec}
use gen.Num.{Float}
use gen.Schemas.{ArbitrageSignal, default_limits}
use gen.Execution.Decision.{should_execute}
use gen.Execution.BrokenLeg.{dispatch_orders}
use gen.Api.Auth.{
  Jwt, Decoded, payload, expired_signature, invalid_token, get_jwt_secret, or_unauthorized,
  decode_token, subject, get_current_user_id,
}
use gen.Api.RateLimit.{TokenBucketRateLimiter, rate_limit_dependency, allow}
use gen.Api.Intent.{
  TradeSignalRequest, no_metrics, of_signal, Rejection, user_id_mismatch, by_gate,
  order_dispatch_failed, decide, process_arbitrage_intent, reject, answer, target_of, admitted,
  authenticated, endpoint,
}

-- The secret is configured, and the token decodes under it to a payload with this subject.
pub record IsToken (jwt : Jwt) (environ : Option String) (token user_id : String) : Type 0 where
  pub secret : String
  pub configured : environ ≡ some secret
  pub not_empty : secret ≢ ""
  pub decoded : jwt.decode token secret ≡ payload (some user_id)

get_jwt_secret-eq-ok :
    (environ : Option String) {secret : String}
    → get_jwt_secret environ ≡ ok secret
    → (environ ≡ some secret) × (secret ≢ "")
unfolding get_jwt_secret
get_jwt_secret-eq-ok none e = cc
get_jwt_secret-eq-ok (some s) e = ground (arith, str_eq_iff s "")

or_unauthorized-eq-ok :
    (d : Decoded) {user_id : String}
    → (or_unauthorized d >>= subject) ≡ ok user_id
    → d ≡ payload (some user_id)
unfolding or_unauthorized subject
or_unauthorized-eq-ok (payload none) e = cc
or_unauthorized-eq-ok (payload (some u)) e = ground arith
or_unauthorized-eq-ok expired_signature e = cc
or_unauthorized-eq-ok invalid_token e = cc

module _ (jwt : Jwt) (environ : Option String) (token user_id : String) where
  secret_of :
      (secret : Result String)
      → get_jwt_secret environ ≡ secret
      → ((secret >>= λ s. or_unauthorized (jwt.decode token s)) >>= subject) ≡ ok user_id
      → IsToken jwt environ token user_id
  secret_of (ok s) e h =
      let (configured, not_empty) = get_jwt_secret-eq-ok environ e in
      record {
        secret = s;
        configured = configured;
        not_empty = not_empty;
        decoded = or_unauthorized-eq-ok (jwt.decode token s) h;
      }
  secret_of (raised x) e h = cc

  -- A bearer token is taken for a user exactly where a secret that is not empty is configured and the
  -- token decodes under it to a payload whose subject is that user; everything else raises.
  pub get_current_user_id_iff :
      (get_current_user_id jwt environ token ≡ ok user_id) ↔ IsToken jwt environ token user_id
  unfolding get_current_user_id decode_token get_jwt_secret or_unauthorized subject
  get_current_user_id_iff = (secret_of (get_jwt_secret environ) refl, λ t. back t)
    where
      back : IsToken jwt environ token user_id → get_current_user_id jwt environ token ≡ ok user_id
      back t = elim (Bool-cases (str_eq t.secret "")) [
        | inl empty ↦ absurd (t.not_empty ((str_eq_iff t.secret "").0 empty))
        | inr set ↦ rw (t.configured, set, t.decoded) refl
      ]

module _ {F C : Type 0} ⦃fl : Float F⦄ (jwt : Jwt) (environ : Option String)
    (evaluate : Exec C (ArbitrageSignal F)) (token : String) (now : F)
    (request : TradeSignalRequest F) where
  -- A token of the user that the request names, and the rate limiter's permission for that user.
  abbrev pub IsGuarded : TokenBucketRateLimiter F → Type 0
  IsGuarded limiter =
      IsToken jwt environ token request.user_id × ((allow request.user_id now limiter).0 ≡ true)

  matched :
      (user_id : String) (c : C)
      → ((process_arbitrage_intent evaluate request user_id c).1 ≡ c) ⊎ (request.user_id ≡ user_id)
  unfolding process_arbitrage_intent
  matched user_id c = elim (Bool-cases (str_eq request.user_id user_id)) [
    | inl same ↦ inr ((str_eq_iff request.user_id user_id).0 same)
    | inr other ↦ inl (rw other refl)
  ]

  -- The endpoint touches nothing but the rate limiter, unless the token is one of the user that the
  -- request names and the rate limiter lets that user pass. Then alone the network is evaluated.
  pub endpoint-Guarded :
      (limiter : TokenBucketRateLimiter F) (c : C)
      → ((endpoint jwt environ evaluate token now request (limiter, c)).1.1 ≡ c) ⊎ IsGuarded limiter
  unfolding endpoint authenticated admitted rate_limit_dependency
  endpoint-Guarded limiter c = by_user (get_current_user_id jwt environ token) refl
    where
      by_user :
          (r : Result String)
          → get_current_user_id jwt environ token ≡ r
          → ((authenticated evaluate request now r (limiter, c)).1.1 ≡ c) ⊎ IsGuarded limiter
      by_user (raised e) h = inl refl
      by_user (ok user_id) h = elim (Bool-cases (allow user_id now limiter).0) [
        | inl allowed ↦ elim (matched user_id c) [
          | inl same ↦ inl (rw allowed same)
          | inr named ↦ inr (
            (get_current_user_id_iff jwt environ token request.user_id).0 (h ∙ ap ok (sym named)),
            rw named allowed,
          )
        ]
        | inr refused ↦ inl (rw refused refl)
      ]

module _ {F C : Type 0} ⦃fl : Float F⦄ (evaluate : Exec C (ArbitrageSignal F))
    (request : TradeSignalRequest F) where
  -- The answer to an evaluated signal: the gate's reason for a refusal, and where the gate approves,
  -- that the dispatch has failed.
  abbrev pub rejection : ArbitrageSignal F → Rejection F
  rejection signal =
      let limits = record default_limits { min_alpha_bps = request.min_alpha_bps } in
      let (approved, reason) =
        should_execute signal.expected_alpha_bps signal limits (some request.capital_allocation_usd)
          (fl.decimal 0 0) in
      if approved then order_dispatch_failed else by_gate reason

  decide_rejects :
      (signal : ArbitrageSignal F) (c : C)
      → decide request signal c
        ≡ (ok (reject (rejection signal) (of_signal signal) (some (target_of request))), c)
  unfolding decide answer dispatch_orders
  decide_rejects signal c =
      let limits = record default_limits { min_alpha_bps = request.min_alpha_bps } in
      elim (Bool-cases
        (should_execute signal.expected_alpha_bps signal limits
          (some request.capital_allocation_usd) (fl.decimal 0 0)).0) [
            | inl fit ↦ rw fit refl
            | inr refused ↦ rw refused refl
          ]

  -- For the user of the token every evaluated signal is rejected: with the gate's reason under the
  -- request's own threshold where the gate refuses, and as a failed dispatch where it approves. An
  -- exception of the evaluation is raised, and for another user nothing is evaluated.
  pub process_arbitrage_intent_rejects :
      (user_id : String) (c : C)
      → ((request.user_id ≢ user_id)
          → process_arbitrage_intent evaluate request user_id c
            ≡ (ok (reject user_id_mismatch no_metrics none), c))
        × (request.user_id ≡ user_id
            → ((signal : ArbitrageSignal F) (c' : C)
                → evaluate c ≡ (ok signal, c')
                → process_arbitrage_intent evaluate request user_id c ≡ (
                  ok (reject (rejection signal) (of_signal signal) (some (target_of request))),
                  c',
                ))
              × ((e : Exception) (c' : C)
                  → evaluate c ≡ (raised e, c')
                  → process_arbitrage_intent evaluate request user_id c ≡ (raised e, c')))
  unfolding process_arbitrage_intent
  process_arbitrage_intent_rejects user_id c = (
    λ other. ground (arith, str_eq_iff request.user_id user_id),
    λ same.
        let equal : str_eq request.user_id user_id ≡ true =
          (str_eq_iff request.user_id user_id).1 same in
        (λ signal c' e. rw (equal, e) (decide_rejects signal c'), λ x c' e. rw (equal, e) refl),
  )
