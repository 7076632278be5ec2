-- ===== src/Api/Intent/Tests.antt =====
-- A request of the right user, and one of another.
use gen.Prelude.{[], ℕ, suc, ◌≡◌, ◌≢◌, ◌↔◌, ◌⊎◌, refl, none, some, String, str_eq, if◌then◌else◌}
use gen.Errors.{ok, raised, Exception, http_exception}
use gen.Exec.{Exec}
use gen.Num.Int.{ℤ, pos, int_float}
use gen.Schemas.{ArbitrageSignal, testnet}
use gen.Api.Auth.{Jwt, payload, invalid_token, get_current_user_id}
use gen.Api.RateLimit.{TokenBucketRateLimiter}
use gen.Api.Intent.{
  TradeSignalRequest, process_arbitrage_intent, reject, user_id_mismatch, no_metrics, of_signal,
  target_of, endpoint,
}
use gen.Api.Intent.Guarded.{
  IsToken, IsGuarded, rejection, get_current_user_id_iff, endpoint-Guarded,
  process_arbitrage_intent_rejects,
}

-- A token is the name of its user, signed with the secret "s3cret".
abbrev jwt : Jwt
jwt = record {
  decode = λ token secret. if str_eq secret "s3cret" then payload (some token) else invalid_token;
}

abbrev request : TradeSignalRequest ℤ
request = record {
  user_id = "ana";
  symbol = "BTC/USDT";
  exchange_buy = "kraken";
  exchange_sell = "bybit";
  capital_allocation_usd = pos 40;
  min_alpha_bps = pos 15;
  trading_mode = testnet;
}

abbrev signal : ArbitrageSignal ℤ
signal = record {
  execution_probability = pos 1;
  expected_alpha_bps = pos 20;
  adverse_hazard = pos 0;
}

abbrev evaluate : Exec ℕ (ArbitrageSignal ℤ)
evaluate c = (ok signal, suc c)

abbrev limiter : TokenBucketRateLimiter ℤ
limiter = record { capacity = pos 2; refill_per_second = pos 1; buckets = [] }

no_secret : get_current_user_id jwt (some "") "ana" ≡ raised (http_exception 500)
unfolding get_current_user_id
no_secret = refl

forged : get_current_user_id jwt (some "guess") "ana" ≡ raised (http_exception 401)
unfolding get_current_user_id
forged = refl

get_current_user_id_iff_example :
    (get_current_user_id jwt (some "s3cret") "ana" ≡ ok "ana")
    ↔ IsToken jwt (some "s3cret") "ana" "ana"
get_current_user_id_iff_example = get_current_user_id_iff jwt (some "s3cret") "ana" "ana"

endpoint-Guarded_example :
    ((endpoint jwt (some "s3cret") evaluate "ana" (pos 3) request (limiter, 0)).1.1 ≡ 0)
    ⊎ IsGuarded jwt (some "s3cret") evaluate "ana" (pos 3) request limiter
endpoint-Guarded_example =
    endpoint-Guarded jwt (some "s3cret") evaluate "ana" (pos 3) request limiter 0

abbrev ana : String
ana = "ana"

process_arbitrage_intent_rejects_example :
    ((ana ≢ ana)
      → process_arbitrage_intent evaluate request "ana" 0
        ≡ (ok (reject user_id_mismatch no_metrics none), 0))
    × (ana ≡ ana
        → ((s : ArbitrageSignal ℤ) (c' : ℕ)
            → evaluate 0 ≡ (ok s, c')
            → process_arbitrage_intent evaluate request "ana" 0 ≡ (
              ok (reject (rejection evaluate request s) (of_signal s) (some (target_of request))),
              c',
            ))
          × ((e : Exception) (c' : ℕ)
              → evaluate 0 ≡ (raised e, c')
              → process_arbitrage_intent evaluate request "ana" 0 ≡ (raised e, c')))
process_arbitrage_intent_rejects_example = process_arbitrage_intent_rejects evaluate request "ana" 0
