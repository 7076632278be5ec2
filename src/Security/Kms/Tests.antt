-- ===== src/Security/Kms/Tests.antt =====
-- A live deployment, with and without its secret.
use gen.Prelude.{◌≡◌, refl, none, some, str_eq, if◌then◌else◌}
use gen.Errors.{ok, raised, kms_unavailable_error, exchange_error}
use gen.Security.Envelope.Tests.{key}
use gen.Security.Kms.{Codecs, Env, name_of, get_master_key}
use gen.Security.Kms.Source.{Outcome, get_master_key-Outcome}

-- The text "k" is the base64 of the key.
abbrev codecs : Codecs
codecs = record {
  strip = λ s. s;
  lower = λ s. s;
  b64decode = λ s. if str_eq s "k" then some key else none;
  fromhex = λ s. none;
}

abbrev live : Env
live s =
    if str_eq s "TRADING_MODE"
    then some "live"
    else if str_eq s "MASTER_KEY"
    then some "k"
    else if str_eq s "MASTER_KEY_OVERRIDE"
    then some "k"
    else none

found : get_master_key codecs (some (λ s. ok tt)) live none ≡ ok key
unfolding get_master_key
found = refl

-- The fallback is there and is not used.
refused :
    get_master_key codecs (some (λ s. raised exchange_error)) live none
    ≡ raised kms_unavailable_error
unfolding get_master_key
refused = refl

get_master_key-Outcome_example :
    Outcome codecs
      (some (λ s. ok tt))
      live
      (name_of codecs live none)
      (get_master_key codecs (some (λ s. ok tt)) live none)
get_master_key-Outcome_example = get_master_key-Outcome codecs (some (λ s. ok tt)) live none
