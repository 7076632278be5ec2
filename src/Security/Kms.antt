-- ===== src/Security/Kms.antt =====
-- backend/security/kms.py: where the master key of the envelope comes from. The environment, the
-- package `modal`, `str.strip`, `str.lower` and the two decoders are code outside the repository.
pub mod Source
mod Tests
use gen.Prelude.{
  ℕ, Bool, true, false, ◌||◌, Option, none, some, String, str_eq, length, ◌==◌, if◌then◌else◌,
}
use gen.Errors.{Exception, Result, ok, raised, kms_unavailable_error, ◌>>=◌}
use gen.Security.KeyValidation.{or_else}
use gen.Security.Envelope.{Bytes, key_size_bytes}

pub record Codecs : Type 0 where
  pub strip : String → String
  pub lower : String → String
  -- `base64.b64decode(raw, validate=True)` and `bytes.fromhex(raw)`; `none` is the exception that
  -- the code catches.
  pub b64decode : String → Option Bytes
  pub fromhex : String → Option Bytes

abbrev pub Env : Type 0
Env = String → Option String

-- A decoder's answer, if it has the size of a key.
unfoldable pub sized : Option Bytes → Option Bytes
sized none = none
sized (some decoded) = if length decoded == key_size_bytes then some decoded else none

-- `a or b` for values of an environment, where the empty text counts as false.
unfoldable pub first_of : Option String → Option String → Option String
first_of none other = other
first_of (some a) other = if str_eq a "" then other else some a

-- `except Exception`, whose handler goes on behind the `try`.
unfoldable pub unless_raised : Result Bytes → Option Bytes
unless_raised (ok key) = some key
unless_raised (raised e) = none

module _ (codecs : Codecs) where
  open codecs use {strip, lower, b64decode, fromhex}

  unfoldable pub pick_key : Option Bytes → Option Bytes → Result Bytes
  pick_key (some key) other = ok key
  pick_key none (some key) = ok key
  pick_key none none = raised kms_unavailable_error

  -- `_decode_key_material`
  unfoldable pub decode_key_material : String → Result Bytes
  unfolding sized pick_key
  decode_key_material raw = pick_key (sized (b64decode (strip raw))) (sized (fromhex (strip raw)))

  -- `env.get("TRADING_MODE", "testnet").strip().lower() == "live"`
  unfoldable pub is_live : Env → Bool
  is_live env = elim (env "TRADING_MODE") [
    | none ↦ str_eq (lower (strip "testnet")) "live"
    | some mode ↦ str_eq (lower (strip mode)) "live"
  ]

  unfoldable pub decode_fallback : Option String → Result Bytes
  unfolding decode_key_material
  decode_fallback none = raised kms_unavailable_error
  decode_fallback (some raw) =
      let key = decode_key_material raw in
      if str_eq raw "" || str_eq raw "change-me" then raised kms_unavailable_error else key

  -- `_dev_fallback_key`
  unfoldable pub dev_fallback_key : Env → Result Bytes
  unfolding is_live decode_fallback first_of
  dev_fallback_key env =
      let key = decode_fallback (first_of (env "MASTER_KEY_OVERRIDE") (env "ENVELOPE_KEY_ID")) in
      if is_live env then raised kms_unavailable_error else key

  -- `if raw: return _decode_key_material(raw)`; `none` goes on behind the `try`.
  unfoldable pub decode_injected : Option String → Option Bytes
  unfolding decode_key_material unless_raised
  decode_injected none = none
  decode_injected (some raw) =
      let key = unless_raised (decode_key_material raw) in if str_eq raw "" then none else key

  -- The `try` block: any exception of it, also one of the decoding, goes on behind it.
  unfoldable pub injected_key : Result (Unit {0}) → Env → String → Option Bytes
  unfolding decode_injected first_of
  injected_key (raised e) env secret_name = none
  injected_key (ok _) env secret_name =
      decode_injected (first_of (env "MASTER_KEY") (env secret_name))

  unfoldable pub or_fallback : Option Bytes → Env → Result Bytes
  unfolding dev_fallback_key
  or_fallback (some key) env = ok key
  or_fallback none env = dev_fallback_key env

  unfoldable pub name_of : Env → Option String → String
  unfolding or_else
  name_of env secret_name =
      or_else secret_name
        (elim (env "KMS_SECRET_NAME") [ none ↦ "arbitrage-secrets" | some name ↦ name ])

  -- `modal` is `none` if the package is not installed, and else `modal.Secret.from_name`.
  unfoldable pub get_master_key :
      Option (String → Result (Unit {0})) → Env → Option String → Result Bytes
  unfolding injected_key or_fallback name_of
  get_master_key none env secret_name = dev_fallback_key env
  get_master_key (some from_name) env secret_name =
      let name = name_of env secret_name in or_fallback (injected_key (from_name name) env name) env
