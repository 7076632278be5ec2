-- ===== src/Security/KeyValidation/Tests.antt =====
-- Payloads at the gate, for names that are clean already.
use gen.Prelude.{String, true, false, none, some, [], ◌∷◌, ◌≡◌, refl, inl}
use gen.Errors.{ok, raised, insecure_api_key_error}
use gen.Security.KeyValidation.{
  obtain, text, items, scalar, Payload, not_supported, no_dict, Client, is_safe, or_else,
  evaluate_permissions, validate_key_permissions,
}
use gen.Security.KeyValidation.Entries.{entries}
use gen.Security.KeyValidation.Gate.{IsAcceptable, validate-IsAcceptable, validate_unverifiable}

abbrev id_clean : String → String
id_clean s = s

-- `{"permissions": ["spot", "read"], "withdraw": False}`
abbrev good_payload : Payload
good_payload =
    (text "permissions", items (text "spot" ∷ text "read" ∷ []))
    ∷ (text "withdraw", scalar false)
    ∷ []

abbrev silent : Client
silent = record {
  id = none;
  fetch_permissions = some not_supported;
  fetch_account = some no_dict;
  fetch_account_camel = none;
}

accepted : is_safe (evaluate_permissions id_clean "kraken" good_payload) ≡ true
unfolding is_safe evaluate_permissions
accepted = refl

-- A withdrawal right is overwritten by a later entry of the same cleaned name.
overwritten :
    is_safe (
      evaluate_permissions id_clean "kraken"
        ((text "withdraw", scalar true) ∷ (text "withdraw", scalar false) ∷ good_payload))
    ≡ true
unfolding is_safe evaluate_permissions
overwritten = refl

validate-IsAcceptable_example :
    let result = validate_key_permissions id_clean silent (some "kraken") (some good_payload) in
    let name = or_else (some "kraken") (or_else none "unknown") in
    (IsAcceptable (entries id_clean good_payload)
      → result ≡ ok (evaluate_permissions id_clean name good_payload))
    × (¬ IsAcceptable (entries id_clean good_payload) → result ≡ raised insecure_api_key_error)
unfolding obtain
validate-IsAcceptable_example =
    validate-IsAcceptable id_clean silent (some "kraken") (some good_payload) good_payload refl

validate_unverifiable_example :
    validate_key_permissions id_clean silent (some "kraken") none ≡ raised insecure_api_key_error
validate_unverifiable_example =
    validate_unverifiable id_clean silent (some "kraken") (inl (tt, tt, tt))
