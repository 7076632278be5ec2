-- ===== src/Security/KeyValidation/Gate.antt =====
-- What the gate of backend/security/key_validation.py lets through.
use gen.Prelude.{
  Bool, true, false, Option, none, some, List, [], ◌∷◌, String, ◌≡◌, ◌⊎◌, inl, inr, ◌↔◌, refl,
  arith,
}
use gen.Errors.{ok, raised, insecure_api_key_error}
use gen.Security.KeyValidation.{
  Payload, withdrawal_aliases, transfer_aliases, spot_aliases, read_aliases, KeyPermissionReport,
  is_safe, Fetched, payload, falsy, not_dict, fails, account, account_fails, not_supported,
  base_error, Account, no_dict, Client, fetch_from_account, fetch_by, or_else, obtain,
  evaluate_permissions, refuse_unsafe, validate_key_permissions,
}
use gen.Security.KeyValidation.Entries.{entries, IsGranted, flag-IsGranted}

-- Spot trading and reading are granted, withdrawals and transfers are not.
abbrev pub IsAcceptable : List (String × Bool) → Type 0
IsAcceptable es =
    (¬ IsGranted es withdrawal_aliases)
    × (¬ IsGranted es transfer_aliases)
    × IsGranted es spot_aliases
    × IsGranted es read_aliases

-- A call that told nothing about the key.
abbrev pub IsSilent : Option Fetched → Type 0
IsSilent none = Unit
IsSilent (some not_supported) = Unit
IsSilent (some x) = ⊥

abbrev pub IsUseless : Option Account → Type 0
IsUseless none = Unit
IsUseless (some no_dict) = Unit
IsUseless (some x) = ⊥

fetch_by-IsSilent :
    (f : Option Fetched) (accounts : List (Option Account))
    → IsSilent f
    → fetch_by f accounts ≡ fetch_from_account accounts
unfolding fetch_by
fetch_by-IsSilent none accounts h = refl
fetch_by-IsSilent (some not_supported) accounts h = refl
fetch_by-IsSilent (some (payload p)) accounts h = absurd h
fetch_by-IsSilent (some falsy) accounts h = absurd h
fetch_by-IsSilent (some not_dict) accounts h = absurd h
fetch_by-IsSilent (some base_error) accounts h = absurd h
fetch_by-IsSilent (some (fails e)) accounts h = absurd h

fetch_from_account-IsUseless :
    (a : Option Account) (accounts : List (Option Account))
    → IsUseless a
    → fetch_from_account (a ∷ accounts) ≡ fetch_from_account accounts
unfolding fetch_from_account
fetch_from_account-IsUseless none accounts h = refl
fetch_from_account-IsUseless (some no_dict) accounts h = refl
fetch_from_account-IsUseless (some (account p)) accounts h = absurd h
fetch_from_account-IsUseless (some (account_fails e)) accounts h = absurd h

module _ (clean : String → String) where
  -- A report is safe exactly if the entries of its payload are acceptable, where of several
  -- entries whose names are cleaned to the same name the last one counts.
  pub evaluate-IsAcceptable :
      (name : String) (p : Payload)
      → (is_safe (evaluate_permissions clean name p) ≡ true) ↔ IsAcceptable (entries clean p)
  unfolding is_safe evaluate_permissions
  evaluate-IsAcceptable name p = ground (
    arith,
    flag-IsGranted clean p withdrawal_aliases,
    flag-IsGranted clean p transfer_aliases,
    flag-IsGranted clean p spot_aliases,
    flag-IsGranted clean p read_aliases,
  )

  refuse-by-is_safe :
      (r : KeyPermissionReport)
      → ((is_safe r ≡ true) × (refuse_unsafe r ≡ ok r))
        ⊎ ((is_safe r ≡ false) × (refuse_unsafe r ≡ raised insecure_api_key_error))
  unfolding is_safe refuse_unsafe
  refuse-by-is_safe r = ground arith

  -- The gate on a payload p, passed in or fetched: if the entries of p are acceptable it returns
  -- the report on p, and otherwise it raises InsecureApiKeyError.
  pub validate-IsAcceptable :
      (client : Client) (exchange_name : Option String) (raw : Option Payload) (p : Payload)
      → obtain client raw ≡ ok p
      → let result = validate_key_permissions clean client exchange_name raw in
        let name = or_else exchange_name (or_else client.id "unknown") in
        (IsAcceptable (entries clean p) → result ≡ ok (evaluate_permissions clean name p))
        × (¬ IsAcceptable (entries clean p) → result ≡ raised insecure_api_key_error)
  unfolding validate_key_permissions
  validate-IsAcceptable client exchange_name raw p e =
      let name = or_else exchange_name (or_else client.id "unknown") in
      let safe = evaluate-IsAcceptable name p in
      elim (refuse-by-is_safe (evaluate_permissions clean name p)) [
        | inl (fit, returns) ↦ (λ good. rw e returns, λ bad. absurd (bad (safe.0 fit)))
        | inr (unfit, raises) ↦ (λ good. absurd (cc (safe.1 good, unfit)), λ bad. rw e raises)
      ]

  -- A key is refused with InsecureApiKeyError if the client's `fetch_permissions` is missing or not
  -- supported and each of the two account calls is missing or returns something that is no dict,
  -- or if `fetch_permissions` fails with another exception of ccxt. An account call that raises is
  -- not among these cases.
  pub validate_unverifiable :
      (client : Client) (exchange_name : Option String)
      → (IsSilent client.fetch_permissions
          × IsUseless client.fetch_account
          × IsUseless client.fetch_account_camel)
        ⊎ (client.fetch_permissions ≡ some base_error)
      → validate_key_permissions clean client exchange_name none ≡ raised insecure_api_key_error
  unfolding validate_key_permissions fetch_by
  validate_unverifiable client exchange_name h = elim h [
    | inl (silent, useless, useless_camel) ↦ rw (
      fetch_by-IsSilent client.fetch_permissions
          (client.fetch_account ∷ client.fetch_account_camel ∷ []) silent,
      fetch_from_account-IsUseless client.fetch_account (client.fetch_account_camel ∷ []) useless,
      fetch_from_account-IsUseless client.fetch_account_camel [] useless_camel,
    )
    | inr e ↦ rw e
  ]
