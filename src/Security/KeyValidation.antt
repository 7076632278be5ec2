-- ===== src/Security/KeyValidation.antt =====
-- backend/security/key_validation.py: the gate that an exchange API key passes before it is stored.
-- `clean` is `name.strip().lower()` of Python's `str`. The ccxt client is code outside the
-- repository: it is given by the methods it has and by what a call of each comes to.
pub mod Entries
pub mod Gate
mod Tests
use gen.Prelude.{
  Bool, true, false, not, ◌&&◌, ◌||◌, Option, none, some, List, [], ◌∷◌, ◌++◌, foldl, String,
  str_eq, if◌then◌else◌,
}
use gen.Errors.{
  Exception, Result, ok, raised, ◌>>=◌, raise_if, attribute_error, insecure_api_key_error,
}

-- A key or an item of a payload: a `str`, or anything else.
pub data Name : Type 0 where
  text : String → Name
  other : Name

-- A value of a payload: the keys of a dict with the truth of their values, the items of a list, a
-- tuple or a set, or the truth of any other value.
pub data Value : Type 0 where
  dict : List (Name × Bool) → Value
  items : List Name → Value
  scalar : Bool → Value

abbrev pub Payload : Type 0
Payload = List (Name × Value)

-- `dict[str, bool]`, the last write of a key first.
abbrev pub Permissions : Type 0
Permissions = List (String × Bool)

abbrev pub withdrawal_aliases : List String
withdrawal_aliases =
    "withdraw" ∷ "withdrawal" ∷ "withdrawals" ∷ "enablewithdrawals" ∷ "can_withdraw" ∷ "canwithdraw"
    ∷ []

abbrev pub transfer_aliases : List String
transfer_aliases =
    "transfer" ∷ "transfers" ∷ "internal_transfer" ∷ "internaltransfer" ∷ "enableinternaltransfer"
    ∷ "can_transfer" ∷ "cantransfer" ∷ []

abbrev pub spot_aliases : List String
spot_aliases = "spot" ∷ "spot_trading" ∷ "spottrading" ∷ "enablespottrading" ∷ "can_trade" ∷ []

abbrev pub read_aliases : List String
read_aliases = "read" ∷ "read_only" ∷ "readonly" ∷ "enablereading" ∷ "can_read" ∷ []

pub record KeyPermissionReport : Type 0 where
  pub exchange : String
  pub withdrawal_enabled : Bool
  pub transfer_enabled : Bool
  pub spot_trading_enabled : Bool
  pub read_enabled : Bool
  pub raw_permissions : Payload

unfoldable pub is_safe : KeyPermissionReport → Bool
is_safe r =
    not r.withdrawal_enabled
    && (not r.transfer_enabled && (r.spot_trading_enabled && r.read_enabled))

module _ (clean : String → String) where
  -- `_add`
  unfoldable pub add : Permissions → Name → Bool → Permissions
  add normalized other value = normalized
  add normalized (text name) value = (clean name, value) ∷ normalized

  unfoldable pub add_dict : Permissions → List (Name × Bool) → Permissions
  unfolding add
  add_dict normalized [] = normalized
  add_dict normalized ((sub_key, sub_value) ∷ rest) =
      add_dict (add normalized sub_key sub_value) rest

  unfoldable pub add_items : Permissions → List Name → Permissions
  unfolding add
  add_items normalized [] = normalized
  add_items normalized (item ∷ rest) = add_items (add normalized item true) rest

  -- The body of the loop over `raw.items()`.
  unfoldable pub add_value : Permissions → Name → Value → Permissions
  unfolding add_dict add_items
  add_value normalized key (dict entries) = add_dict normalized entries
  add_value normalized key (items names) = add_items normalized names
  add_value normalized key (scalar value) = add normalized key value

  unfoldable pub normalize_from : Permissions → Payload → Permissions
  unfolding add_value
  normalize_from normalized [] = normalized
  normalize_from normalized ((key, value) ∷ rest) =
      normalize_from (add_value normalized key value) rest

  unfoldable pub normalize_permissions : Payload → Permissions
  unfolding normalize_from
  normalize_permissions raw = normalize_from [] raw

-- `normalized.get(alias, False)`
unfoldable pub get : Permissions → String → Bool
get [] alias = false
get ((name, value) ∷ rest) alias = if str_eq name alias then value else get rest alias

unfoldable pub flag_from_aliases : Permissions → List String → Bool
unfolding get
flag_from_aliases normalized [] = false
flag_from_aliases normalized (alias ∷ rest) =
    get normalized alias || flag_from_aliases normalized rest

-- What `fetch_permissions()` comes to: a payload, a value that counts as false, a true value that
-- is no dict, or an exception: `ccxt.NotSupported`, another `ccxt.BaseError`, or any other one.
pub data Fetched : Type 0 where
  payload : Payload → Fetched
  falsy not_dict not_supported base_error : Fetched
  fails : Exception → Fetched

-- What `fetch_account()` comes to.
pub data Account : Type 0 where
  account : Payload → Account
  no_dict : Account
  account_fails : Exception → Account

-- `none` stands for a method that the client does not have.
pub record Client : Type 0 where
  -- `getattr(exchange_client, "id", None)`
  pub id : Option String
  pub fetch_permissions : Option Fetched
  pub fetch_account : Option Account
  pub fetch_account_camel : Option Account

-- The loop over the two names of the account call.
unfoldable pub fetch_from_account : List (Option Account) → Result Payload
fetch_from_account [] = raised insecure_api_key_error
fetch_from_account (none ∷ rest) = fetch_from_account rest
fetch_from_account (some (account p) ∷ rest) = ok p
fetch_from_account (some no_dict ∷ rest) = fetch_from_account rest
fetch_from_account (some (account_fails e) ∷ rest) = raised e

-- The loop again, by the outcome of `fetch_permissions`. A true value that is no dict is returned
-- and fails at its `items()`, the first use that `evaluate_permissions` makes of it.
unfoldable pub fetch_by : Option Fetched → List (Option Account) → Result Payload
unfolding fetch_from_account
fetch_by none accounts = fetch_from_account accounts
fetch_by (some (payload p)) accounts = ok p
fetch_by (some falsy) accounts = ok []
fetch_by (some not_dict) accounts = raised attribute_error
fetch_by (some not_supported) accounts = fetch_from_account accounts
fetch_by (some base_error) accounts = raised insecure_api_key_error
fetch_by (some (fails e)) accounts = raised e

unfoldable pub fetch_key_permissions : Client → Result Payload
unfolding fetch_by
fetch_key_permissions c =
    fetch_by c.fetch_permissions (c.fetch_account ∷ c.fetch_account_camel ∷ [])

-- `a or b` for strings, where the empty one counts as false.
unfoldable pub or_else : Option String → String → String
or_else none rest = rest
or_else (some s) rest = if str_eq s "" then rest else s

-- `raw_permissions if raw_permissions is not None else fetch_key_permissions(exchange_client)`
unfoldable pub obtain : Client → Option Payload → Result Payload
unfolding fetch_key_permissions
obtain client (some p) = ok p
obtain client none = fetch_key_permissions client

-- The two refusals of the gate.
unfoldable pub refuse_unsafe : KeyPermissionReport → Result KeyPermissionReport
refuse_unsafe r =
    raise_if (r.withdrawal_enabled || r.transfer_enabled) insecure_api_key_error
      (raise_if (not r.spot_trading_enabled || not r.read_enabled) insecure_api_key_error (ok r))

module _ (clean : String → String) where
  unfoldable pub evaluate_permissions : String → Payload → KeyPermissionReport
  unfolding normalize_permissions flag_from_aliases
  evaluate_permissions exchange_name raw =
      let normalized = normalize_permissions clean raw in
      record {
        exchange = exchange_name;
        withdrawal_enabled = flag_from_aliases normalized withdrawal_aliases;
        transfer_enabled = flag_from_aliases normalized transfer_aliases;
        spot_trading_enabled = flag_from_aliases normalized spot_aliases;
        read_enabled = flag_from_aliases normalized read_aliases;
        raw_permissions = raw;
      }

  unfoldable pub validate_key_permissions :
      Client → Option String → Option Payload → Result KeyPermissionReport
  unfolding evaluate_permissions obtain refuse_unsafe or_else
  validate_key_permissions client exchange_name raw =
      let name = or_else exchange_name (or_else client.id "unknown") in
      do permissions ← obtain client raw; refuse_unsafe (evaluate_permissions name permissions)
