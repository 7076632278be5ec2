-- ===== src/Errors.antt =====
-- The exceptions that backend/ raises, and calls that may raise.
use gen.Prelude.{ℕ, Bool, true, false, ◌≡◌, refl, ◌⊎◌, inl, inr}

-- The exception classes, without their messages.
pub data Exception : Type 0 where
  value_error zero_division_error index_error runtime_error : Exception
  not_implemented_error os_error attribute_error insecure_api_key_error : Exception
  exchange_error envelope_decryption_error kms_unavailable_error import_error : Exception
  multiple_results_found : Exception
  -- FastAPI's HTTPException, with its status code
  http_exception : ℕ → Exception

pub data Result {ℓ} (A : Type ℓ) : Type ℓ where
  ok : A → Result A
  raised : Exception → Result A

module _ {ℓ κ} {A : Type ℓ} {B : Type κ} where
  infixl 5 ◌>>=◌
  abbrev pub ◌>>=◌ : Result A → (A → Result B) → Result B
  ok a >>= f = f a
  raised e >>= f = raised e

  -- What follows a step saw the value of that step, if the chain returned.
  pub >>=-eq-ok :
      {y : B} (first : Result A) (next : A → Result B)
      → (first >>= next) ≡ ok y
      → (x : A) × (first ≡ ok x) × (next x ≡ ok y)
  >>=-eq-ok (raised why) next whole = cc
  >>=-eq-ok (ok x) next whole = (x, refl, whole)

pub Result-cases {ℓ} :
    {A : Type ℓ} (r : Result A) → ((a : A) × (r ≡ ok a)) ⊎ ((e : Exception) × (r ≡ raised e))
Result-cases (ok a) = inl (a, refl)
Result-cases (raised e) = inr (e, refl)

-- `if test: raise e`, then the rest.
abbrev pub raise_if {ℓ} : {A : Type ℓ} → Bool → Exception → Result A → Result A
raise_if true e rest = raised e
raise_if false e rest = rest
