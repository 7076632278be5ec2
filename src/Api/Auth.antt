-- ===== src/Api/Auth.antt =====
-- backend/api/auth.py: the user of a bearer token. PyJWT is code outside the repository.
use gen.Prelude.{Option, none, some, String, str_eq, if◌then◌else◌}
use gen.Errors.{Result, ok, raised, http_exception, ◌>>=◌}

-- What `jwt.decode` comes to: the payload, of which only `str(payload.get("sub"))` is read, or one of
-- its exceptions.
pub data Decoded : Type 0 where
  payload : (sub : Option String) → Decoded
  expired_signature invalid_token : Decoded

pub record Jwt : Type 0 where
  -- `jwt.decode(token, secret, algorithms=[JWT_ALGORITHM])`
  pub decode : String → String → Decoded

-- `_get_jwt_secret`, of `os.environ.get("JWT_SECRET")`
unfoldable pub get_jwt_secret : Option String → Result String
get_jwt_secret none = raised (http_exception 500)
get_jwt_secret (some secret) = if str_eq secret "" then raised (http_exception 500) else ok secret

-- The two handlers.
unfoldable pub or_unauthorized : Decoded → Result (Option String)
or_unauthorized (payload sub) = ok sub
or_unauthorized expired_signature = raised (http_exception 401)
or_unauthorized invalid_token = raised (http_exception 401)

unfoldable pub decode_token : Jwt → Option String → String → Result (Option String)
unfolding get_jwt_secret or_unauthorized
decode_token jwt environ token =
    get_jwt_secret environ >>= λ secret. or_unauthorized (jwt.decode token secret)

unfoldable pub subject : Option String → Result String
subject none = raised (http_exception 401)
subject (some user_id) = ok user_id

unfoldable pub get_current_user_id : Jwt → Option String → String → Result String
unfolding decode_token subject
get_current_user_id jwt environ token = decode_token jwt environ token >>= subject
