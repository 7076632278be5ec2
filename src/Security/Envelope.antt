-- ===== src/Security/Envelope.antt =====
-- backend/security/envelope.py: an encrypted secret is a nonce and what AES-GCM makes of the text. A
-- `bytes` is the list of its numbers. The cipher of the package `cryptography`, the UTF-8 codec and
-- `os.urandom` are code outside the repository.
pub mod Authentic
pub mod Tests
use gen.Prelude.{ℕ, ◌≡◌, Bool, not, List, ◌++◌, Option, none, some, length, take, drop, ltb, ◌==◌}
use gen.Errors.{Result, ok, raised, value_error, envelope_decryption_error, ◌>>=◌, raise_if}

abbrev pub Bytes : Type 0
Bytes = List ℕ

abbrev pub nonce_size_bytes : ℕ
nonce_size_bytes = 12

abbrev pub key_size_bytes : ℕ
key_size_bytes = 32

-- `str.encode("utf-8")` and `bytes.decode("utf-8")`, which are each other's inverse. `T` stands for
-- `str`, of which nothing else is used here.
pub record Utf8 (T : Type 0) : Type 0 where
  pub encode : T → Bytes
  pub decode : Bytes → Result T
  pub decode-encode : (s : T) → decode (encode s) ≡ ok s
  pub encode-decode : (b : Bytes) (s : T) → decode b ≡ ok s → b ≡ encode s

-- `AESGCM(key).encrypt` and `.decrypt` without associated data; `none` is InvalidTag. The cipher
-- opens what it sealed under the same key and nonce, and nothing else.
pub record AesGcm : Type 0 where
  pub encrypt : Bytes → Bytes → Bytes → Bytes
  pub decrypt : Bytes → Bytes → Bytes → Option Bytes
  pub decrypt-encrypt :
      (key nonce text : Bytes) → decrypt key nonce (encrypt key nonce text) ≡ some text
  pub encrypt-decrypt :
      (key nonce sealed text : Bytes)
      → decrypt key nonce sealed ≡ some text
      → sealed ≡ encrypt key nonce text

-- `_validate_key`
unfoldable pub validate_key : Bytes → Result (Unit {0})
validate_key key = raise_if (not (length key == key_size_bytes)) value_error (ok tt)

-- `except InvalidTag`
unfoldable pub opened : Option Bytes → Result Bytes
opened none = raised envelope_decryption_error
opened (some text) = ok text

module _ {T : Type 0} (utf8 : Utf8 T) (aesgcm : AesGcm) where
  -- `os.urandom` takes the nonce from the state of the system's generator.
  unfoldable pub encrypt_secret : {C : Type 0} → (C → Bytes × C) → T → Bytes → C → Result Bytes × C
  unfolding validate_key
  encrypt_secret urandom plaintext key c =
      let (nonce, c') = urandom c in
      let sealed : Result Bytes = ok (nonce ++ aesgcm.encrypt key nonce (utf8.encode plaintext)) in
      elim (validate_key key) [ ok _ ↦ (sealed, c') | raised e ↦ (raised e, c) ]

  unfoldable pub decrypt_secret : Bytes → Bytes → Result T
  unfolding validate_key opened
  decrypt_secret ciphertext key = validate_key key >>= λ _.
      raise_if (ltb (length ciphertext) nonce_size_bytes) envelope_decryption_error (
        opened
          (aesgcm.decrypt key (take nonce_size_bytes ciphertext) (drop nonce_size_bytes ciphertext))
        >>= utf8.decode)
