-- ===== src/Security/Envelope/Tests.antt =====
-- A cipher that puts a zero in front, over texts that are their own bytes.
use gen.Prelude.{ℕ, zero, suc, Option, none, some, [], ◌∷◌, ◌++◌, ◌≡◌, ◌↔◌, refl, length}
use gen.Errors.{ok, raised, value_error, envelope_decryption_error}
use gen.Security.Envelope.{Bytes, Utf8, AesGcm, key_size_bytes, encrypt_secret, decrypt_secret}
use gen.Security.Envelope.Authentic.{IsEncrypted, decrypt_secret_iff}

pub plain-decode : (b s : Bytes) → ok b ≡ ok s → b ≡ s
plain-decode b s e = cc e

abbrev pub plain : Utf8 Bytes
plain = record {
  encode = λ s. s;
  decode = ok;
  decode-encode = λ s. refl;
  encode-decode = λ b s e. plain-decode b s e;
}

abbrev open_toy : Bytes → Option Bytes
open_toy [] = none
open_toy (zero ∷ text) = some text
open_toy (suc n ∷ text) = none

pub open_toy-text : (sealed text : Bytes) → open_toy sealed ≡ some text → sealed ≡ 0 ∷ text
open_toy-text [] text e = cc e
open_toy-text (zero ∷ t) text e = cc e
open_toy-text (suc n ∷ t) text e = cc e

abbrev pub toy : AesGcm
toy = record {
  encrypt = λ key nonce text. 0 ∷ text;
  decrypt = λ key nonce sealed. open_toy sealed;
  decrypt-encrypt = λ key nonce text. refl;
  encrypt-decrypt = λ key nonce sealed text e. open_toy-text sealed text e;
}

abbrev repeat : ℕ → ℕ → Bytes
repeat zero b = []
repeat (suc n) b = b ∷ repeat n b

abbrev pub key : Bytes
key = repeat 32 7

abbrev pub stored : Bytes
stored = repeat 12 1 ++ 0 ∷ 65 ∷ 66 ∷ []

sealed_text :
    encrypt_secret plain toy (λ c. (repeat 12 1, suc c)) (65 ∷ 66 ∷ []) key 0 ≡ (ok stored, 1)
unfolding encrypt_secret
sealed_text = refl

truncated : decrypt_secret plain toy (repeat 11 1) key ≡ raised envelope_decryption_error
unfolding decrypt_secret
truncated = refl

decrypt_secret_iff_example :
    ((decrypt_secret plain toy stored key ≡ ok (65 ∷ 66 ∷ []))
      ↔ IsEncrypted plain toy stored key (65 ∷ 66 ∷ []))
    × (¬ (length key ≡ key_size_bytes) → decrypt_secret plain toy stored key ≡ raised value_error)
decrypt_secret_iff_example = decrypt_secret_iff plain toy stored key (65 ∷ 66 ∷ [])
