-- ===== src/Security/Ephemeral.antt =====
-- backend/security/ephemeral.py: a decrypted secret in a buffer that is zeroed at the end of its scope.
pub mod Zeroed
mod Tests
use gen.Prelude.{ℕ, zero, suc, List, [], ◌∷◌, length}
use gen.Errors.{Result, ok, raised}
use gen.Exec.{Exec}
use gen.Security.Envelope.{Bytes, Utf8, AesGcm, decrypt_secret}

-- `buffer[i] = value`
unfoldable pub set_at : ℕ → ℕ → Bytes → Bytes
set_at i value [] = []
set_at zero value (b ∷ buffer) = value ∷ buffer
set_at (suc i) value (b ∷ buffer) = b ∷ set_at i value buffer

-- The rounds of the loop that are left, from index `i` on.
unfoldable pub zero_from : ℕ → ℕ → Bytes → Bytes
unfolding set_at
zero_from zero i buffer = buffer
zero_from (suc rounds) i buffer = zero_from rounds (suc i) (set_at i 0 buffer)

unfoldable pub zero_buffer : Bytes → Bytes
unfolding zero_from
zero_buffer buffer = zero_from (length buffer) 0 buffer

-- The `with` block: its body may write the buffer, and returns or raises; either way the buffer is
-- zeroed. The buffer comes back beside the state, if there was one.
module _ {T S A : Type 0} (utf8 : Utf8 T) (aesgcm : AesGcm) (body : Exec (Bytes × S) A) where
  unfoldable pub scoped : Result T → S → Result A × (Bytes × S)
  unfolding zero_buffer
  scoped (raised e) s = (raised e, ([], s))
  scoped (ok plaintext) s =
      let (r, (buffer, s')) = body (utf8.encode plaintext, s) in (r, (zero_buffer buffer, s'))

  unfoldable pub ephemeral_secret : Bytes → Bytes → S → Result A × (Bytes × S)
  unfolding scoped
  ephemeral_secret ciphertext key s = scoped (decrypt_secret utf8 aesgcm ciphertext key) s
