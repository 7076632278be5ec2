-- ===== src/Security/Ephemeral/Zeroed.antt =====
-- What is left in the buffer of a secret when its scope in backend/security/ephemeral.py ends.
use gen.Prelude.{
  ℕ, zero, suc, ◌≡◌, refl, sym, ap, ◌∙◌, [], ◌∷◌, ◌++◌, length, length-append, inl, inr, arith,
}
use mathlib.Core.List.{append_assoc}
use gen.Errors.{Result-cases}
use gen.Exec.{Exec}
use gen.Security.Envelope.{Bytes, Utf8, AesGcm, key_size_bytes, decrypt_secret}
use gen.Security.Envelope.Authentic.{IsSealed, decrypt_secret-IsSealed}
use gen.Security.Ephemeral.{set_at, zero_from, zero_buffer, ephemeral_secret}

abbrev pub zeros : ℕ → Bytes
zeros zero = []
zeros (suc n) = 0 ∷ zeros n

set_at-append :
    (done rest : Bytes) (b v : ℕ) → set_at (length done) v (done ++ b ∷ rest) ≡ done ++ v ∷ rest
unfolding set_at
set_at-append [] rest b v = refl
set_at-append (d ∷ done) rest b v = ap (λ t. d ∷ t) (set_at-append done rest b v)

zero_from-append :
    (done rest : Bytes)
    → zero_from (length rest) (length done) (done ++ rest) ≡ done ++ zeros (length rest)
unfolding zero_from
zero_from-append done [] = refl
zero_from-append done (b ∷ rest) =
    let longer : length (done ++ 0 ∷ []) ≡ suc (length done) =
      omega (arith, length-append done (0 ∷ [])) in
    ap (zero_from (length rest) (suc (length done)))
      (set_at-append done rest b 0 ∙ sym (append_assoc done (0 ∷ []) rest))
    ∙ ap (λ n. zero_from (length rest) n ((done ++ 0 ∷ []) ++ rest)) (sym longer)
    ∙ zero_from-append (done ++ 0 ∷ []) rest
    ∙ append_assoc done (0 ∷ []) (zeros (length rest))

zero_buffer-zeros : (buffer : Bytes) → zero_buffer buffer ≡ zeros (length buffer)
unfolding zero_buffer
zero_buffer-zeros buffer = zero_from-append [] buffer

module _ {T S A : Type 0} (utf8 : Utf8 T) (aesgcm : AesGcm) (body : Exec (Bytes × S) A) where
  -- For a secret that was stored under the key, the body runs once, on the bytes of its plaintext.
  -- Its result or its exception and its state come back, and of the buffer it left, as long as that
  -- is, every byte is zero. For a ciphertext that does not decrypt, the body does not run.
  pub ephemeral_secret-zeroed :
      (ciphertext key : Bytes) (plaintext : T) (s : S)
      → length key ≡ key_size_bytes
      → (IsSealed utf8 aesgcm ciphertext key plaintext
          → let (r, (buffer, s')) = body (utf8.encode plaintext, s) in
            ephemeral_secret utf8 aesgcm body ciphertext key s ≡ (r, (zeros (length buffer), s')))
        × ((¬ ((p : T) × IsSealed utf8 aesgcm ciphertext key p))
            → (ephemeral_secret utf8 aesgcm body ciphertext key s).1 ≡ ([], s))
  unfolding ephemeral_secret
  ephemeral_secret-zeroed ciphertext key plaintext s hk = (
    λ fits.
        let (r, (buffer, s')) = body (utf8.encode plaintext, s) in
        rw (((decrypt_secret-IsSealed utf8 aesgcm ciphertext key plaintext).0 hk).1 fits)
          (ap (λ b. (r, (b, s'))) (zero_buffer-zeros buffer)),
    λ none_fits. elim (Result-cases (decrypt_secret utf8 aesgcm ciphertext key)) [
      | inl (p, e) ↦
          absurd (none_fits (p, ((decrypt_secret-IsSealed utf8 aesgcm ciphertext key p).0 hk).0 e))
      | inr (why, e) ↦ rw e refl
    ],
  )
