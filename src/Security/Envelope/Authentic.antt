-- ===== src/Security/Envelope/Authentic.antt =====
-- What an encrypted secret is.
use gen.Prelude.{
  ◌⊎◌, ◌==◌, ℕ, zero, suc, ◌≡◌, ◌≤◌, refl, sym, ap, ◌∙◌, ◌↔◌, false, Bool-cases, inl, inr, [], ◌∷◌,
  ◌++◌, Option-cases, length, take, drop, ltb, arith,
}
use gen.Errors.{ok, raised, value_error, ◌>>=◌}
use gen.Security.Envelope.{
  Bytes, Utf8, AesGcm, nonce_size_bytes, key_size_bytes, validate_key, opened, encrypt_secret,
  decrypt_secret,
}

take-drop : (n : ℕ) (xs : Bytes) → take n xs ++ drop n xs ≡ xs
take-drop zero xs = refl
take-drop (suc n) [] = refl
take-drop (suc n) (x ∷ xs) = ap (λ t. x ∷ t) (take-drop n xs)

length-take : (n : ℕ) (xs : Bytes) → n ≤ length xs → length (take n xs) ≡ n
length-take zero xs h = refl
length-take (suc n) [] h = omega arith
length-take (suc n) (x ∷ xs) h = omega (arith, length-take n xs (omega arith))

take-append : (xs ys : Bytes) → take (length xs) (xs ++ ys) ≡ xs
take-append [] ys = refl
take-append (x ∷ xs) ys = ap (λ t. x ∷ t) (take-append xs ys)

drop-append : (xs ys : Bytes) → drop (length xs) (xs ++ ys) ≡ ys
drop-append [] ys = refl
drop-append (x ∷ xs) ys = drop-append xs ys

length-prefix : (xs ys : Bytes) → length xs ≤ length (xs ++ ys)
length-prefix [] ys = omega arith
length-prefix (x ∷ xs) ys = omega (arith, length-prefix xs ys)

validate_key_iff : (key : Bytes) → (validate_key key ≡ ok tt) ↔ (length key ≡ key_size_bytes)
unfolding validate_key
validate_key_iff key = ground arith

validate_key-raised :
    (key : Bytes) → ¬ (length key ≡ key_size_bytes) → validate_key key ≡ raised value_error
unfolding validate_key
validate_key-raised key h = ground arith

key_length-cases : (key : Bytes) → (length key ≡ key_size_bytes) ⊎ (¬ (length key ≡ key_size_bytes))
key_length-cases key = elim (Bool-cases (length key == key_size_bytes)) [
  | inl same ↦ inl (ground arith)
  | inr other ↦ inr (λ h. ground arith)
]

module _ {T : Type 0} (utf8 : Utf8 T) (aesgcm : AesGcm) where
  -- A nonce, and the text that the cipher sealed under it.
  abbrev pub IsSealed : Bytes → Bytes → T → Type 0
  IsSealed ciphertext key plaintext =
      (nonce : Bytes) × (length nonce ≡ nonce_size_bytes)
      × (ciphertext ≡ nonce ++ aesgcm.encrypt key nonce (utf8.encode plaintext))

  decrypt-sealed :
      (key nonce : Bytes) (plaintext : T)
      → length key ≡ key_size_bytes
      → length nonce ≡ nonce_size_bytes
      → decrypt_secret utf8 aesgcm (nonce ++ aesgcm.encrypt key nonce (utf8.encode plaintext)) key
        ≡ ok plaintext
  unfolding decrypt_secret
  decrypt-sealed key nonce plaintext hk hn =
      let sealed = aesgcm.encrypt key nonce (utf8.encode plaintext) in
      let front : take nonce_size_bytes (nonce ++ sealed) ≡ nonce =
        ap (λ n. take n (nonce ++ sealed)) (sym hn) ∙ take-append nonce sealed in
      let back : drop nonce_size_bytes (nonce ++ sealed) ≡ sealed =
        ap (λ n. drop n (nonce ++ sealed)) (sym hn) ∙ drop-append nonce sealed in
      let long : ltb (length (nonce ++ sealed)) nonce_size_bytes ≡ false =
        ground (arith, length-prefix nonce sealed, hn) in
      rw
        (
          (validate_key_iff key).1 hk,
          long,
          front,
          back,
          aesgcm.decrypt-encrypt key nonce (utf8.encode plaintext),
        )
        (utf8.decode-encode plaintext)

  opened-IsSealed :
      (ciphertext key : Bytes) (plaintext : T)
      → nonce_size_bytes ≤ length ciphertext
      → (opened (
            aesgcm.decrypt key
              (take nonce_size_bytes ciphertext)
              (drop nonce_size_bytes ciphertext))
          >>= utf8.decode)
        ≡ ok plaintext
      → IsSealed ciphertext key plaintext
  unfolding opened
  opened-IsSealed ciphertext key plaintext long e =
      let nonce = take nonce_size_bytes ciphertext in
      let rest = drop nonce_size_bytes ciphertext in
      elim (Option-cases (aesgcm.decrypt key nonce rest)) [
        | inl forged ↦ absurd (cc (rw forged at e))
        | inr (text, fits) ↦
            let decoded : utf8.decode text ≡ ok plaintext = rw fits at e in
            let same : rest ≡ aesgcm.encrypt key nonce (utf8.encode plaintext) =
              aesgcm.encrypt-decrypt key nonce rest text fits
              ∙ ap (aesgcm.encrypt key nonce) (utf8.encode-decode text plaintext decoded) in
            (
              nonce,
              length-take nonce_size_bytes ciphertext long,
              sym (take-drop nonce_size_bytes ciphertext) ∙ ap (λ t. nonce ++ t) same,
            )
      ]

  pub decrypt_secret-IsSealed :
      (ciphertext key : Bytes) (plaintext : T)
      → (length key ≡ key_size_bytes
          → (decrypt_secret utf8 aesgcm ciphertext key ≡ ok plaintext)
            ↔ IsSealed ciphertext key plaintext)
        × (¬ (length key ≡ key_size_bytes)
            → decrypt_secret utf8 aesgcm ciphertext key ≡ raised value_error)
  unfolding decrypt_secret
  decrypt_secret-IsSealed ciphertext key plaintext = (
    λ hk. (
      λ e. elim (Bool-cases (ltb (length ciphertext) nonce_size_bytes)) [
        | inl short ↦ absurd (cc (rw ((validate_key_iff key).1 hk, short) at e))
        | inr long ↦
            opened-IsSealed ciphertext key plaintext (ground arith)
              (rw ((validate_key_iff key).1 hk, long) at e)
      ],
      λ (nonce, hn, same).
          ap (λ t. decrypt_secret utf8 aesgcm t key) same
          ∙ decrypt-sealed key nonce plaintext hk hn,
    ),
    λ bad. rw (validate_key-raised key bad),
  )

  -- What `encrypt_secret` returns where the system's generator gives a nonce of 12 bytes.
  abbrev pub IsEncrypted : Bytes → Bytes → T → Type 0
  IsEncrypted ciphertext key plaintext =
      (nonce : Bytes) × (length nonce ≡ nonce_size_bytes)
      × (encrypt_secret utf8 aesgcm {C = Unit {0}} (λ c. (nonce, c)) plaintext key tt
          ≡ (ok ciphertext, tt))

  encrypt-valid :
      (key nonce : Bytes) (plaintext : T)
      → length key ≡ key_size_bytes
      → encrypt_secret utf8 aesgcm {C = Unit {0}} (λ c. (nonce, c)) plaintext key tt
        ≡ (ok (nonce ++ aesgcm.encrypt key nonce (utf8.encode plaintext)), tt)
  unfolding encrypt_secret
  encrypt-valid key nonce plaintext hk = ground (arith, hk)

  encrypt-invalid :
      (key nonce : Bytes) (plaintext : T)
      → ¬ (length key ≡ key_size_bytes)
      → encrypt_secret utf8 aesgcm {C = Unit {0}} (λ c. (nonce, c)) plaintext key tt
        ≡ (raised value_error, tt)
  unfolding encrypt_secret
  encrypt-invalid key nonce plaintext bad = ground arith

  sealed-IsEncrypted :
      (ciphertext key : Bytes) (plaintext : T)
      → length key ≡ key_size_bytes
      → IsSealed ciphertext key plaintext
      → IsEncrypted ciphertext key plaintext
  sealed-IsEncrypted ciphertext key plaintext hk (nonce, hn, same) =
      (nonce, hn, rw same (encrypt-valid key nonce plaintext hk))

  encrypted-IsSealed :
      (ciphertext key : Bytes) (plaintext : T)
      → IsEncrypted ciphertext key plaintext
      → (length key ≡ key_size_bytes) × IsSealed ciphertext key plaintext
  encrypted-IsSealed ciphertext key plaintext (nonce, hn, made) = elim (key_length-cases key) [
    | inl hk ↦ let value = encrypt-valid key nonce plaintext hk in (hk, (nonce, hn, cc))
    | inr bad ↦ absurd (cc (encrypt-invalid key nonce plaintext bad))
  ]

  -- `decrypt_secret` returns a text exactly for what `encrypt_secret` makes of this text under this
  -- key and some nonce of 12 bytes. With a key that is not of 32 bytes it raises ValueError.
  pub decrypt_secret_iff :
      (ciphertext key : Bytes) (plaintext : T)
      → ((decrypt_secret utf8 aesgcm ciphertext key ≡ ok plaintext)
          ↔ IsEncrypted ciphertext key plaintext)
        × (¬ (length key ≡ key_size_bytes)
            → decrypt_secret utf8 aesgcm ciphertext key ≡ raised value_error)
  decrypt_secret_iff ciphertext key plaintext =
      let (good, bad) = decrypt_secret-IsSealed ciphertext key plaintext in
      (
        (
          λ e. elim (key_length-cases key) [
            | inl hk ↦ sealed-IsEncrypted ciphertext key plaintext hk ((good hk).0 e)
            | inr h ↦ absurd (cc (bad h))
          ],
          λ made.
              let (hk, sealed) = encrypted-IsSealed ciphertext key plaintext made in
              (good hk).1 sealed,
        ),
        bad,
      )
