-- ===== src/Security/Kms/Source.antt =====
-- Which texts of the environment can become the master key.
use gen.Prelude.{
  ℕ, Bool, true, false, ◌||◌, ◌≡◌, ◌≢◌, refl, ◌⊎◌, inl, inr, Option, none, some, Option-cases,
  String, str_eq, str_eq_iff, length, ◌==◌, Bool-cases, if◌then◌else◌, arith,
}
use mathlib.Core.Path.{subst}
use gen.Errors.{Exception, Result, ok, raised, Result-cases, kms_unavailable_error}
use gen.Security.Envelope.{Bytes, key_size_bytes}
use gen.Security.Kms.{
  Codecs, Env, sized, first_of, pick_key, decode_key_material, is_live, decode_fallback,
  dev_fallback_key, unless_raised, decode_injected, injected_key, or_fallback, name_of,
  get_master_key,
}

sized-length : (o : Option Bytes) (key : Bytes) → sized o ≡ some key → length key ≡ key_size_bytes
unfolding sized
sized-length none key e = cc e
sized-length (some k) key e = elim (Bool-cases (length k == key_size_bytes)) [
  | inl fits ↦
      let same : k ≡ key = cc (rw fits at e) in rw (← same) (equal (length k) key_size_bytes fits)
  | inr wrong ↦ absurd (cc (rw wrong at e))
]
  where
    equal : (n m : ℕ) → (n == m) ≡ true → n ≡ m
    equal n m h = ground arith

first_of-source :
    (a b : Option String) (raw : String) → first_of a b ≡ some raw → (a ≡ some raw) ⊎ (b ≡ some raw)
unfolding first_of
first_of-source none b raw e = inr e
first_of-source (some x) b raw e = elim (Bool-cases (str_eq x "")) [
  | inl empty ↦ inr (rw empty at e)
  | inr full ↦ inl (rw full at e)
]

unless_raised-some : (r : Result Bytes) (key : Bytes) → unless_raised r ≡ some key → r ≡ ok key
unfolding unless_raised
unless_raised-some (ok k) key h = cc h
unless_raised-some (raised e) key h = absurd (cc h)

module _ (codecs : Codecs) where
  -- What a decoder makes of the material is a key, or the decoding raises KmsUnavailableError.
  pick_key-length :
      (a b : Option Bytes) (key : Bytes)
      → pick_key codecs (sized a) (sized b) ≡ ok key
      → length key ≡ key_size_bytes
  unfolding pick_key
  pick_key-length a b key e = by_sizes (sized a) (sized b) refl refl e
    where
      by_sizes :
          (p q : Option Bytes)
          → sized a ≡ p
          → sized b ≡ q
          → pick_key codecs p q ≡ ok key
          → length key ≡ key_size_bytes
      by_sizes (some k) q ep eq h = sized-length a key (cc (ep, h))
      by_sizes none (some k) ep eq h = sized-length b key (cc (eq, h))
      by_sizes none none ep eq h = absurd (cc h)

  pick_key-raised :
      (p q : Option Bytes) (e : Exception)
      → pick_key codecs p q ≡ raised e
      → e ≡ kms_unavailable_error
  unfolding pick_key
  pick_key-raised (some k) q e h = absurd (cc h)
  pick_key-raised none (some k) e h = absurd (cc h)
  pick_key-raised none none e h = cc h

  -- An answer that is a key of the right size, or the one exception.
  abbrev IsKeyResult : Result Bytes → Type 0
  IsKeyResult (ok key) = length key ≡ key_size_bytes
  IsKeyResult (raised e) = e ≡ kms_unavailable_error

  decode-IsKeyResult : (raw : String) → IsKeyResult (decode_key_material codecs raw)
  unfolding decode_key_material
  decode-IsKeyResult raw = elim (Result-cases (decode_key_material codecs raw)) [
    | inl (key, e) ↦ rw e (
        pick_key-length (codecs.b64decode (codecs.strip raw)) (codecs.fromhex (codecs.strip raw))
          key e)
    | inr (x, e) ↦ rw e (pick_key-raised _ _ x e)
  ]

  fallback-IsKeyResult : (o : Option String) → IsKeyResult (decode_fallback codecs o)
  unfolding decode_fallback
  fallback-IsKeyResult none = refl
  fallback-IsKeyResult (some raw) = if_else (str_eq raw "" || str_eq raw "change-me")
    where
      if_else :
          (b : Bool)
          → IsKeyResult (if b then raised kms_unavailable_error else decode_key_material codecs raw)
      if_else true = refl
      if_else false = decode-IsKeyResult raw

  -- The material that `modal` put into the environment.
  abbrev pub IsInjected : Option (String → Result (Unit {0})) → Env → String → Bytes → Type 0
  IsInjected modal env name key =
      (from_name : String → Result (Unit {0})) × (modal ≡ some from_name)
      × (from_name name ≡ ok tt)
      × (raw : String) × (raw ≢ "")
      × ((env "MASTER_KEY" ≡ some raw) ⊎ (env name ≡ some raw))
      × (decode_key_material codecs raw ≡ ok key)

  -- The outcome of the look-up of the master key.
  abbrev pub Outcome : Option (String → Result (Unit {0})) → Env → String → Result Bytes → Type 0
  Outcome modal env name (ok key) =
      (length key ≡ key_size_bytes) × (IsInjected modal env name key ⊎ (is_live codecs env ≡ false))
  Outcome modal env name (raised e) = e ≡ kms_unavailable_error

  dev_fallback-Outcome :
      (modal : Option (String → Result (Unit {0}))) (env : Env) (name : String)
      → Outcome modal env name (dev_fallback_key codecs env)
  unfolding dev_fallback_key
  dev_fallback-Outcome modal env name = by_mode (is_live codecs env) refl
    where
      kept :
          (r : Result Bytes) → is_live codecs env ≡ false → IsKeyResult r → Outcome modal env name r
      kept (ok key) h k = (k, inr h)
      kept (raised e) h k = k

      by_mode :
          (b : Bool)
          → is_live codecs env ≡ b
          → Outcome modal env name (
              if b
              then raised kms_unavailable_error
              else decode_fallback codecs
                  (first_of (env "MASTER_KEY_OVERRIDE") (env "ENVELOPE_KEY_ID")))
      by_mode true h = refl
      by_mode false h =
          kept _ h
            (fallback-IsKeyResult (first_of (env "MASTER_KEY_OVERRIDE") (env "ENVELOPE_KEY_ID")))

  decode_injected-source :
      (o : Option String) (key : Bytes)
      → decode_injected codecs o ≡ some key
      → (raw : String) × (o ≡ some raw) × (raw ≢ "") × (decode_key_material codecs raw ≡ ok key)
  unfolding decode_injected
  decode_injected-source none key h = absurd (cc h)
  decode_injected-source (some raw) key h = elim (Bool-cases (str_eq raw "")) [
    | inl empty ↦ absurd (cc (rw empty at h))
    | inr full ↦ (
      raw,
      refl,
      λ blank. cc ((str_eq_iff raw "").1 blank, full),
      unless_raised-some (decode_key_material codecs raw) key (rw full at h),
    )
  ]

  decoded-length :
      (raw : String) (key : Bytes)
      → decode_key_material codecs raw ≡ ok key
      → length key ≡ key_size_bytes
  decoded-length raw key e = subst IsKeyResult e (decode-IsKeyResult raw)

  injected-Outcome :
      (from_name : String → Result (Unit {0})) (env : Env) (name : String) (r : Result (Unit {0}))
      → from_name name ≡ r
      → Outcome (some from_name) env name (or_fallback codecs (injected_key codecs r env name) env)
  unfolding injected_key or_fallback
  injected-Outcome from_name env name (raised e) h = dev_fallback-Outcome (some from_name) env name
  injected-Outcome from_name env name (ok _) h =
      elim (Option-cases (decode_injected codecs (first_of (env "MASTER_KEY") (env name)))) [
        | inl missing ↦ rw missing (dev_fallback-Outcome (some from_name) env name)
        | inr (key, e) ↦
            let (raw, at, nonempty, decoded) =
              decode_injected-source (first_of (env "MASTER_KEY") (env name)) key e in
            rw e (
              decoded-length raw key decoded,
              inl (
                from_name,
                refl,
                h,
                raw,
                nonempty,
                first_of-source (env "MASTER_KEY") (env name) raw at,
                decoded,
              ),
            )
      ]

  -- A master key that is returned has 32 bytes. Either `modal` is installed, its look-up returned,
  -- and the key is decoded from a text that is not empty under MASTER_KEY or the secret's name; or
  -- the trading mode is not live. Every failure, also of `modal`, is KmsUnavailableError.
  pub get_master_key-Outcome :
      (modal : Option (String → Result (Unit {0}))) (env : Env) (secret_name : Option String)
      → Outcome modal env
          (name_of codecs env secret_name)
          (get_master_key codecs modal env secret_name)
  unfolding get_master_key
  get_master_key-Outcome none env secret_name =
      dev_fallback-Outcome none env (name_of codecs env secret_name)
  get_master_key-Outcome (some from_name) env secret_name =
      let name = name_of codecs env secret_name in
      injected-Outcome from_name env name (from_name name) refl
