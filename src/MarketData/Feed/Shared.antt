-- ===== src/MarketData/Feed/Shared.antt =====
-- Which exchange the feeds of one name get.
use gen.Prelude.{
  ◌≡◌, refl, ap, ◌∙◌, List, [], ◌∷◌, Option, none, some, String, str_eq, str_eq_iff, Bool-cases,
  ◌⊎◌, inl, inr, arith,
}
use gen.Errors.{Result, ok, raised}
use gen.MarketData.Feed.Exchanges.{Library, cached, keep_new, cached_or_new, get_exchange}

Option-cases : {A : Type 0} (o : Option A) → (o ≡ none) ⊎ ((a : A) × (o ≡ some a))
Option-cases none = inl refl
Option-cases (some a) = inr (a, refl)

module _ {E C : Type 0} (library : Library E C) where
  abbrev State : Type 0
  State = List (String × E) × C

  -- Any number of requests, one after the other, whatever comes of them.
  abbrev pub requests : List String → State → State
  requests [] s = s
  requests (exchange_id ∷ rest) s = requests rest (get_exchange library exchange_id s).1

  keep_new-cached :
      (id id' : String) (cache : List (String × E)) (r : Result E) (c : C) (e : E)
      → cached id cache ≡ some e
      → cached id' cache ≡ none
      → cached id (keep_new library id' cache (r, c)).1.0 ≡ some e
  unfolding keep_new cached
  keep_new-cached id id' cache (raised x) c e h k = h
  keep_new-cached id id' cache (ok e') c e h k = elim (Bool-cases (str_eq id' id)) [
    | inl same ↦ cc (h, k, (str_eq_iff id' id).0 same)
    | inr other ↦ rw other h
  ]

  keeps_cached :
      (id id' : String) (s : State) (e : E)
      → cached id s.0 ≡ some e
      → cached id (get_exchange library id' s).1.0 ≡ some e
  unfolding get_exchange cached_or_new
  keeps_cached id id' (cache, c) e h = elim (Option-cases (cached id' cache)) [
    | inl new ↦ by_new new
    | inr (e', old) ↦ rw old h
  ]
    where
      by_new :
          cached id' cache ≡ none
          → cached id (cached_or_new library id' (cached id' cache) (cache, c)).1.0 ≡ some e
      by_new new =
          let kept =
            keep_new-cached id id' cache (library.construct id' c).0 (library.construct id' c).1 e h
              new in
          rw new (elim (Bool-cases library.importable) [
            | inr absent ↦ rw absent h
            | inl there ↦ elim (Bool-cases (library.has id')) [
              | inl has ↦ rw (there, has) kept
              | inr lacks ↦ rw (there, lacks) h
            ]
          ])

  keep_new_own :
      (id : String) (cache : List (String × E)) (r : Result E) (c : C) (e : E) (s' : State)
      → keep_new library id cache (r, c) ≡ (ok e, s')
      → cached id s'.0 ≡ some e
  unfolding keep_new cached
  keep_new_own id cache (raised x) c e s' h = cc
  keep_new_own id cache (ok e') c e s' h =
      let state : ((id, e') ∷ cache, c) ≡ s' = cc in
      let same : e' ≡ e = cc in rw (← state, (str_eq_iff id id).1 refl) (ap some same)

  got-cached :
      (id : String) (s : State) (o : Option E) (e : E) (s' : State)
      → cached id s.0 ≡ o
      → cached_or_new library id o s ≡ (ok e, s')
      → cached id s'.0 ≡ some e
  unfolding cached_or_new
  got-cached id s (some e') e s' there h =
      let state : s ≡ s' = cc in let same : e' ≡ e = cc in rw (← state) (there ∙ ap some same)
  got-cached id s none e s' new h = elim (Bool-cases library.importable) [
    | inr absent ↦ ground (arith, h, absent)
    | inl there ↦ elim (Bool-cases (library.has id)) [
      | inl has ↦
          keep_new_own id s.0 (library.construct id s.1).0 (library.construct id s.1).1 e s'
            (ground (arith, h, there, has))
      | inr lacks ↦ ground (arith, h, there, lacks)
    ]
  ]

  requests-cached :
      (ids : List String) (id : String) (s : State) (e : E)
      → cached id s.0 ≡ some e
      → cached id (requests ids s).0 ≡ some e
  requests-cached [] id s e h = h
  requests-cached (id' ∷ ids) id s e h =
      requests-cached ids id (get_exchange library id' s).1 e (keeps_cached id id' s e h)

  -- Once a feed has got an exchange, every later request for it returns that same exchange, whatever
  -- was requested in between and whatever came of it, and constructs nothing.
  pub get_exchange_shared :
      (id : String) (s : State) (ids : List String) {e : E} {s' : State}
      → get_exchange library id s ≡ (ok e, s')
      → get_exchange library id (requests ids s') ≡ (ok e, requests ids s')
  unfolding get_exchange cached_or_new
  get_exchange_shared id s ids {e} {s'} h =
      rw (requests-cached ids id s' e (got-cached id s (cached id s.0) e s' refl h)) refl
