-- ===== src/Security/KeyValidation/Entries.antt =====
-- The names that a payload grants, as a list of entries of which the last of a name decides.
use gen.Prelude.{
  Bool, true, List, [], ◌∷◌, ◌++◌, String, str_eq, str_eq_iff, ◌≡◌, ◌≢◌, ◌⊎◌, inl, inr, ◌↔◌, refl,
  sym, ◌∙◌, ap, All, arith, Bool-cases, Any,
}
use gen.Security.KeyValidation.{
  Name, text, other, Value, dict, items, scalar, Payload, Permissions, add, add_dict, add_items,
  add_value, normalize_from, normalize_permissions, get, flag_from_aliases,
}

module _ (clean : String → String) where
  -- The entries of a payload in the order in which they are written, under their cleaned names.
  abbrev named : Name → Bool → List (String × Bool)
  named (text name) value = (clean name, value) ∷ []
  named other value = []

  abbrev dict_entries : List (Name × Bool) → List (String × Bool)
  dict_entries [] = []
  dict_entries ((key, value) ∷ rest) = named key value ++ dict_entries rest

  abbrev item_entries : List Name → List (String × Bool)
  item_entries [] = []
  item_entries (item ∷ rest) = named item true ++ item_entries rest

  abbrev value_entries : Name → Value → List (String × Bool)
  value_entries key (dict es) = dict_entries es
  value_entries key (items names) = item_entries names
  value_entries key (scalar value) = named key value

  abbrev pub entries : Payload → List (String × Bool)
  entries [] = []
  entries ((key, value) ∷ rest) = value_entries key value ++ entries rest

-- The last entry of the name is there, and is true.
abbrev pub Says : List (String × Bool) → String → Type 0
Says [] name = ⊥
Says (e ∷ es) name = Says es name ⊎ ((e ≡ (name, true)) × All (λ later. later.0 ≢ name) es)

-- Some alias is granted.
abbrev pub IsGranted : List (String × Bool) → List String → Type 0
IsGranted es aliases = Any (Says es) aliases

-- Writing entries one by one.
abbrev write : Permissions → List (String × Bool) → Permissions
write d [] = d
write d (e ∷ es) = write (e ∷ d) es

write-append :
    (d : Permissions) (xs ys : List (String × Bool)) → write d (xs ++ ys) ≡ write (write d xs) ys
write-append d [] ys = refl
write-append d (x ∷ xs) ys = write-append (x ∷ d) xs ys

module _ (clean : String → String) where
  add-write : (d : Permissions) (n : Name) (b : Bool) → add clean d n b ≡ write d (named clean n b)
  unfolding add
  add-write d (text n) b = refl
  add-write d other b = refl

  add_dict-write :
      (d : Permissions) (es : List (Name × Bool))
      → add_dict clean d es ≡ write d (dict_entries clean es)
  unfolding add_dict
  add_dict-write d [] = refl
  add_dict-write d ((k, v) ∷ es) =
      add_dict-write (add clean d k v) es
      ∙ ap (λ t. write t (dict_entries clean es)) (add-write d k v)
      ∙ sym (write-append d (named clean k v) (dict_entries clean es))

  add_items-write :
      (d : Permissions) (ns : List Name) → add_items clean d ns ≡ write d (item_entries clean ns)
  unfolding add_items
  add_items-write d [] = refl
  add_items-write d (n ∷ ns) =
      add_items-write (add clean d n true) ns
      ∙ ap (λ t. write t (item_entries clean ns)) (add-write d n true)
      ∙ sym (write-append d (named clean n true) (item_entries clean ns))

  add_value-write :
      (d : Permissions) (k : Name) (v : Value)
      → add_value clean d k v ≡ write d (value_entries clean k v)
  unfolding add_value
  add_value-write d k (dict es) = add_dict-write d es
  add_value-write d k (items ns) = add_items-write d ns
  add_value-write d k (scalar b) = add-write d k b

  normalize_from-write :
      (d : Permissions) (p : Payload) → normalize_from clean d p ≡ write d (entries clean p)
  unfolding normalize_from
  normalize_from-write d [] = refl
  normalize_from-write d ((k, v) ∷ p) =
      normalize_from-write (add_value clean d k v) p
      ∙ ap (λ t. write t (entries clean p)) (add_value-write d k v)
      ∙ sym (write-append d (value_entries clean k v) (entries clean p))

get-cons-same : (n : String) (b : Bool) (d : Permissions) → get ((n, b) ∷ d) n ≡ b
unfolding get
get-cons-same n b d = rw ((str_eq_iff n n).1 refl)

get-cons-other :
    (n name : String) (b : Bool) (d : Permissions) → n ≢ name → get ((n, b) ∷ d) name ≡ get d name
unfolding get
get-cons-other n name b d h = elim (Bool-cases (str_eq n name)) [
  | inl same ↦ absurd (h ((str_eq_iff n name).0 same))
  | inr differs ↦ rw differs
]

-- A name reads as true after the entries if they say so, or if they do not mention it and it did
-- before.
get-write_to :
    (d : Permissions) (es : List (String × Bool)) (name : String)
    → get (write d es) name ≡ true
    → Says es name ⊎ (All (λ e. e.0 ≢ name) es × (get d name ≡ true))
get-write_to d [] name h = inr (tt, h)
get-write_to d ((n, b) ∷ es) name h = elim (get-write_to ((n, b) ∷ d) es name h) [
  | inl said ↦ inl (inl said)
  | inr (unsaid, before) ↦ elim (Bool-cases (str_eq n name)) [
    | inl same ↦
        let e : n ≡ name = (str_eq_iff n name).0 same in
        let v : b ≡ true = sym (get-cons-same n b d) ∙ ap (λ t. get ((n, b) ∷ d) t) e ∙ before in
        inl (inr (ap (λ t. (t, b)) e ∙ ap (λ t. (name, t)) v, unsaid))
    | inr differs ↦
        let ne : n ≢ name = λ e. cc ((str_eq_iff n name).1 e, differs) in
        inr ((ne, unsaid), sym (get-cons-other n name b d ne) ∙ before)
  ]
]

get-write_unsaid :
    (d : Permissions) (es : List (String × Bool)) (name : String)
    → All (λ e. e.0 ≢ name) es
    → get (write d es) name ≡ get d name
get-write_unsaid d [] name h = refl
get-write_unsaid d ((n, b) ∷ es) name h =
    get-write_unsaid ((n, b) ∷ d) es name h.1 ∙ get-cons-other n name b d h.0

get-write_from :
    (d : Permissions) (es : List (String × Bool)) (name : String)
    → Says es name
    → get (write d es) name ≡ true
get-write_from d [] name said = absurd said
get-write_from d (e ∷ es) name (inl said) = get-write_from (e ∷ d) es name said
get-write_from d ((n, b) ∷ es) name (inr (e, unsaid)) =
    get-write_unsaid ((n, b) ∷ d) es name unsaid ∙ rw e (get-cons-same name true d)

get-normalize_iff :
    (clean : String → String) (p : Payload) (name : String)
    → (get (normalize_permissions clean p) name ≡ true) ↔ Says (entries clean p) name
unfolding normalize_permissions get
get-normalize_iff clean p name = (
  λ h.
      elim (get-write_to [] (entries clean p) name
        (ap (λ d. get d name) (sym (normalize_from-write clean [] p)) ∙ h)) [
          | inl said ↦ said
          | inr (unsaid, nothing) ↦ absurd (cc nothing)
        ],
  λ said.
      ap (λ d. get d name) (normalize_from-write clean [] p)
      ∙ get-write_from [] (entries clean p) name said,
)

-- A flag of the report is set exactly if the payload grants one of its aliases.
pub flag-IsGranted :
    (clean : String → String) (p : Payload) (aliases : List String)
    → (flag_from_aliases (normalize_permissions clean p) aliases ≡ true)
      ↔ IsGranted (entries clean p) aliases
unfolding flag_from_aliases
flag-IsGranted clean p [] = (λ h. cc h, λ x. absurd x)
flag-IsGranted clean p (a ∷ rest) =
    ground (arith, get-normalize_iff clean p a, flag-IsGranted clean p rest)
