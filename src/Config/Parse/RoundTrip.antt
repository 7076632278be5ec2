-- ===== src/Config/Parse/RoundTrip.antt =====
-- Lists of pairs and triangles in the format of the environment.
use Prim.Native.Char.{Char, code}
use Prim.Native.String.{[], ◌∷◌, ◌++◌ as concat}
use text.Mathlib.TextLemmas.{nil-append, cons-append}
use gen.Prelude.{
  ℕ, Bool, true, false, not, ◌&&◌, List, [], ◌∷◌, String, ◌==◌, ◌≡◌, refl, ap, ◌∙◌, All, map, arith,
}
use gen.Errors.{Result, ok}
use gen.Execution.Triangular.{TriangleConfig}
use gen.Config.{PairConfig}
use gen.Config.Parse.{
  is_space, is_empty, lstrip, rstrip, strip, longer, split, pair_of, triangle_of, parse_chunks,
  parse_monitored_pairs, parse_monitored_triangles,
}

-- No character of the text has the property.
abbrev free : (ℕ → Bool) → String → Bool
free p [] = true
free p (c ∷ s) = not (p (code c)) && free p s

free-concat :
    (p : ℕ → Bool) (s t : String) → free p s ≡ true → free p t ≡ true → free p (concat s t) ≡ true
free-concat p [] t h k = rw nil-append k
free-concat p (c ∷ s) t h k = rw cons-append (ground (arith, free-concat p s t))

lstrip-free : (s : String) → free is_space s ≡ true → lstrip s ≡ s
unfolding lstrip
lstrip-free [] h = refl
lstrip-free (c ∷ s) h = ground arith

rstrip-free : (s : String) → free is_space s ≡ true → rstrip s ≡ s
unfolding rstrip
rstrip-free [] h = refl
rstrip-free (c ∷ s) h = ground (arith, rstrip-free s)

strip-free : (s : String) → free is_space s ≡ true → strip s ≡ s
unfolding strip
strip-free s h = rw (rstrip-free s h) (lstrip-free s h)

split-free : (sep : ℕ) (s : String) → free (λ n. n == sep) s ≡ true → split sep s ≡ s ∷ []
unfolding split longer
split-free sep [] h = refl
split-free sep (c ∷ s) h = ground (arith, split-free sep s)

split-concat :
    (sep : ℕ) (c : Char) (s t : String)
    → (code c == sep) ≡ true
    → free (λ n. n == sep) s ≡ true
    → split sep (concat s (c ∷ t)) ≡ s ∷ split sep t
unfolding split longer
split-concat sep c [] t e h = rw (nil-append, e) refl
split-concat sep c (d ∷ s) t e h = rw cons-append (ground (arith, split-concat sep c s t e))

-- A name: no comma, no colon and no white space in it.
abbrev pub is_word : String → Bool
is_word s = free (λ n. n == 44) s && free (λ n. n == 58) s && free is_space s

abbrev pub joined : Char → List String → String
joined c [] = ""
joined c (s ∷ []) = s
joined c (s ∷ t ∷ rest) = concat s (c ∷ joined c (t ∷ rest))

free-joined :
    (p : ℕ → Bool) (c : Char) (parts : List String)
    → p (code c) ≡ false
    → All (λ s. free p s ≡ true) parts
    → free p (joined c parts) ≡ true
free-joined p c [] e h = refl
free-joined p c (s ∷ []) e (h, _) = h
free-joined p c (s ∷ t ∷ rest) e (h, k) =
    free-concat p s (c ∷ joined c (t ∷ rest)) h (ground (arith, free-joined p c (t ∷ rest) e k))

split-joined :
    (sep : ℕ) (c : Char) (s : String) (rest : List String)
    → (code c == sep) ≡ true
    → All (λ t. free (λ n. n == sep) t ≡ true) (s ∷ rest)
    → split sep (joined c (s ∷ rest)) ≡ s ∷ rest
split-joined sep c s [] e (h, _) = split-free sep s h
split-joined sep c s (t ∷ rest) e (h, k) =
    split-concat sep c s (joined c (t ∷ rest)) e h
    ∙ ap (λ parts. s ∷ parts) (split-joined sep c t rest e k)

joined_not_empty :
    (c : Char) (s t : String) (rest : List String) → is_empty (joined c (s ∷ t ∷ rest)) ≡ false
joined_not_empty c [] t rest = rw nil-append refl
joined_not_empty c (d ∷ s) t rest = rw cons-append refl

All-mono :
    (P Q : String → Type 0) (xs : List String) → ((s : String) → P s → Q s) → All P xs → All Q xs
All-mono P Q [] f h = tt
All-mono P Q (x ∷ xs) f (h, k) = (f x h, All-mono P Q xs f k)

-- An entry is its fields, two at least, with colons between them.
module _ {A : Type 0} (entry : List String → Result A) (first second : A → String)
    (others : A → List String) where
  abbrev fields : A → List String
  fields x = first x ∷ second x ∷ others x

  abbrev pub AreWords : A → Type 0
  AreWords x = All (λ s. is_word s ≡ true) (fields x)

  abbrev pub entry_text : A → String
  entry_text x = joined ":" (fields x)

  free-entry_text :
      (p : ℕ → Bool) (x : A)
      → p 58 ≡ false
      → ((s : String) → is_word s ≡ true → free p s ≡ true)
      → AreWords x
      → free p (entry_text x) ≡ true
  free-entry_text p x e f h =
      free-joined p ":" (fields x) e
        (All-mono (λ s. is_word s ≡ true) (λ s. free p s ≡ true) (fields x) f h)

  split-entry_text : (x : A) → AreWords x → split 58 (entry_text x) ≡ fields x
  split-entry_text x h = split-joined 58 ":" (first x) (second x ∷ others x) refl (
      All-mono (λ s. is_word s ≡ true) (λ s. free (λ n. n == 58) s ≡ true) (fields x)
        (λ s w. ground arith) h)

  strip-entry_text : (x : A) → AreWords x → strip (entry_text x) ≡ entry_text x
  unfolding is_space
  strip-entry_text x h =
      strip-free (entry_text x) (free-entry_text is_space x refl (λ s w. ground arith) h)

  module _ (read : (x : A) → entry (fields x) ≡ ok x) where
    parse_chunks-entries :
        (xs : List A) → All AreWords xs → parse_chunks entry (map entry_text xs) ≡ ok xs
    unfolding parse_chunks
    parse_chunks-entries [] h = refl
    parse_chunks-entries (x ∷ xs) (h, k) =
        rw
          (
            strip-entry_text x h,
            joined_not_empty ":" (first x) (second x) (others x),
            split-entry_text x h,
            read x,
            parse_chunks-entries xs k,
          )
          refl

    entries-free :
        (xs : List A)
        → All AreWords xs
        → All (λ t. free (λ n. n == 44) t ≡ true) (map entry_text xs)
    entries-free [] h = tt
    entries-free (x ∷ xs) (h, k) =
        (free-entry_text (λ n. n == 44) x refl (λ s w. ground arith) h, entries-free xs k)

    pub parse-joined :
        (xs : List A)
        → All AreWords xs
        → parse_chunks entry (split 44 (joined "," (map entry_text xs))) ≡ ok xs
    unfolding split parse_chunks
    parse-joined [] h = refl
    parse-joined (x ∷ xs) h =
        rw (split-joined 44 "," (entry_text x) (map entry_text xs) refl (entries-free (x ∷ xs) h))
          (parse_chunks-entries (x ∷ xs) h)

-- The entry of a pair, SYMBOL:exchange_buy:exchange_sell.
abbrev pub pair_fields : PairConfig → List String
pair_fields p = p.symbol ∷ p.exchange_buy ∷ p.exchange_sell ∷ []

-- The entry of a triangle, QUOTE:BRIDGE:TARGET:exchange.
abbrev pub triangle_fields : TriangleConfig → List String
triangle_fields t = t.quote ∷ t.bridge ∷ t.target ∷ t.exchange ∷ []

-- Pairs whose names have no comma, colon or white space are read back in their order from their
-- entries with commas between them.
pub parse_monitored_pairs-joined :
    (pairs : List PairConfig)
    → All (λ p. All (λ s. is_word s ≡ true) (pair_fields p)) pairs
    → parse_monitored_pairs (joined "," (map (λ p. joined ":" (pair_fields p)) pairs)) ≡ ok pairs
unfolding parse_monitored_pairs pair_of
parse_monitored_pairs-joined pairs h =
    parse-joined pair_of (λ p. p.symbol) (λ p. p.exchange_buy) (λ p. p.exchange_sell ∷ [])
      (λ p. refl) pairs h

-- Triangles whose names have no comma, colon or white space are read back in their order from their
-- entries with commas between them.
pub parse_monitored_triangles-joined :
    (triangles : List TriangleConfig)
    → All (λ t. All (λ s. is_word s ≡ true) (triangle_fields t)) triangles
    → parse_monitored_triangles (joined "," (map (λ t. joined ":" (triangle_fields t)) triangles))
      ≡ ok triangles
unfolding parse_monitored_triangles triangle_of
parse_monitored_triangles-joined triangles h =
    parse-joined triangle_of (λ t. t.quote) (λ t. t.bridge) (λ t. t.target ∷ t.exchange ∷ [])
      (λ t. refl) triangles h
