-- ===== src/Exec.antt =====
-- Methods of an object with state `S`: they may raise, and what was written before a raise stays
-- written, so the state comes back beside the exception too. `asyncio.gather` of two such methods
-- runs them in one of the two orders.
use gen.Prelude.{Bool, true, false, ◌≡◌, refl, ap, arith}
use gen.Errors.{Result, ok, raised}

abbrev pub Exec {ℓ} : Type ℓ → Type ℓ → Type ℓ
Exec S A = S → Result A × S

module _ {ℓ} {S A : Type ℓ} where
  abbrev pub pure : A → Exec S A
  pure a s = (ok a, s)

  abbrev pub lift : Result A → Exec S A
  lift r s = (r, s)

module _ {ℓ} {S A B : Type ℓ} where
  abbrev pub continue : Result A → (A → Exec S B) → Exec S B
  continue (ok a) f s = f a s
  continue (raised e) f s = (raised e, s)

  infixl 5 ◌>>=◌
  abbrev pub ◌>>=◌ : Exec S A → (A → Exec S B) → Exec S B
  ◌>>=◌ m f s = let (r, s') = m s in continue r f s'

  infixl 5 ◌>>◌
  abbrev pub ◌>>◌ : Exec S A → Exec S B → Exec S B
  m >> n = m >>= λ _. n

  -- A chain that returned had a first step that returned.
  pub >>=-eq-ok :
      (m : Exec S A) (f : A → Exec S B) (s : S) {b : B} {s'' : S}
      → (m >>= f) s ≡ (ok b, s'')
      → (a : A) × (s' : S) × (m s ≡ (ok a, s')) × (f a s' ≡ (ok b, s''))
  >>=-eq-ok m f s e = split (m s).0 (m s).1 refl e
    where
      split :
          (r : Result A) (s' : S) {b : B} {s'' : S}
          → m s ≡ (r, s')
          → continue r f s' ≡ (ok b, s'')
          → (a : A) × (t : S) × (m s ≡ (ok a, t)) × (f a t ≡ (ok b, s''))
      split (ok a) s' first rest = (a, s', first, rest)
      split (raised e) s' first rest = cc

module _ {ℓ} {A B : Type ℓ} where
  abbrev both : Result A → Result B → Result (A × B)
  both (ok a) (ok b) = ok (a, b)
  both (raised e) _ = raised e
  both (ok a) (raised e) = raised e

  abbrev both_swapped : Result A → Result B → Result (A × B)
  both_swapped (ok a) (ok b) = ok (a, b)
  both_swapped _ (raised e) = raised e
  both_swapped (raised e) (ok b) = raised e

  both-eq-ok :
      (p : Result A) (q : Result B) {a : A} {b : B} → both p q ≡ ok (a, b) → (p ≡ ok a) × (q ≡ ok b)
  both-eq-ok (ok a) (ok b) e = ground arith
  both-eq-ok (raised x) q e = cc
  both-eq-ok (ok a) (raised x) e = cc

  both_swapped-eq-ok :
      (p : Result A) (q : Result B) {a : A} {b : B}
      → both_swapped p q ≡ ok (a, b)
      → (p ≡ ok a) × (q ≡ ok b)
  both_swapped-eq-ok (ok a) (ok b) e = ground arith
  both_swapped-eq-ok (raised x) (ok b) e = cc
  both_swapped-eq-ok (ok a) (raised x) e = cc
  both_swapped-eq-ok (raised y) (raised x) e = cc

module _ {ℓ} {S A B : Type ℓ} where
  -- `await asyncio.gather(m, n)`: the first exception in time is raised, and the other method has
  -- still run. `swapped` says that `n` was the one to run first.
  unfoldable pub gather : Bool → Exec S A → Exec S B → Exec S (A × B)
  gather false m n s = let (a, s') = m s in let (b, s'') = n s' in (both a b, s'')
  gather true m n s = let (b, s') = n s in let (a, s'') = m s' in (both_swapped a b, s'')

  -- Where both methods returned, each did so from some state in between.
  pub gather-eq-ok :
      (swapped : Bool) (m : Exec S A) (n : Exec S B) (s : S) {a : A} {b : B} {s' : S}
      → gather swapped m n s ≡ (ok (a, b), s')
      → ((t : S) × (u : S) × (m t ≡ (ok a, u))) × ((t : S) × (u : S) × (n t ≡ (ok b, u)))
  unfolding gather
  gather-eq-ok false m n s e =
      let (p, q) = both-eq-ok (m s).0 (n (m s).1).0 (ap (λ t. t.0) e) in
      (
        (s, (m s).1, ap (λ t. (t, (m s).1)) p),
        ((m s).1, (n (m s).1).1, ap (λ t. (t, (n (m s).1).1)) q),
      )
  gather-eq-ok true m n s e =
      let (p, q) = both_swapped-eq-ok (m (n s).1).0 (n s).0 (ap (λ t. t.0) e) in
      (
        ((n s).1, (m (n s).1).1, ap (λ t. (t, (m (n s).1).1)) p),
        (s, (n s).1, ap (λ t. (t, (n s).1)) q),
      )

-- The order in time in which three concurrent methods took effect, by their positions in the call.
pub data Arrival : Type 0 where
  abc acb bac bca cab cba : Arrival

module _ {ℓ} {A : Type ℓ} where
  abbrev triple : Result A → Result A → Result A → Result (A × A × A)
  triple (raised e) _ _ = raised e
  triple (ok a) (raised e) _ = raised e
  triple (ok a) (ok b) (raised e) = raised e
  triple (ok a) (ok b) (ok c) = ok (a, b, c)

module _ {ℓ} {S A : Type ℓ} where
  -- The method returns from every state.
  abbrev pub Returns : Exec S A → Type ℓ
  Returns m = (s : S) → (a : A) × (s' : S) × (m s ≡ (ok a, s'))

module _ {ℓ} {S A : Type ℓ} where
  abbrev pub in_turn : Exec S A → Exec S A → Exec S A → Exec S (A × A × A)
  in_turn m n o s =
      let (a, s1) = m s in let (b, s2) = n s1 in let (c, s3) = o s2 in (triple a b c, s3)

  abbrev reorder : (A × A × A → A × A × A) → Result (A × A × A) × S → Result (A × A × A) × S
  reorder f (ok t, s) = (ok (f t), s)
  reorder f (raised e, s) = (raised e, s)

  -- `await asyncio.gather(m, n, o)`: all three run, and the first exception in time is raised.
  unfoldable pub gather_three : Arrival → Exec S A → Exec S A → Exec S A → Exec S (A × A × A)
  gather_three abc m n o s = in_turn m n o s
  gather_three acb m n o s = reorder (λ (a, c, b). (a, b, c)) (in_turn m o n s)
  gather_three bac m n o s = reorder (λ (b, a, c). (a, b, c)) (in_turn n m o s)
  gather_three bca m n o s = reorder (λ (b, c, a). (a, b, c)) (in_turn n o m s)
  gather_three cab m n o s = reorder (λ (c, a, b). (a, b, c)) (in_turn o m n s)
  gather_three cba m n o s = reorder (λ (c, b, a). (a, b, c)) (in_turn o n m s)

  in_turn-Returns : (m n o : Exec S A) → Returns m → Returns n → Returns o → Returns (in_turn m n o)
  in_turn-Returns m n o hm hn ho s =
      let (a, s1, e1) = hm s in
      let (b, s2, e2) = hn s1 in let (c, s3, e3) = ho s2 in ((a, b, c), s3, rw (e1, e2, e3))

  pub gather_three-Returns :
      (arrival : Arrival) (m n o : Exec S A)
      → Returns m
      → Returns n
      → Returns o
      → Returns (gather_three arrival m n o)
  unfolding gather_three
  gather_three-Returns abc m n o hm hn ho s = in_turn-Returns m n o hm hn ho s
  gather_three-Returns acb m n o hm hn ho s =
      let ((a, c, b), s', e) = in_turn-Returns m o n hm ho hn s in ((a, b, c), s', rw e)
  gather_three-Returns bac m n o hm hn ho s =
      let ((b, a, c), s', e) = in_turn-Returns n m o hn hm ho s in ((a, b, c), s', rw e)
  gather_three-Returns bca m n o hm hn ho s =
      let ((b, c, a), s', e) = in_turn-Returns n o m hn ho hm s in ((a, b, c), s', rw e)
  gather_three-Returns cab m n o hm hn ho s =
      let ((c, a, b), s', e) = in_turn-Returns o m n ho hm hn s in ((a, b, c), s', rw e)
  gather_three-Returns cba m n o hm hn ho s =
      let ((c, b, a), s', e) = in_turn-Returns o n m ho hn hm s in ((a, b, c), s', rw e)

module _ {ℓ} {S A B : Type ℓ} where
  pub >>=-Returns :
      (m : Exec S A) (f : A → Exec S B) → Returns m → ((a : A) → Returns (f a)) → Returns (m >>= f)
  >>=-Returns m f hm hf s =
      let (a, s1, e1) = hm s in let (b, s2, e2) = hf a s1 in (b, s2, rw (e1, e2))

  pub gather-Returns :
      (swapped : Bool) (m : Exec S A) (n : Exec S B)
      → Returns m
      → Returns n
      → Returns (gather swapped m n)
  unfolding gather
  gather-Returns false m n hm hn s =
      let (a, s1, e1) = hm s in let (b, s2, e2) = hn s1 in ((a, b), s2, rw (e1, e2))
  gather-Returns true m n hm hn s =
      let (b, s1, e1) = hn s in let (a, s2, e2) = hm s1 in ((a, b), s2, rw (e1, e2))
