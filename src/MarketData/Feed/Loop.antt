-- ===== src/MarketData/Feed/Loop.antt =====
-- What a feed publishes before it ends.
use gen.Prelude.{
  ℕ, zero, suc, ◌<◌, Bool, true, false, ◌≡◌, refl, ap, sym, ◌∙◌, List, [], ◌∷◌, length, Option,
  none, some, Bool-cases, ◌↔◌, ◌⊎◌, inl, inr, if◌then◌else◌, arith,
}
use mathlib.Core.Path.{subst}
use gen.Errors.{Result, ok, raised, Exception}
use gen.Exec.{Exec, lift, >>=-eq-ok, ◌>>◌}
use gen.Schemas.{OrderBookSnapshot}
use gen.MarketData.Feed.{Source, if_given, pass, resume, loop, closed, finished, run}

module _ {F C : Type 0} (source : Source F C) where
  -- Both places that a snapshot goes to, the queue first.
  abbrev pub publish : OrderBookSnapshot F → Exec C (Unit {0})
  publish snapshot =
      if_given source source.queue snapshot >> if_given source source.callback snapshot

  -- From `c` to `d` the snapshots were fetched and published, one after the other, and the feed was not
  -- stopped before any of them.
  abbrev pub Passes : C → List (OrderBookSnapshot F) → C → Type 0
  Passes c [] d = c ≡ d
  Passes c (snapshot ∷ snapshots) d =
      (c1 c2 : C) × (source.is_stopped c ≡ false)
      × (source.fetch_one c ≡ (ok snapshot, c1))
      × (publish snapshot c1 ≡ (ok tt, c2))
      × Passes c2 snapshots d

  -- At `d` the feed is stopped, or a fetch or a publication raises.
  abbrev pub Ends : C → Result (Unit {0}) × C → Type 0
  Ends d t =
      ((source.is_stopped d ≡ true) × (t ≡ (ok tt, d)))
      ⊎ ((source.is_stopped d ≡ false)
          × ((e : Exception) × (d' : C) × (t ≡ (raised e, d')) × (pass source d ≡ t)))

  Outcome : ℕ → C → Result (Unit {0}) × C → Type 0
  Outcome fuel c t =
      (snapshots : List (OrderBookSnapshot F)) × (d : C) × Passes c snapshots d
      × Ends d t
      × (length snapshots < fuel)

  first_pass :
      (fuel : ℕ) (c : C)
      → ((c' : C) (t : Result (Unit {0}) × C) → loop source fuel c' ≡ some t → Outcome fuel c' t)
      → (r : Result (Unit {0})) (c' : C) (t : Result (Unit {0}) × C) → pass source c ≡ (r, c')
      → source.is_stopped c ≡ false
      → resume source (loop source fuel) (r, c') ≡ some t
      → Outcome (suc fuel) c t
  unfolding resume pass Outcome
  first_pass fuel c again (ok _) c' t p going h =
      let (snapshots, d, passes, ends, less) = again c' t h in
      let (snapshot, c1, fetched, published) = >>=-eq-ok source.fetch_one (λ s. publish s) c p in
      (
        snapshot ∷ snapshots,
        d,
        (c1, c', going, fetched, published, passes),
        ends,
        omega (arith, less),
      )
  first_pass fuel c again (raised e) c' t p going h =
      let same : (raised e, c') ≡ t = cc in
      ([], c, refl, inr (going, (e, c', sym same, p ∙ same)), omega arith)

  abbrev turn : ℕ → C → Bool → Option (Result (Unit {0}) × C)
  turn fuel c stopped =
      let next = resume source (loop source fuel) (pass source c) in
      if stopped then some (ok tt, c) else next

  loop-Outcome :
      (fuel : ℕ) (c : C) (t : Result (Unit {0}) × C)
      → loop source fuel c ≡ some t
      → Outcome fuel c t
  unfolding loop Outcome
  loop-Outcome zero c t h = cc
  loop-Outcome (suc fuel) c t h = elim (Bool-cases (source.is_stopped c)) [
    | inl stopped ↦
        let e : some (ok tt, c) ≡ some t = subst (λ b. turn fuel c b ≡ some t) stopped h in
        ([], c, refl, inl (stopped, cc), omega arith)
    | inr going ↦
        first_pass fuel c (loop-Outcome fuel) (pass source c).0 (pass source c).1 t refl going
          (subst (λ b. turn fuel c b ≡ some t) going h)
  ]

  loop-Ends :
      (fuel : ℕ) (d : C) (t : Result (Unit {0}) × C) → Ends d t → loop source (suc fuel) d ≡ some t
  unfolding loop resume
  loop-Ends fuel d t (inl (stopped, same)) = rw (stopped, same) refl
  loop-Ends fuel d t (inr (going, (e, d', same, raises))) = rw (going, raises, same) refl

  loop_enough :
      (fuel : ℕ) (snapshots : List (OrderBookSnapshot F)) (c d : C) (t : Result (Unit {0}) × C)
      → Passes c snapshots d
      → Ends d t
      → length snapshots < fuel
      → loop source fuel c ≡ some t
  unfolding loop resume pass
  loop_enough zero snapshots c d t passes ends less = absurd (omega (arith, less))
  loop_enough (suc fuel) [] c d t same ends less = rw same (loop-Ends fuel d t ends)
  loop_enough (suc fuel) (s ∷ rest) c d t (c1, c2, going, fetched, published, passes) ends less =
      rw (going, fetched, published)
        (loop_enough fuel rest c2 d t passes ends (omega (arith, less)))

  closed_lem : (t : Result (Unit {0}) × C) → closed source t ≡ (source.close >> lift t.0) t.1
  unfolding closed
  closed_lem (r, c) = by_close (source.close c).0 (source.close c).1 refl
    where
      by_close :
          (q : Result (Unit {0})) (c' : C)
          → source.close c ≡ (q, c')
          → closed source (r, c) ≡ (source.close >> lift r) c
      by_close (ok _) c' e = rw e refl
      by_close (raised x) c' e = rw e refl

  -- With some fuel `run` comes to `s` exactly where fewer snapshots than that were fetched and published
  -- in turn, the queue before the callback, then the feed was found stopped or a fetch or a publication
  -- raised, and `s` is that end with `close` run once after it, whose exception takes the place of the result.
  pub run_iff :
      (fuel : ℕ) (c : C) (s : Result (Unit {0}) × C)
      → (run source fuel c ≡ some s) ↔ (
          (snapshots : List (OrderBookSnapshot F)) × (d : C) × (t : Result (Unit {0}) × C) × Passes
            c snapshots d
          × Ends d t
          × (length snapshots < fuel)
          × (s ≡ (source.close >> lift t.0) t.1))
  unfolding run finished Outcome
  run_iff fuel c s = (
    by_loop (loop source fuel c) refl,
    λ (snapshots, d, t, passes, ends, less, same).
        rw (loop_enough fuel snapshots c d t passes ends less, same) (ap some (closed_lem t)),
  )
    where
      by_loop :
          (l : Option (Result (Unit {0}) × C))
          → loop source fuel c ≡ l
          → run source fuel c ≡ some s
          → (snapshots : List (OrderBookSnapshot F)) × (d : C) × (t : Result (Unit {0}) × C)
            × Passes c snapshots d
            × Ends d t
            × (length snapshots < fuel)
            × (s ≡ (source.close >> lift t.0) t.1)
      by_loop none e h = absurd (cc (h, ap (finished source) e))
      by_loop (some t) e h =
          let (snapshots, d, passes, ends, less) = loop-Outcome fuel c t e in
          let same : some (closed source t) ≡ some s = sym (ap (finished source) e) ∙ h in
          (snapshots, d, t, passes, ends, less, cc (same, closed_lem t))
