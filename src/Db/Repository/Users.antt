-- ===== src/Db/Repository/Users.antt =====
-- The user of an email address.
use gen.Prelude.{
  ◌≡◌, refl, sym, ◌∙◌, List, [], ◌∷◌, ◌++◌, String, str_eq, str_eq_iff, ◌⊎◌, inl, inr,
  if◌then◌else◌, arith,
}
use gen.Errors.{ok}
use gen.Exec.{Exec, lift, ◌>>=◌, >>=-eq-ok}
use gen.Db.Models.{User}
use gen.Db.Repository.{
  new_user, Session, scalar_one_or_none, create_user, user_or_new, get_or_create_user_by_email,
}

module _ {U T : Type 0} where
  -- The rows with an email address, in their order.
  abbrev pub with_email : String → List (User U T) → List (User U T)
  with_email email [] = []
  with_email email (u ∷ users) =
      let rest = with_email email users in if str_eq u.email email then u ∷ rest else rest

  with_email-append :
      (email : String) (users : List (User U T)) (u : User U T)
      → with_email email users ≡ []
      → u.email ≡ email
      → with_email email (users ++ u ∷ []) ≡ u ∷ []
  with_email-append email [] u h e = rw ((str_eq_iff u.email email).1 e) refl
  with_email-append email (v ∷ users) u h e = ground (arith, with_email-append email users u)

module _ {F U T H C : Type 0} (session : Session F U T H C) (users : C → List (User U T)) where
  -- What the database promises of the table `users`: a query finds the rows, and changes none; the row
  -- of an object that was added, committed and read again is there, with its email address.
  pub record HasUsers : Type 0 where
    pub found :
        (email : String) (c : C) → session.users_with email c ≡ (ok (with_email email (users c)), c)
    pub inserted :
        (email : String) (c : C) {h : H} {c1 c2 c3 : C} {u : User U T}
        → session.add (new_user email) c ≡ (ok h, c1)
        → session.commit c1 ≡ (ok tt, c2)
        → session.refresh_user h c2 ≡ (ok u, c3)
        → (u.email ≡ email) × (users c3 ≡ users c ++ u ∷ [])

  module _ (table : HasUsers) where
    pick : String → List (User U T) → Exec C (User U T)
    pick email l = lift (scalar_one_or_none l) >>= user_or_new session email

    picked :
        (email : String) (c : C)
        → get_or_create_user_by_email session email c ≡ pick email (with_email email (users c)) c
    unfolding get_or_create_user_by_email pick
    picked email c = rw (table.found email c) refl

    pick-eq-ok :
        (email : String) (l : List (User U T)) (c : C) {u : User U T} {c' : C}
        → pick email l c ≡ (ok u, c')
        → ((l ≡ u ∷ []) × (c' ≡ c)) ⊎ ((l ≡ []) × (create_user session email c ≡ (ok u, c')))
    unfolding pick scalar_one_or_none user_or_new
    pick-eq-ok email [] c e = inr (refl, e)
    pick-eq-ok email (v ∷ []) c e = ground arith
    pick-eq-ok email (v ∷ w ∷ rest) c e = cc

    created :
        (email : String) (c : C) {u : User U T} {c' : C}
        → create_user session email c ≡ (ok u, c')
        → (u.email ≡ email) × (users c' ≡ users c ++ u ∷ [])
    unfolding create_user
    created email c e =
        let (h, c1, added, rest) = >>=-eq-ok (session.add (new_user email)) _ c e in
        let (done, c2, committed, refreshed) = >>=-eq-ok session.commit _ c1 rest in
        table.inserted email c added committed refreshed

    there :
        (email : String) (c : C) {u : User U T} {c' : C}
        → get_or_create_user_by_email session email c ≡ (ok u, c')
        → with_email email (users c') ≡ u ∷ []
    there email c e =
        elim (pick-eq-ok email (with_email email (users c)) c (sym (picked email c) ∙ e)) [
          | inl (one, same) ↦ rw same one
          | inr (no_user, made) ↦
              let (named, grown) = created email c made in
              rw grown (with_email-append email (users c) _ no_user named)
        ]

    -- After the user of an email address was got or created, the table holds exactly that one user with
    -- the address, and getting it again returns the same user and changes nothing.
    pub get_or_create_idempotent :
        (email : String) (c : C) {u : User U T} {c' : C}
        → get_or_create_user_by_email session email c ≡ (ok u, c')
        → (with_email email (users c') ≡ u ∷ [])
          × (get_or_create_user_by_email session email c' ≡ (ok u, c'))
    unfolding pick scalar_one_or_none user_or_new
    get_or_create_idempotent email c e =
        let one = there email c e in (one, picked email _ ∙ rw one refl)
