-- ===== src/Db/Repository/Tests.antt =====
-- A table of users in memory.
use gen.Prelude.{ℕ, ◌≡◌, refl, List, [], ◌∷◌, ◌++◌, length, arith}
use gen.Errors.{ok, raised, not_implemented_error}
use gen.Exec.{Exec}
use gen.Num.Int.{ℤ}
use gen.Db.Models.{User}
use gen.Db.Repository.{
  NewRow, new_user, new_account, new_execution, Session, get_or_create_user_by_email,
}
use gen.Db.Repository.Users.{with_email, HasUsers, get_or_create_idempotent}

abbrev Table : Type 0
Table = List (User ℕ ℕ)

abbrev add : NewRow ℤ ℕ → Exec Table (User ℕ ℕ)
add (new_user email) users =
    let u : User ℕ ℕ = record { id = length users; email = email; created_at = 0 } in
    (ok u, users ++ u ∷ [])
add (new_account _ _ _ _ _) users = (raised not_implemented_error, users)
add (new_execution _ _ _ _ _ _ _ _ _ _) users = (raised not_implemented_error, users)

abbrev memory : Session ℤ ℕ ℕ (User ℕ ℕ) Table
memory = record {
  users_with = λ email users. (ok (with_email email users), users);
  executions_of = λ user_id limit users. (ok [], users);
  add = add;
  commit = λ users. (ok tt, users);
  refresh_user = λ u users. (ok u, users);
  refresh_account = λ u users. (raised not_implemented_error, users);
}

memory-HasUsers : HasUsers memory (λ users. users)
memory-HasUsers = record {
  found = λ email c. refl;
  inserted = λ email c added committed refreshed. ground (arith, added, committed, refreshed);
}

abbrev ana : User ℕ ℕ
ana = record { id = 1; email = "ana@x"; created_at = 0 }

abbrev before : Table
before = record { id = 0; email = "bo@x"; created_at = 0 } ∷ []

made : get_or_create_user_by_email memory "ana@x" before ≡ (ok ana, before ++ ana ∷ [])
unfolding get_or_create_user_by_email
made = refl

get_or_create_idempotent_example :
    (with_email "ana@x" (before ++ ana ∷ []) ≡ ana ∷ [])
    × (get_or_create_user_by_email memory "ana@x" (before ++ ana ∷ [])
        ≡ (ok ana, before ++ ana ∷ []))
get_or_create_idempotent_example =
    get_or_create_idempotent memory (λ users. users) memory-HasUsers "ana@x" before made
