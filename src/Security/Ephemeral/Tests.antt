-- ===== src/Security/Ephemeral/Tests.antt =====
-- A scope whose body appends a byte and raises.
use gen.Prelude.{ℕ, [], ◌∷◌, ◌++◌, ◌≡◌, refl}
use gen.Errors.{raised, exchange_error}
use gen.Exec.{Exec}
use gen.Security.Envelope.{Bytes}
use gen.Security.Envelope.Authentic.{IsSealed}
use gen.Security.Envelope.Tests.{plain, toy, key, stored}
use gen.Security.Ephemeral.{ephemeral_secret}
use gen.Security.Ephemeral.Zeroed.{zeros, ephemeral_secret-zeroed}

abbrev failing : Exec (Bytes × ℕ) ℕ
failing (buffer, s) = (raised exchange_error, (buffer ++ 9 ∷ [], 4))

ephemeral_secret-zeroed_example :
    (IsSealed plain toy stored key (65 ∷ 66 ∷ [])
      → ephemeral_secret plain toy failing stored key 3 ≡ (raised exchange_error, (zeros 3, 4)))
    × ((¬ ((p : Bytes) × IsSealed plain toy stored key p))
        → (ephemeral_secret plain toy failing stored key 3).1 ≡ ([], 3))
ephemeral_secret-zeroed_example =
    ephemeral_secret-zeroed plain toy failing stored key (65 ∷ 66 ∷ []) 3 refl
