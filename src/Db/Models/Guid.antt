-- ===== src/Db/Models/Guid.antt =====
-- Ids through the column type.
use gen.Prelude.{Bool, true, false, ◌≡◌, refl, some, String}
use gen.Errors.{ok}
use gen.Db.Models.{
  Uuid, GuidValue, missing, uuid, text_value, process_bind_param, process_result_value,
}

module _ {U : Type 0} (module_uuid : Uuid U) where
  -- The id that a parameter stands for: itself, or the one that its text spells.
  abbrev pub Denotes : GuidValue U → U → Type 0
  Denotes missing u = ⊥
  Denotes (uuid v) u = v ≡ u
  Denotes (text_value s) u = module_uuid.of_text s ≡ ok u

  -- With either dialect a parameter that stands for an id is bound as a text, and that text, or the id
  -- itself if the driver converts it, is read back as the id.
  pub process_result_value-process_bind_param :
      (postgresql : Bool) (value : GuidValue U) (u : U)
      → Denotes value u
      → (s : String) × (process_bind_param module_uuid postgresql value ≡ ok (some s))
        × (process_result_value module_uuid (text_value s) ≡ ok (some u))
        × (process_result_value module_uuid (uuid u) ≡ ok (some u))
  unfolding process_bind_param process_result_value
  process_result_value-process_bind_param postgresql missing u h = absurd h
  process_result_value-process_bind_param postgresql (uuid v) u h =
      (module_uuid.to_text v, refl, rw (h, module_uuid.of_text-to_text u) refl, refl)
  process_result_value-process_bind_param true (text_value s) u h = (s, refl, rw h refl, refl)
  process_result_value-process_bind_param false (text_value s) u h =
      (module_uuid.to_text u, rw h refl, rw (module_uuid.of_text-to_text u) refl, refl)
