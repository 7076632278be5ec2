-- ===== src/Execution/KillSwitch/Tests.antt =====
-- The kill switch on a disk whose texts are what `json` makes of them.
use gen.Prelude.{none, some, true, false, ◌≡◌, refl}
use gen.Errors.{ok}
use gen.Num.Int.{int_float}
use gen.Execution.KillSwitch.{
  Loaded, no_key, value, Json, missing, text, Disk, KillSwitch, init, set_flag,
}
use gen.Execution.KillSwitch.Laws.{set_flag-init, init-Starts, Starts}

abbrev loaded_json : Json Loaded
loaded_json = record { dumps = value; loads = λ l. l; loads-dumps = λ b. refl }

abbrev armed : KillSwitch
armed = record { has_path = true; engaged = false }

abbrev full_disk : Disk Loaded
full_disk = record { file = text no_key; write_failure = some missing }

abbrev empty_disk : Disk Loaded
empty_disk = record { file = missing; write_failure = none }

set_flag-init_example :
    init loaded_json true (set_flag loaded_json true (armed, empty_disk)).1.1
    ≡ ok (record { has_path = true; engaged = true })
unfolding set_flag
set_flag-init_example = set_flag-init loaded_json true armed empty_disk refl refl

init-Starts_example : Starts loaded_json (text no_key) (init loaded_json true full_disk)
init-Starts_example = init-Starts loaded_json full_disk
