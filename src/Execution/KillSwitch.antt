-- ===== src/Execution/KillSwitch.antt =====
-- backend/execution/kill_switch.py: the kill switch, kept in memory and, if it was given a path, in
-- a JSON file. The file system and `json` are code outside the repository: the disk is a value that
-- says what a read or a write of the one path does, and `Json` holds the two functions used.
pub mod Laws
mod Tests
use gen.Prelude.{Option, none, some, Bool, true, false, ◌≡◌, if◌then◌else◌}
use gen.Errors.{Result, ok, raised, os_error, value_error, attribute_error}
use gen.Exec.{Exec, pure, ◌>>=◌}
use gen.Schemas.{RiskLimits}

-- What `json.loads` makes of a text: JSONDecodeError, a value that is no object, an object without
-- the key `kill_switch_engaged`, or one with it and the truth of its value.
pub data Loaded : Type 0 where
  malformed not_object no_key : Loaded
  value : Bool → Loaded

pub record Json (T : Type 0) : Type 0 where
  -- `json.dumps({"kill_switch_engaged": b})`
  pub dumps : Bool → T
  pub loads : T → Loaded
  -- the documented round trip of the standard library
  pub loads-dumps : (b : Bool) → loads (dumps b) ≡ value b

pub data File (T : Type 0) : Type 0 where
  -- `inaccessible` is an OSError of `exists`, `unreadable` one of `read_text` on a path that exists,
  -- `undecodable` the UnicodeDecodeError of `read_text`, which is a ValueError.
  missing inaccessible unreadable undecodable : File T
  text : T → File T

pub record Disk (T : Type 0) : Type 0 where
  pub file : File T
  -- `none` if `write_text` succeeds, otherwise what it leaves of the file before it raises OSError:
  -- the old file if the open fails, and an empty or a cut text if a write or the close does
  pub write_failure : Option (File T)

-- `has_path` is `self._state_path is not None`.
pub record KillSwitch : Type 0 where
  pub has_path : Bool
  pub engaged : Bool

-- `bool(data.get("kill_switch_engaged", False))`; a value that is no dict has no `get`.
unfoldable pub read_flag : Loaded → Result Bool
read_flag malformed = ok false
read_flag not_object = raised attribute_error
read_flag no_key = ok false
read_flag (value b) = ok b

abbrev pub switch : Bool → Result Bool → Result KillSwitch
switch has_path (ok b) = ok (record { has_path = has_path; engaged = b })
switch has_path (raised e) = raised e

module _ {T : Type 0} (json : Json T) where
  -- `_read_persisted`; its call of `exists` stands before the `try`.
  unfoldable pub read_persisted : File T → Result Bool
  unfolding read_flag
  read_persisted missing = ok false
  read_persisted inaccessible = raised os_error
  read_persisted unreadable = ok false
  read_persisted undecodable = raised value_error
  read_persisted (text t) = read_flag (json.loads t)

  -- `__init__`
  unfoldable pub init : Bool → Disk T → Result KillSwitch
  unfolding read_persisted
  init false disk = ok (record { has_path = false; engaged = false })
  init true disk = switch true (read_persisted disk.file)

  -- `_persist`
  unfoldable pub persist : Exec (KillSwitch × Disk T) (Unit {0})
  persist (k, disk) = elim disk.write_failure [
    | none ↦ (ok tt, (k, record disk { file = text (json.dumps k.engaged) }))
    | some left_file ↦ (raised os_error, (k, record disk { file = left_file }))
  ]

  -- `_set`: the flag in memory is written first.
  unfoldable pub set_flag : Bool → Exec (KillSwitch × Disk T) (Unit {0})
  unfolding persist
  set_flag b (k, disk) =
      let k' = record k { engaged = b } in
      if k.has_path then persist (k', disk) else (ok tt, (k', disk))

  unfoldable pub engage : Exec (KillSwitch × Disk T) (Unit {0})
  unfolding set_flag
  engage = set_flag true

  unfoldable pub disengage : Exec (KillSwitch × Disk T) (Unit {0})
  unfolding set_flag
  disengage = set_flag false

unfoldable pub apply : {F : Type 0} → KillSwitch → RiskLimits F → RiskLimits F
apply k limits = record limits { kill_switch_engaged = k.engaged }
