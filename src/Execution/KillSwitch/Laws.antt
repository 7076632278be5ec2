-- ===== src/Execution/KillSwitch/Laws.antt =====
-- The kill switch in front of the risk gate, and across restarts.
use gen.Prelude.{Bool, true, false, ◌≡◌, ◌≢◌, ◌↔◌, refl, Option, arith}
use gen.Errors.{Result, ok, raised, attribute_error, value_error, os_error}
use gen.Num.{Float}
use gen.Schemas.{ArbitrageSignal, RiskLimits}
use gen.Execution.Decision.{kill_switch, should_execute}
use gen.Execution.Decision.Laws.{kill_switch_blocks}
use gen.Execution.KillSwitch.{
  Loaded, malformed, not_object, no_key, value, Json, File, missing, inaccessible, unreadable,
  undecodable, text, Disk, KillSwitch, read_flag, read_persisted, switch, init, set_flag, engage,
  apply,
}

module _ {T : Type 0} (json : Json T) where
  -- After `engage` the risk gate refuses every trade under every limits passed through the switch,
  -- also if the write to the file raised.
  pub engage_blocks :
      {F : Type 0} ⦃fl : Float F⦄ (k : KillSwitch) (disk : Disk T) (alpha : F)
      (signal : ArbitrageSignal F) (limits : RiskLimits F) (notional : Option F) (used : F)
      → let k' = (engage json (k, disk)).1.0 in
        should_execute alpha signal (apply k' limits) notional used ≡ (false, kill_switch)
  unfolding engage apply
  engage_blocks k disk alpha signal limits notional used =
      let k' = (engage json (k, disk)).1.0 in
      kill_switch_blocks alpha signal (record limits { kill_switch_engaged = k'.engaged }) notional
        used (ground arith)

  -- A switch with a path that set its flag without raising is found in that state by the next
  -- process, whichever way it was set.
  pub set_flag-init :
      (b : Bool) (k : KillSwitch) (disk : Disk T)
      → k.has_path ≡ true
      → (set_flag json b (k, disk)).0 ≡ ok tt
      → init json true (set_flag json b (k, disk)).1.1
        ≡ ok (record { has_path = true; engaged = b })
  unfolding set_flag init
  set_flag-init b k disk p e = ground (arith, json.loads-dumps b)

  -- The start of a switch from a file.
  abbrev pub Starts : File T → Result KillSwitch → Type 0
  Starts (text t) (raised e) = (json.loads t ≡ not_object) × (e ≡ attribute_error)
  Starts undecodable (raised e) = e ≡ value_error
  Starts inaccessible (raised e) = e ≡ os_error
  Starts f (raised e) = ⊥
  Starts (text t) (ok k) =
      (k.has_path ≡ true)
      × (json.loads t ≢ not_object)
      × ((k.engaged ≡ true) ↔ (json.loads t ≡ value true))
  Starts undecodable (ok k) = ⊥
  Starts inaccessible (ok k) = ⊥
  Starts f (ok k) = (k.has_path ≡ true) × (k.engaged ≡ false)

  -- A switch with a path starts disengaged if the file does not exist, if reading it raises OSError,
  -- and if its text is malformed JSON or an object without the key. It starts engaged exactly if
  -- the key is there with a true value. It raises in three cases, past the handler: AttributeError
  -- exactly for JSON that is no object, ValueError for bytes that cannot be decoded, and the
  -- OSError of `exists` where the path cannot be examined.
  pub init-Starts : (disk : Disk T) → Starts disk.file (init json true disk)
  unfolding init
  init-Starts disk = cases disk.file
    where
      loaded : (t : T) (l : Loaded) → json.loads t ≡ l → Starts (text t) (switch true (read_flag l))
      loaded t malformed e = rw e (ground arith)
      loaded t not_object e = (e, refl)
      loaded t no_key e = rw e (ground arith)
      loaded t (value b) e = rw e (ground arith)

      cases : (f : File T) → Starts f (switch true (read_persisted json f))
      cases missing = (refl, refl)
      cases inaccessible = refl
      cases unreadable = (refl, refl)
      cases undecodable = refl
      cases (text t) = loaded t (json.loads t) refl
