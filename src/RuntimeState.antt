-- ===== src/RuntimeState.antt =====
-- backend/runtime_state.py: the histories that the dashboard reads. Ids and times are arguments.
use gen.Prelude.{ℕ, Bool, false, List, [], Option, none, String}
use gen.Schemas.{ExecutionStatus}
use gen.Execution.KillSwitch.{KillSwitch}
use gen.Ml.Heuristic.{append}

pub record SignalRecord (F R : Type 0) : Type 0 where
  pub id : String
  pub timestamp : F
  pub symbol : String
  pub exchange_buy : String
  pub exchange_sell : String
  pub net_alpha_bps : F
  pub execution_probability : F
  pub adverse_hazard : F
  pub approved : Bool
  pub reason : R
  pub execution_status : Option ExecutionStatus
  pub realized_pnl_usd : Option F

pub record RuntimeState (F R : Type 0) : Type 0 where
  pub kill_switch : KillSwitch
  pub history_size : ℕ
  pub signal_history : List (SignalRecord F R)
  pub monitored_pairs : List String
  pub errors : List String
  pub local_user_id : Option String

-- `RuntimeState(history_size)`, with `KillSwitch()`, which has no path.
unfoldable pub init : {F R : Type 0} → ℕ → RuntimeState F R
init history_size = record {
  kill_switch = record { has_path = false; engaged = false };
  history_size = history_size;
  signal_history = [];
  monitored_pairs = [];
  errors = [];
  local_user_id = none;
}

unfoldable pub record_signal :
    {F R : Type 0} → SignalRecord F R → RuntimeState F R → RuntimeState F R
unfolding append
record_signal r state = record state {
  signal_history = append state.history_size state.signal_history r;
}

-- `message` with its time.
unfoldable pub record_error : {F R : Type 0} → String → RuntimeState F R → RuntimeState F R
unfolding append
record_error message state = record state { errors = append 50 state.errors message }
