-- ===== src/Api/Dashboard.antt =====
-- backend/api/dashboard.py: the JSON endpoints. The clock is an argument, and so are the executions
-- that the database returns; the page itself is left out.
pub mod Signals
pub mod Tests
use mathlib.Core.Option
use gen.Prelude.{
  ℕ, zero, suc, ◌-◌, Bool, List, [], ◌∷◌, map, reverse, length, drop, Option, none, some, String,
  if◌then◌else◌,
}
use gen.Errors.{Result, ok}
use gen.Exec.{Exec, pure, ◌>>=◌, ◌>>◌}
use gen.Num.{Float, ◌⊖◌}
use gen.Num.Int.{ℤ, pos, negsuc}
use gen.Schemas.{RiskLimits, default_limits}
use gen.RuntimeState.{SignalRecord, RuntimeState}
use gen.Execution.KillSwitch
use gen.Execution.KillSwitch.{KillSwitch, Json, Disk, engage, disengage}
use gen.Db.Models.{ArbitrageExecution}

-- The dict of `/api/config`.
pub record ConfigReply (F : Type 0) : Type 0 where
  pub min_alpha_bps : F
  pub min_execution_probability : F
  pub max_adverse_hazard : F
  pub max_notional_usd_per_trade : F
  pub max_daily_notional_usd : F

unfoldable pub get_config : {F : Type 0} ⦃fl : Float F⦄ → ConfigReply F
get_config ⦃fl⦄ =
    let limits : RiskLimits _ = default_limits in
    record {
      min_alpha_bps = limits.min_alpha_bps;
      min_execution_probability = limits.min_execution_probability;
      max_adverse_hazard = limits.max_adverse_hazard;
      max_notional_usd_per_trade = limits.max_notional_usd_per_trade;
      max_daily_notional_usd = limits.max_daily_notional_usd;
    }

-- The dict of `/api/status`, but for its constant text.
pub record StatusReply (F : Type 0) : Type 0 where
  pub started_at : F
  pub uptime_s : F
  pub monitored_pairs : List String
  pub kill_switch_engaged : Bool
  pub local_user_id : Option String
  pub errors : List String

unfoldable pub get_status :
    {F R : Type 0} ⦃fl : Float F⦄ → (started_at now : F) → RuntimeState F R → StatusReply F
get_status started_at now state = record {
  started_at = started_at;
  uptime_s = now ⊖ started_at;
  monitored_pairs = state.monitored_pairs;
  kill_switch_engaged = state.kill_switch.engaged;
  local_user_id = state.local_user_id;
  errors = state.errors;
}

-- `xs[-limit:]`: from `-limit`, which counts from the end where it is negative, and is 0 for 0.
unfoldable pub last_items : {A : Type 0} → ℤ → List A → List A
last_items (pos zero) xs = xs
last_items (pos (suc n)) xs = drop (length xs - suc n) xs
last_items (negsuc n) xs = drop (suc n) xs

-- The records of `/api/signals`, whose dicts have the fields of a record.
unfoldable pub get_signals : {F R : Type 0} → ℤ → RuntimeState F R → List (SignalRecord F R)
unfolding last_items
get_signals limit state = reverse (last_items limit state.signal_history)

-- The dict of an execution in `/api/executions`; `text` is `str` of an id, `float` of a Decimal, and
-- `isoformat` of a time.
pub record ExecutionReply (F : Type 0) : Type 0 where
  pub id : String
  pub symbol : String
  pub buy_exchange : String
  pub sell_exchange : String
  pub gross_spread_pct : F
  pub net_spread_pct : F
  pub executed_volume_usd : F
  pub realized_pnl_usd : F
  pub ml_confidence_score : F
  pub execution_status : String
  pub executed_at : Option String

module _ {D F U T : Type 0} (to_text : U → String) (float : D → F) (isoformat : T → String) where
  unfoldable pub reply_of : ArbitrageExecution D U T → ExecutionReply F
  reply_of e = record {
    id = to_text e.id;
    symbol = e.symbol;
    buy_exchange = e.buy_exchange;
    sell_exchange = e.sell_exchange;
    gross_spread_pct = float e.gross_spread_pct;
    net_spread_pct = float e.net_spread_pct;
    executed_volume_usd = float e.executed_volume_usd;
    realized_pnl_usd = float e.realized_pnl_usd;
    ml_confidence_score = float e.ml_confidence_score;
    execution_status = e.execution_status;
    executed_at = Option.map isoformat e.executed_at;
  }

  -- `recent` is `get_recent_executions` in a session of its own.
  unfoldable pub get_executions :
      {C : Type 0}
      → (String → ℤ → Exec C (List (ArbitrageExecution D U T)))
      → ℤ
      → Option String
      → Exec C (List (ExecutionReply F))
  unfolding reply_of
  get_executions recent limit none = pure []
  get_executions recent limit (some user_id) =
      recent user_id limit >>= λ executions. pure (map reply_of executions)

-- The endpoints of the kill switch, with the flag that they reply.
module _ {T : Type 0} (json : Json T) where
  unfoldable pub flag : Exec (KillSwitch × Disk T) Bool
  flag (k, disk) = (ok k.engaged, (k, disk))

  unfoldable pub engage_kill_switch : Exec (KillSwitch × Disk T) Bool
  unfolding flag
  engage_kill_switch = engage json >> flag

  unfoldable pub disengage_kill_switch : Exec (KillSwitch × Disk T) Bool
  unfolding flag
  disengage_kill_switch = disengage json >> flag
