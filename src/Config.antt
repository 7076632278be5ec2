-- ===== src/Config.antt =====
-- backend/config.py: the settings of the runner. The environment, `upper` and the parsing of a float
-- are arguments.
pub mod Parse
use Prim.Native.String.{◌++◌ as concat}
use gen.Prelude.{Bool, List, Option, none, some, String, str_eq, if◌then◌else◌}
use gen.Errors.{Result, ok}
use gen.Num.{Float, num}
use gen.Execution.Triangular.{TriangleConfig}

pub record PairConfig : Type 0 where
  pub symbol : String
  pub exchange_buy : String
  pub exchange_sell : String

pub record RunnerConfig (F : Type 0) : Type 0 where
  pub monitored_pairs : List PairConfig
  pub monitored_triangles : List TriangleConfig
  pub notional_per_trade_usd : F
  pub default_taker_fee_bps : F
  pub poll_interval_s : F
  pub local_user_email : String
  pub redis_url : String
  pub enabled : Bool
  pub sample_logging_enabled : Bool
  pub sample_log_path : String

module _ {F : Type 0} ⦃fl : Float F⦄ where
  -- `_DEFAULT_TAKER_FEE_BPS_BY_EXCHANGE.get(exchange_id, default_fee_bps)`
  unfoldable pub listed_fee_bps : String → F → F
  listed_fee_bps exchange_id default_fee_bps =
      if str_eq exchange_id "binance"
      then num 10
      else if str_eq exchange_id "bybit"
      then num 10
      else if str_eq exchange_id "kraken"
      then num 26
      else default_fee_bps

  unfoldable pub fee_by : (String → Result F) → Option String → F → Result F
  fee_by parse none listed = ok listed
  fee_by parse (some raw) listed = parse raw

  unfoldable pub get_taker_fee_bps :
      (String → Option String) → (String → String) → (String → Result F) → String → F → Result F
  unfolding listed_fee_bps fee_by
  get_taker_fee_bps environ upper parse exchange_id default_fee_bps =
      fee_by parse (environ (concat "EXCHANGE_TAKER_FEE_BPS_" (upper exchange_id)))
        (listed_fee_bps exchange_id default_fee_bps)
