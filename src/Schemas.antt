-- ===== src/Schemas.antt =====
-- backend/schemas.py: the data that the modules exchange. A `datetime` is only carried, as its
-- number of microseconds.
use gen.Prelude.{ℕ, Bool, false, Option, List, String}
use gen.Num.{Float}

pub data TradingMode : Type 0 where
  testnet live : TradingMode

pub data ExecutionStatus : Type 0 where
  success partial_fill hedged rejected : ExecutionStatus

pub record OrderBookLevel (F : Type 0) : Type 0 where
  pub price : F
  pub volume : F

pub record OrderBookSnapshot (F : Type 0) : Type 0 where
  pub exchange : String
  pub symbol : String
  pub timestamp : ℕ
  pub bids : List (OrderBookLevel F)
  pub asks : List (OrderBookLevel F)

pub record MicrostructureMetrics (F : Type 0) : Type 0 where
  pub vwap_ask : F
  pub vwap_bid : F
  pub micro_price : F
  pub order_flow_imbalance : F

pub record TemporalFeatures (F : Type 0) : Type 0 where
  pub window : List (List F)

abbrev pub feature_count : ℕ
feature_count = 12

abbrev pub window_size : ℕ
window_size = 100

pub record DepthMatrix (F : Type 0) : Type 0 where
  pub grid : List (List F)

abbrev pub depth_size : ℕ
depth_size = 50

pub record ArbitrageSignal (F : Type 0) : Type 0 where
  pub execution_probability : F
  pub expected_alpha_bps : F
  pub adverse_hazard : F

pub record RiskLimits (F : Type 0) : Type 0 where
  pub min_alpha_bps : F
  pub min_execution_probability : F
  pub max_adverse_hazard : F
  pub max_notional_usd_per_trade : F
  pub max_daily_notional_usd : F
  pub kill_switch_engaged : Bool

-- `RiskLimits()`.
abbrev pub default_limits : {F : Type 0} ⦃fl : Float F⦄ → RiskLimits F
default_limits ⦃fl⦄ = record {
  min_alpha_bps = fl.decimal 15 0;
  min_execution_probability = fl.decimal 85 2;
  max_adverse_hazard = fl.decimal 20 2;
  max_notional_usd_per_trade = fl.decimal 50 0;
  max_daily_notional_usd = fl.decimal 500 0;
  kill_switch_engaged = false;
}

-- `R` is the type of the reason texts, which the modules that build them choose.
pub record TradeExecutionResult (F R : Type 0) : Type 0 where
  pub status : ExecutionStatus
  pub buy_exchange : String
  pub sell_exchange : String
  pub symbol : String
  pub executed_volume_usd : F
  pub gross_spread_pct : F
  pub net_spread_pct : F
  pub realized_pnl_usd : F
  pub ml_confidence_score : F
  pub reason : Option R
