-- ===== src/MarketData/Runner.antt =====
-- backend/marketdata/runner.py: one evaluation of a monitored pair. The order book cache, the ids,
-- the sample log, the database and the clock are code outside the class, with a state `C`.
pub mod Tick
pub mod Ledger
pub mod Charge
pub mod Traded
pub mod Evaluated
pub mod Safety
pub mod Run
pub mod Tests
use gen.Prelude.{
  Bool, true, false, List, [], map, Option, none, some, String, str_eq, if◌then◌else◌,
}
use gen.Errors.{Result, ok, raised, value_error, ◌>>=◌}
use gen.Exec.{Exec}
use gen.Num.{Float, ◌⊖◌, ◌⊕◌, ◌⊗◌, ◌⊘◌, ◌<?◌, num}
use gen.Schemas.{
  OrderBookLevel, OrderBookSnapshot, TemporalFeatures, DepthMatrix, ArbitrageSignal, default_limits,
  TradeExecutionResult,
}
use gen.Config.{PairConfig, RunnerConfig}
use gen.RuntimeState.{SignalRecord, RuntimeState, record_signal}
use gen.Execution.Alpha.{compute_net_alpha}
use gen.Execution.Decision.{Reason, should_execute}
use gen.Execution.KillSwitch.{apply}
use gen.Execution.BrokenLeg
use gen.Execution.BrokenLeg.{PairedOrders, execute_paired_orders}
use gen.Execution.PaperExchange.{Market, PaperExchangeClient, paper_client}
use gen.MarketData.Microstructure.{compute_vwap}
use gen.Ml.DepthSignal.{compute_depth_liquidity_hazard}
use gen.Ml.Heuristic.{HeuristicSignalEstimator, default_config}
use gen.MarketData.Features.{TemporalFeatureWindow, DepthMatrixBuilder}

-- What an evaluation finds before it looks at the history.
pub record Opportunity (F : Type 0) : Type 0 where
  pub quantity : F
  pub vwap_ask : F
  pub vwap_bid : F
  pub net_alpha : F

-- What an evaluation decided.
pub record Verdict (F : Type 0) : Type 0 where
  pub signal : ArbitrageSignal F
  pub approved : Bool
  pub reason : Reason F

-- `except ValueError: return`
unfoldable pub or_stop : {A : Type 0} → Result A → Result (Option A)
or_stop (ok a) = ok (some a)
or_stop (raised value_error) = ok none
or_stop (raised e) = raised e

-- The rest of a function after a guard that may have returned.
unfoldable pub unless_stopped :
    {A B : Type 0} → Option A → (A → Result (Option B)) → Result (Option B)
unless_stopped none f = ok none
unless_stopped (some a) f = f a

module _ {F : Type 0} ⦃fl : Float F⦄ where
  unfoldable pub both_vwaps : List (OrderBookLevel F) → List (OrderBookLevel F) → F → Result (F × F)
  both_vwaps asks bids quantity = compute_vwap asks quantity >>= λ vwap_ask.
      compute_vwap bids quantity >>= λ vwap_bid. ok (vwap_ask, vwap_bid)

  -- From the two books to the net gain; `fee` is `get_taker_fee_bps` of an exchange.
  unfoldable pub find_opportunity :
      (String → Result F)
      → PairConfig
      → F
      → OrderBookLevel F
      → List (OrderBookLevel F)
      → List (OrderBookLevel F)
      → Result (Option (Opportunity F))
  unfolding or_stop unless_stopped both_vwaps
  find_opportunity fee pair notional best_ask asks bids = notional ⊘ best_ask.price >>= λ quantity.
      or_stop (both_vwaps asks bids quantity) >>= λ found.
      unless_stopped found λ (vwap_ask_a, vwap_bid_b). fee pair.exchange_buy >>= λ fee_a.
      fee_a ⊘ num 10000 >>= λ tau_a. fee pair.exchange_sell >>= λ fee_b.
      fee_b ⊘ num 10000 >>= λ tau_b.
      or_stop
        (compute_net_alpha vwap_bid_b tau_b vwap_ask_a tau_a (fl.decimal 5 4) (num 0) notional)
      >>= λ gain. unless_stopped gain λ net_alpha. ok (
          some (record {
            quantity = quantity;
            vwap_ask = vwap_ask_a;
            vwap_bid = vwap_bid_b;
            net_alpha = net_alpha;
          }))

  -- The signal and the gate, with the limits that the kill switch passes on.
  unfoldable pub assess :
      {R : Type 0}
      → RuntimeState F R
      → F
      → F
      → Opportunity F
      → Result (ArbitrageSignal F)
      → Result (Verdict F)
  unfolding apply should_execute
  assess state notional used o (raised e) = raised e
  assess state notional used o (ok signal) =
      let (approved, reason) =
        should_execute (o.net_alpha ⊗ num 10000) signal (apply state.kill_switch default_limits)
          (some notional) used in
      ok (record { signal = signal; approved = approved; reason = reason })

  -- The arguments of the two orders of an approved opportunity.
  unfoldable pub orders_of :
      PairConfig → Opportunity F → ArbitrageSignal F → Result (PairedOrders F)
  orders_of pair o signal = (o.vwap_bid ⊖ o.vwap_ask) ⊘ o.vwap_ask >>= λ gross_spread_pct.
      ok (record {
        buy_exchange = pair.exchange_buy;
        sell_exchange = pair.exchange_sell;
        symbol = pair.symbol;
        amount = o.quantity;
        buy_price = o.vwap_ask;
        sell_price = o.vwap_bid;
        gross_spread_pct = gross_spread_pct;
        net_spread_pct = o.net_alpha;
        ml_confidence_score = signal.execution_probability;
        high_volatility = fl.decimal 5 1 <? signal.adverse_hazard;
      })

-- `evaluating` is whether the lock is held. `sample_logging` is whether there is a sample logger.
pub record PairMonitor (F : Type 0) : Type 0 where
  pub pair : PairConfig
  pub config : RunnerConfig F
  pub heuristic : HeuristicSignalEstimator F
  pub sample_logging : Bool
  pub client : PaperExchangeClient F
  pub temporal_window : TemporalFeatureWindow F
  pub depth_builder : DepthMatrixBuilder F
  pub daily_notional_used_usd : F
  pub evaluating : Bool

-- `PairMonitor(pair, cache, config, user_id)`, with the default arguments of its parts.
abbrev pub new_monitor : {F : Type 0} ⦃fl : Float F⦄ → PairConfig → RunnerConfig F → PairMonitor F
new_monitor ⦃fl⦄ pair config = record {
  pair = pair;
  config = config;
  heuristic = record { config = default_config; alpha_history = []; return_history = [] };
  sample_logging = config.sample_logging_enabled;
  client = record { balances = []; starting_balance_usd = num 10000; fills = [] };
  temporal_window = record { notional_quantity = num 1; prev = none; rows = [] };
  depth_builder = record { bin_width_pct = fl.decimal 5 4; rows = [] };
  daily_notional_used_usd = num 0;
  evaluating = false;
}

-- `record_signal` returns the record that it put into the history, and the monitor writes to that
-- record; it is told from the others by its id.
unfoldable pub mark :
    {F R : Type 0}
    → (SignalRecord F R → SignalRecord F R)
    → String
    → List (SignalRecord F R)
    → List (SignalRecord F R)
mark f id history = map (λ r. if str_eq r.id id then f r else r) history

abbrev pub World : Type 0 → Type 0 → Type 0
World F C = PairMonitor F × RuntimeState F (Reason F) × C

module _ {F C : Type 0} ⦃fl : Float F⦄ where
  -- The result is noted in the record and in the daily notional, and stored; `store` is
  -- `record_execution` in a session of its own.
  unfoldable pub note_result :
      (TradeExecutionResult F BrokenLeg.Reason → Exec C (Unit {0}))
      → PairMonitor F
      → RuntimeState F (Reason F)
      → String
      → Result (TradeExecutionResult F BrokenLeg.Reason) × (PaperExchangeClient F × C)
      → Result (Unit {0}) × World F C
  unfolding mark
  note_result store m state id (raised e, (client, c)) =
      (raised e, (record m { client = client }, state, c))
  note_result store m state id (ok result, (client, c)) =
      let m' = record m {
        client = client;
        daily_notional_used_usd = m.daily_notional_used_usd ⊕ result.executed_volume_usd;
      } in
      let state' = record state {
        signal_history =
            mark
              (λ r. record r {
                execution_status = some result.status;
                realized_pnl_usd = some result.realized_pnl_usd;
              })
              id state.signal_history;
      } in
      let (stored, c') = store result c in (stored, (m', state', c'))

  unfoldable pub trade :
      Market F C
      → Bool
      → (TradeExecutionResult F BrokenLeg.Reason → Exec C (Unit {0}))
      → String
      → Result (PairedOrders F)
      → World F C
      → Result (Unit {0}) × World F C
  unfolding note_result
  trade market swapped store id (raised e) w = (raised e, w)
  trade market swapped store id (ok o) (m, state, c) =
      note_result store m state id
        (execute_paired_orders (paper_client market) 3 swapped o (m.client, c))

  -- From the verdict on: the signal is recorded, and an approved one is traded.
  unfoldable pub conclude :
      Market F C
      → Bool
      → (TradeExecutionResult F BrokenLeg.Reason → Exec C (Unit {0}))
      → String
      → F
      → Opportunity F
      → Verdict F
      → World F C
      → Result (Unit {0}) × World F C
  unfolding trade orders_of record_signal
  conclude market swapped store id now o v (m, state, c) =
      let r : SignalRecord F (Reason F) = record {
        id = id;
        timestamp = now;
        symbol = m.pair.symbol;
        exchange_buy = m.pair.exchange_buy;
        exchange_sell = m.pair.exchange_sell;
        net_alpha_bps = o.net_alpha ⊗ num 10000;
        execution_probability = v.signal.execution_probability;
        adverse_hazard = v.signal.adverse_hazard;
        approved = v.approved;
        reason = v.reason;
        execution_status = none;
        realized_pnl_usd = none;
      } in
      let w : World F C = (m, record_signal r state, c) in
      let traded = trade market swapped store id (orders_of m.pair o v.signal) w in
      if v.approved then traded else (ok tt, w)
