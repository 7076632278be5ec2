-- ===== src/MarketData/TriangleRunner/Tick.antt =====
-- backend/marketdata/runner.py: the callbacks of `TriangleMonitor`. `arrival` is the order in which
-- the three legs of a trade take effect.
use gen.Prelude.{String, Bool, true, false, List, [], ◌∷◌, Option, none, some, if◌then◌else◌}
use gen.Errors.{Result, ok, raised}
use gen.Exec.{Exec, Arrival, pure, lift, ◌>>=◌, ◌>>◌}
use gen.Num.{Float, ◌⊕◌, ◌⊗◌, num}
use gen.Schemas.{
  OrderBookLevel, OrderBookSnapshot, ArbitrageSignal, TradeExecutionResult, default_limits,
}
use gen.Config.{RunnerConfig}
use gen.RuntimeState.{SignalRecord, RuntimeState, record_signal}
use gen.Execution.Decision.{Reason, should_execute}
use gen.Execution.KillSwitch.{apply}
use gen.Execution.Triangular
use gen.Execution.Triangular.{
  TriangleConfig, TriangleOrders, symbol_bridge_quote, symbol_target_bridge, symbol_target_quote,
  label, execute_triangle,
}
use gen.Execution.PaperExchange.{PaperExchangeClient, paper_client}
use gen.Ml.Heuristic.{HeuristicSignalEstimator, default_config, update}
use gen.MarketData.Runner.{Verdict, mark}
use gen.MarketData.Runner.Tick.{Outside, outside}
use gen.MarketData.TriangleRunner.{Cycle, find_cycle, mid_return}

-- `evaluating` is whether the lock is held.
pub record TriangleMonitor (F : Type 0) : Type 0 where
  pub triangle : TriangleConfig
  pub config : RunnerConfig F
  pub heuristic : HeuristicSignalEstimator F
  pub client : PaperExchangeClient F
  pub daily_notional_used_usd : F
  pub evaluating : Bool
  pub prev_target_quote_mid : Option F

-- `TriangleMonitor(triangle, cache, config, user_id)`
abbrev pub new_triangle_monitor :
    {F : Type 0} ⦃fl : Float F⦄ → TriangleConfig → RunnerConfig F → TriangleMonitor F
new_triangle_monitor triangle config = record {
  triangle = triangle;
  config = config;
  heuristic = record { config = default_config; alpha_history = []; return_history = [] };
  client = record { balances = []; starting_balance_usd = num 10000; fills = [] };
  daily_notional_used_usd = num 0;
  evaluating = false;
  prev_target_quote_mid = none;
}

abbrev pub TriangleWorld : Type 0 → Type 0 → Type 0
TriangleWorld F C = TriangleMonitor F × RuntimeState F (Reason F) × C

module _ {F C : Type 0} ⦃fl : Float F⦄ (out : Outside F C Triangular.Reason)
    (arrival : Arrival) where
  abbrev pub Monitor : Type 0 → Type 0
  Monitor A = Exec (TriangleWorld F C) A

  unfoldable pub note_result :
      TriangleMonitor F
      → RuntimeState F (Reason F)
      → String
      → Result (TradeExecutionResult F Triangular.Reason) × (PaperExchangeClient F × C)
      → Result (Unit {0}) × TriangleWorld F C
  unfolding mark
  note_result m state id (raised e, (client, c)) =
      (raised e, (record m { client = client }, state, c))
  note_result m state id (ok result, (client, c)) =
      let m' = record m {
        client = client;
        daily_notional_used_usd = m.daily_notional_used_usd ⊕ result.executed_volume_usd;
      } in
      let state' = record state {
        signal_history =
            mark
              (λ r. record r {
                execution_status = some result.status;
                realized_pnl_usd = some result.realized_pnl_usd;
              })
              id state.signal_history;
      } in
      let (stored, c') = out.store result c in (stored, (m', state', c'))

  -- The arguments of the three orders.
  abbrev pub orders_of : TriangleMonitor F → Cycle F → ArbitrageSignal F → TriangleOrders F
  orders_of m cycle signal = record {
    triangle = m.triangle;
    quote_notional_usd = m.config.notional_per_trade_usd;
    bridge_quote_price = cycle.vwap_bridge_quote;
    target_bridge_price = cycle.vwap_target_bridge;
    target_quote_price = cycle.vwap_target_quote;
    bridge_qty = cycle.alpha.bridge_qty;
    target_qty = cycle.alpha.target_qty;
    gross_spread_pct = cycle.alpha.net_alpha;
    net_spread_pct = cycle.alpha.net_alpha;
    ml_confidence_score = signal.execution_probability;
  }

  unfoldable pub trade : String → TriangleOrders F → Monitor (Unit {0})
  unfolding note_result
  trade id orders (m, state, c) =
      note_result m state id
        (execute_triangle (paper_client out.market) arrival orders (m.client, c))

  -- `self._prev_target_quote_mid` and the return on the one before.
  unfoldable pub keep_mid : Result (F × F) → Monitor F
  keep_mid (ok (mid, r)) (m, state, c) =
      (ok r, (record m { prev_target_quote_mid = some mid }, state, c))
  keep_mid (raised e) w = (raised e, w)

  unfoldable pub next_return : OrderBookLevel F → OrderBookLevel F → Monitor F
  unfolding keep_mid
  next_return best_bid best_ask w =
      keep_mid (mid_return w.0.prev_target_quote_mid best_bid best_ask) w

  -- `self._heuristic.update`, without a liquidity hazard
  unfoldable pub next_signal : F → F → Monitor (ArbitrageSignal F)
  next_signal net_alpha_bps mid_price_return (m, state, c) =
      let (r, h) = update net_alpha_bps mid_price_return (num 0) m.heuristic in
      (r, (record m { heuristic = h }, state, c))

  -- The gate on the signal.
  unfoldable pub judge : F → ArbitrageSignal F → Monitor (Verdict F)
  judge net_alpha_bps signal (m, state, c) =
      let (approved, reason) =
        should_execute net_alpha_bps signal (apply state.kill_switch default_limits)
          (some m.config.notional_per_trade_usd) m.daily_notional_used_usd in
      (ok (record { signal = signal; approved = approved; reason = reason }), (m, state, c))

  -- The signal is recorded, and an approved one is traded.
  unfoldable pub settle_verdict : Cycle F → F → Verdict F → Monitor (Unit {0})
  unfolding trade record_signal label
  settle_verdict cycle net_alpha_bps v (m, state, c) =
      let (id, c1) = out.market.uuid4 c in
      let (now, c2) = out.samples.clock c1 in
      let r : SignalRecord F (Reason F) = record {
        id = id;
        timestamp = now;
        symbol = label m.triangle;
        exchange_buy = m.triangle.exchange;
        exchange_sell = m.triangle.exchange;
        net_alpha_bps = net_alpha_bps;
        execution_probability = v.signal.execution_probability;
        adverse_hazard = v.signal.adverse_hazard;
        approved = v.approved;
        reason = v.reason;
        execution_status = none;
        realized_pnl_usd = none;
      } in
      let w : TriangleWorld F C = (m, record_signal r state, c2) in
      let traded = trade id (orders_of m cycle v.signal) w in
      if v.approved then traded else (ok tt, w)

  unfoldable pub pursue :
      Option (Cycle F) → OrderBookLevel F → OrderBookLevel F → Monitor (Unit {0})
  unfolding next_return next_signal judge settle_verdict
  pursue none best_bid best_ask = pure tt
  pursue (some cycle) best_bid best_ask =
      let net_alpha_bps = cycle.alpha.net_alpha ⊗ num 10000 in
      (do
        mid_price_return ← next_return best_bid best_ask
        signal ← next_signal net_alpha_bps mid_price_return
        v ← judge net_alpha_bps signal
        settle_verdict cycle net_alpha_bps v)

  -- The asks of the first two books, and the bids and the asks of the third one.
  unfoldable pub with_books :
      List (OrderBookLevel F)
      → List (OrderBookLevel F)
      → List (OrderBookLevel F)
      → List (OrderBookLevel F)
      → Monitor (Unit {0})
  unfolding pursue
  with_books [] target_asks bids asks w = (ok tt, w)
  with_books (bridge_ask ∷ bridge_asks) [] bids asks w = (ok tt, w)
  with_books (bridge_ask ∷ bridge_asks) (target_ask ∷ target_asks) [] asks w = (ok tt, w)
  with_books (bridge_ask ∷ bridge_asks) (target_ask ∷ target_asks) (bid ∷ bids) [] w = (ok tt, w)
  with_books (bridge_ask ∷ bridge_asks) (target_ask ∷ target_asks) (bid ∷ bids) (ask ∷ asks) w =
      let m = w.0 in
      (do
        found ← lift (
            find_cycle (out.taker_fee m.triangle.exchange m.config.default_taker_fee_bps)
              m.config.notional_per_trade_usd bridge_ask (bridge_ask ∷ bridge_asks) target_ask
              (target_ask ∷ target_asks) (bid ∷ bids))
        pursue found bid ask)
        w

  unfoldable pub with_snapshots :
      Option (OrderBookSnapshot F)
      → Option (OrderBookSnapshot F)
      → Option (OrderBookSnapshot F)
      → Monitor (Unit {0})
  unfolding with_books
  with_snapshots none target_bridge target_quote = pure tt
  with_snapshots (some bridge_quote) none target_quote = pure tt
  with_snapshots (some bridge_quote) (some target_bridge) none = pure tt
  with_snapshots (some bridge_quote) (some target_bridge) (some target_quote) =
      with_books bridge_quote.asks target_bridge.asks target_quote.bids target_quote.asks

  -- `_evaluate_once`
  unfoldable pub evaluate_once : Monitor (Unit {0})
  unfolding with_snapshots outside symbol_bridge_quote symbol_target_bridge symbol_target_quote
  evaluate_once w =
      let t = w.0.triangle in
      (do
        bridge_quote ← outside (out.market.get_snapshot t.exchange (symbol_bridge_quote t))
        target_bridge ← outside (out.market.get_snapshot t.exchange (symbol_target_bridge t))
        target_quote ← outside (out.market.get_snapshot t.exchange (symbol_target_quote t))
        with_snapshots bridge_quote target_bridge target_quote)
        w

  -- `async with self._evaluating`
  unfoldable pub locked : Monitor (Unit {0}) → Monitor (Unit {0})
  locked body (m, state, c) =
      let (r, (m', state', c')) = body (record m { evaluating = true }, state, c) in
      (r, (record m' { evaluating = false }, state', c'))

  -- `_maybe_evaluate`
  unfoldable pub maybe_evaluate : Monitor (Unit {0})
  unfolding evaluate_once locked
  maybe_evaluate w =
      let evaluated = locked evaluate_once w in if w.0.evaluating then (ok tt, w) else evaluated

  -- `_on_snapshot`
  unfoldable pub on_snapshot : OrderBookSnapshot F → Monitor (Unit {0})
  unfolding outside maybe_evaluate
  on_snapshot snapshot = outside (out.set_snapshot snapshot) >> maybe_evaluate
