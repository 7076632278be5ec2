-- ===== src/MarketData/Runner/Tick.antt =====
-- backend/marketdata/runner.py: the callbacks of `PairMonitor`. What they use of code outside the
-- class is in `Outside`; `swapped` says in which order two concurrent orders take effect.
use gen.Prelude.{
  Bool, true, false, not, ◌&&◌, List, [], ◌∷◌, Option, none, some, String, if◌then◌else◌,
}
use gen.Errors.{Result, ok, raised, index_error}
use gen.Exec.{Exec, pure, lift, ◌>>=◌, ◌>>◌}
use gen.Num.{Float, ◌⊗◌, num}
use gen.Num.Int.{ℤ}
use gen.Schemas.{
  OrderBookLevel, OrderBookSnapshot, TemporalFeatures, DepthMatrix, ArbitrageSignal,
  TradeExecutionResult,
}
use gen.Execution.BrokenLeg
use gen.Execution.PaperExchange.{Market}
use gen.MarketData.Features.{
  update_window, update_depth, window_is_ready, depth_is_ready, to_temporal_features,
  to_depth_matrix,
}
use gen.MarketData.SampleLogger.{SampleFile, log}
use gen.Ml.DepthSignal.{last_row, compute_depth_liquidity_hazard}
use gen.Ml.Heuristic.{update}
use gen.MarketData.Runner.{Opportunity, Verdict, find_opportunity, assess, World, conclude}

pub record Outside (F C R : Type 0) : Type 0 where
  pub market : Market F C
  -- `OrderBookCache.set_snapshot`
  pub set_snapshot : OrderBookSnapshot F → Exec C (Unit {0})
  pub samples : SampleFile F C
  -- `record_execution` in a session of its own
  pub store : TradeExecutionResult F R → Exec C (Unit {0})
  -- `get_taker_fee_bps`, with the environment that it reads
  pub taker_fee : String → F → Result F
  -- `int` of a float
  pub trunc : F → Result ℤ

-- An effect on the outside alone.
unfoldable pub outside : {M R C A : Type 0} → Exec C A → Exec (M × R × C) A
outside e (m, state, c) = let (r, c') = e c in (r, (m, state, c'))

-- `window[-1][0]`
unfoldable pub first_of_row : {F : Type 0} → List F → Result F
first_of_row [] = raised index_error
first_of_row (x ∷ row) = ok x

unfoldable pub latest_return : {F : Type 0} → List (List F) → Result F
unfolding first_of_row last_row
latest_return [] = raised index_error
latest_return (row ∷ rest) = first_of_row (last_row row rest)

module _ {F C : Type 0} ⦃fl : Float F⦄ (out : Outside F C BrokenLeg.Reason) (swapped : Bool) where
  abbrev pub Monitor : Type 0 → Type 0
  Monitor A = Exec (World F C) A

  unfoldable pub log_sample : TemporalFeatures F → DepthMatrix F → F → Monitor (Unit {0})
  unfolding outside
  log_sample temporal depth net_alpha_bps (m, state, c) =
      let p = m.pair in
      let logged =
        outside
          (log out.samples p.symbol p.exchange_buy p.exchange_sell temporal depth net_alpha_bps)
          (m, state, c) in
      if m.sample_logging then logged else (ok tt, (m, state, c))

  -- `self._heuristic.update`
  unfoldable pub next_signal : F → F → F → Monitor (ArbitrageSignal F)
  next_signal net_alpha_bps mid_price_return liquidity_hazard (m, state, c) =
      let (r, h) = update net_alpha_bps mid_price_return liquidity_hazard m.heuristic in
      (r, (record m { heuristic = h }, state, c))

  -- The gate on the signal.
  unfoldable pub judge : Opportunity F → ArbitrageSignal F → Monitor (Verdict F)
  judge o signal (m, state, c) = (
    assess state m.config.notional_per_trade_usd m.daily_notional_used_usd o (ok signal),
    (m, state, c),
  )

  -- The id and the time of `record_signal`, and what follows the verdict.
  unfoldable pub settle_verdict : Opportunity F → Verdict F → Monitor (Unit {0})
  settle_verdict o v (m, state, c) =
      let (id, c') = out.market.uuid4 c in
      let (now, c'') = out.samples.clock c' in
      conclude out.market swapped out.store id now o v (m, state, c'')

  unfoldable pub pursue :
      TemporalFeatures F → DepthMatrix F → Option (Opportunity F) → Monitor (Unit {0})
  unfolding log_sample next_signal judge settle_verdict
  pursue temporal depth none = pure tt
  pursue temporal depth (some o) = do
    log_sample temporal depth (o.net_alpha ⊗ num 10000)
    mid_price_return ← lift (latest_return temporal.window)
    liquidity_hazard ← lift (compute_depth_liquidity_hazard depth o.quantity "ask")
    signal ← next_signal (o.net_alpha ⊗ num 10000) mid_price_return liquidity_hazard
    v ← judge o signal
    settle_verdict o v

  -- From two books that are not empty and the inputs of the network.
  unfoldable pub with_inputs :
      OrderBookLevel F
      → List (OrderBookLevel F)
      → List (OrderBookLevel F)
      → Option (TemporalFeatures F)
      → Option (DepthMatrix F)
      → Monitor (Unit {0})
  unfolding pursue
  with_inputs best_ask asks bids none depth w = (ok tt, w)
  with_inputs best_ask asks bids (some temporal) none w = (ok tt, w)
  with_inputs best_ask asks bids (some temporal) (some depth) w =
      let m = w.0 in
      (do
        found ← lift (
            find_opportunity (λ exchange. out.taker_fee exchange m.config.default_taker_fee_bps)
              m.pair m.config.notional_per_trade_usd best_ask asks bids)
        pursue temporal depth found)
        w

  unfoldable pub with_books : List (OrderBookLevel F) → List (OrderBookLevel F) → Monitor (Unit {0})
  unfolding with_inputs
  with_books [] bids w = (ok tt, w)
  with_books (best_ask ∷ asks) [] w = (ok tt, w)
  with_books (best_ask ∷ asks) (best_bid ∷ bids) w =
      with_inputs best_ask (best_ask ∷ asks) (best_bid ∷ bids)
        (to_temporal_features w.0.temporal_window) (to_depth_matrix w.0.depth_builder) w

  unfoldable pub with_snapshots :
      Option (OrderBookSnapshot F) → Option (OrderBookSnapshot F) → Monitor (Unit {0})
  unfolding with_books
  with_snapshots none sell = pure tt
  with_snapshots (some buy) none = pure tt
  with_snapshots (some buy) (some sell) = with_books buy.asks sell.bids

  -- `_evaluate_once`
  unfoldable pub evaluate_once : Monitor (Unit {0})
  unfolding with_snapshots outside
  evaluate_once w =
      let p = w.0.pair in
      (do
        buy_snapshot ← outside (out.market.get_snapshot p.exchange_buy p.symbol)
        sell_snapshot ← outside (out.market.get_snapshot p.exchange_sell p.symbol)
        with_snapshots buy_snapshot sell_snapshot)
        w

  -- `async with self._evaluating`: the lock is released however the evaluation ends.
  unfoldable pub locked : Monitor (Unit {0}) → Monitor (Unit {0})
  locked body (m, state, c) =
      let (r, (m', state', c')) = body (record m { evaluating = true }, state, c) in
      (r, (record m' { evaluating = false }, state', c'))

  -- `_maybe_evaluate`
  unfoldable pub maybe_evaluate : Monitor (Unit {0})
  unfolding evaluate_once locked
  maybe_evaluate w =
      let evaluated = locked evaluate_once w in
      if not (window_is_ready w.0.temporal_window && depth_is_ready w.0.depth_builder)
      then (ok tt, w)
      else if w.0.evaluating
      then (ok tt, w)
      else evaluated

  unfoldable pub feed_window : OrderBookSnapshot F → Monitor (Unit {0})
  feed_window snapshot (m, state, c) =
      let (r, window) = update_window snapshot m.temporal_window in
      (r, (record m { temporal_window = window }, state, c))

  unfoldable pub feed_depth : OrderBookSnapshot F → Monitor (Unit {0})
  feed_depth snapshot (m, state, c) =
      let (r, builder) = update_depth out.trunc snapshot m.depth_builder in
      (r, (record m { depth_builder = builder }, state, c))

  -- `_on_buy_snapshot`
  unfoldable pub on_buy_snapshot : OrderBookSnapshot F → Monitor (Unit {0})
  unfolding outside maybe_evaluate feed_window feed_depth
  on_buy_snapshot snapshot = do
    outside (out.set_snapshot snapshot)
    feed_window snapshot
    feed_depth snapshot
    maybe_evaluate

  -- `_on_sell_snapshot`
  unfoldable pub on_sell_snapshot : OrderBookSnapshot F → Monitor (Unit {0})
  unfolding outside
  on_sell_snapshot snapshot = outside (out.set_snapshot snapshot)
