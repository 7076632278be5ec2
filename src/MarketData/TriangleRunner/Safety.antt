-- ===== src/MarketData/TriangleRunner/Safety.antt =====
-- What the callbacks of the monitor of a triangle do to its ledger.
use gen.Prelude.{
  true, ◌≡◌, refl, ap, ◌∙◌, List, [], ◌∷◌, ◌++◌, Option, none, some, String, Bool-cases, inl, inr,
}
use mathlib.Core.List.{append_assoc}
use gen.Errors.{Result, ok, raised}
use gen.Exec.{Exec, Arrival, lift, ◌>>=◌}
use gen.Num.{Float, ◌⊕◌, ◌⊗◌, num}
use gen.Schemas.{
  OrderBookLevel, OrderBookSnapshot, ArbitrageSignal, TradeExecutionResult, success, default_limits,
}
use gen.RuntimeState.{RuntimeState, record_signal}
use gen.Execution.Decision.{Reason, should_execute}
use gen.Execution.KillSwitch.{apply}
use gen.Execution.Triangular
use gen.Execution.Triangular.{
  TriangleOrders, execute_triangle, symbol_bridge_quote, symbol_target_bridge, symbol_target_quote,
}
use gen.Execution.PaperExchange.{Fill, PaperExchangeClient, paper_client}
use gen.Execution.PaperExchange.Fills.{paper-execute_triangle}
use gen.MarketData.Runner.Tick.{Outside, outside}
use gen.MarketData.Runner.Ledger.{
  Ledger, IsTrade, none_at, then_trade, KeepsTo, bind-Respects, lift-Respects, if-Respects,
}
use gen.MarketData.TriangleRunner.{Cycle, find_cycle, mid_return}
use gen.MarketData.TriangleRunner.Tick.{
  TriangleMonitor, TriangleWorld, note_result, orders_of, trade, keep_mid, next_return, next_signal,
  judge, settle_verdict, pursue, with_books, with_snapshots, evaluate_once, locked, maybe_evaluate,
  on_snapshot,
}

module _ {F : Type 0} where
  -- Three fills, and a volume of exactly the notional.
  abbrev pub TriangleCharge :
      Ledger F (Unit {0}) → F → ArbitrageSignal F → List (Fill F) → F → Type 0
  TriangleCharge l alpha signal extra volume =
      ((f g h : Fill F) × (extra ≡ f ∷ g ∷ h ∷ [])) × (volume ≡ l.notional)

module _ {F C : Type 0} ⦃fl : Float F⦄ where
  -- What the monitor's ledger is made of.
  abbrev pub ledger : TriangleWorld F C → Ledger F (Unit {0})
  ledger (m, state, c) = record {
    fills = m.client.fills;
    daily = m.daily_notional_used_usd;
    kill_switch = state.kill_switch;
    notional = m.config.notional_per_trade_usd;
    terms = tt;
  }

module _ {F C : Type 0} ⦃fl : Float F⦄ (out : Outside F C Triangular.Reason)
    (arrival : Arrival) where
  abbrev Respects : {A : Type 0} → Exec (TriangleWorld F C) A → Type 0
  Respects m = KeepsTo TriangleCharge ledger m

  -- The gate's verdict on the ledger of a state.
  abbrev Fits : F → ArbitrageSignal F → TriangleWorld F C → Type 0
  Fits alpha signal w =
      let l = ledger w in
      (should_execute alpha signal (apply l.kill_switch default_limits) (some l.notional) l.daily).0
      ≡ true

  outside-Respects : {A : Type 0} (e : Exec C A) → Respects (outside e)
  unfolding outside
  outside-Respects e (m, state, c) = none_at

  note_result-ledger :
      (m : TriangleMonitor F) (state : RuntimeState F (Reason F)) (id : String)
      (client : PaperExchangeClient F) (c : C)
      (r : Result (TradeExecutionResult F Triangular.Reason))
      (result : TradeExecutionResult F Triangular.Reason)
      → r ≡ ok result
      → ledger (note_result out arrival m state id (r, (client, c))).1 ≡ record {
        fills = client.fills;
        daily = m.daily_notional_used_usd ⊕ result.executed_volume_usd;
        kill_switch = state.kill_switch;
        notional = m.config.notional_per_trade_usd;
        terms = tt;
      }
  unfolding note_result
  note_result-ledger m state id client c r result e = rw e refl

  append_three :
      (fills : List (Fill F)) (f g h : Fill F)
      → ((fills ++ f ∷ []) ++ g ∷ []) ++ h ∷ [] ≡ fills ++ f ∷ g ∷ h ∷ []
  append_three fills f g h =
      append_assoc (fills ++ f ∷ []) (g ∷ []) (h ∷ []) ∙ append_assoc fills (f ∷ []) (g ∷ h ∷ [])

  trade-IsTrade :
      (id : String) (orders : TriangleOrders F) (alpha : F) (signal : ArbitrageSignal F)
      (w : TriangleWorld F C)
      → orders.quote_notional_usd ≡ (ledger w).notional
      → Fits alpha signal w
      → IsTrade TriangleCharge (ledger w) (ledger (trade out arrival id orders w).1)
  unfolding trade Triangular.report
  trade-IsTrade id orders alpha signal (m, state, c) size fit =
      let run = execute_triangle (paper_client out.market) arrival orders (m.client, c) in
      let volume = orders.quote_notional_usd in
      let result = Triangular.report orders success volume (volume ⊗ orders.net_spread_pct) none in
      let (returned, (f, g, h, filled)) =
        paper-execute_triangle out.market arrival orders m.client c in
      let after = note_result-ledger m state id run.1.0 run.1.1 run.0 result returned in
      record {
        alpha = alpha;
        signal = signal;
        authorized = fit;
        volume = volume;
        charged = ap (λ l. l.daily) after;
        extra = f ∷ g ∷ h ∷ [];
        charge = ((f, g, h, refl), size);
        filled = ap (λ l. l.fills) after ∙ filled ∙ append_three m.client.fills f g h;
        same_switch = ap (λ l. l.kill_switch) after;
        same_notional = ap (λ l. l.notional) after;
        same_terms = refl;
      }

  judged-Respects :
      (cycle : Cycle F) (alpha : F) (signal : ArbitrageSignal F)
      → Respects (judge out arrival alpha signal >>= settle_verdict out arrival cycle alpha)
  unfolding judge settle_verdict record_signal
  judged-Respects cycle alpha signal (m, state, c) =
      let (id, c1) = out.market.uuid4 c in
      let (now, c2) = out.samples.clock c1 in
      elim (Bool-cases
        (should_execute alpha signal (apply state.kill_switch default_limits)
          (some m.config.notional_per_trade_usd) m.daily_notional_used_usd).0) [
            | inl fit ↦ rw fit (
                then_trade _ none_at (
                  trade-IsTrade id (orders_of out arrival m cycle signal) alpha signal (m, _, c2)
                    refl fit))
            | inr refused ↦ rw refused none_at
          ]

  keep_mid-Respects : (r : Result (F × F)) → Respects (keep_mid out arrival r)
  unfolding keep_mid
  keep_mid-Respects (ok (mid, r)) (m, state, c) = none_at
  keep_mid-Respects (raised e) w = none_at

  next_return-Respects : (bid ask : OrderBookLevel F) → Respects (next_return out arrival bid ask)
  unfolding next_return
  next_return-Respects bid ask w =
      keep_mid-Respects (mid_return w.0.prev_target_quote_mid bid ask) w

  next_signal-Respects : (alpha r : F) → Respects (next_signal out arrival alpha r)
  unfolding next_signal
  next_signal-Respects alpha r (m, state, c) = none_at

  pursue-Respects :
      (found : Option (Cycle F)) (bid ask : OrderBookLevel F)
      → Respects (pursue out arrival found bid ask)
  unfolding pursue
  pursue-Respects none bid ask w = none_at
  pursue-Respects (some cycle) bid ask w =
      let alpha = cycle.alpha.net_alpha ⊗ num 10000 in
      bind-Respects TriangleCharge ledger (next_return out arrival bid ask) _
        (next_return-Respects bid ask)
        (λ r.
          bind-Respects TriangleCharge ledger (next_signal out arrival alpha r) _
            (next_signal-Respects alpha r) (judged-Respects cycle alpha))
        w

  with_books-Respects :
      (bridge_asks target_asks bids asks : List (OrderBookLevel F))
      → Respects (with_books out arrival bridge_asks target_asks bids asks)
  unfolding with_books
  with_books-Respects [] target_asks bids asks w = none_at
  with_books-Respects (a ∷ r) [] bids asks w = none_at
  with_books-Respects (a ∷ r) (t ∷ q) [] asks w = none_at
  with_books-Respects (a ∷ r) (t ∷ q) (bid ∷ bids) [] w = none_at
  with_books-Respects (a ∷ r) (t ∷ q) (bid ∷ bids) (ask ∷ asks) w =
      let m = w.0 in
      let found =
        find_cycle (out.taker_fee m.triangle.exchange m.config.default_taker_fee_bps)
          m.config.notional_per_trade_usd a (a ∷ r) t (t ∷ q) (bid ∷ bids) in
      bind-Respects TriangleCharge ledger (lift found) (λ c. pursue out arrival c bid ask)
        (lift-Respects TriangleCharge ledger found) (λ c. pursue-Respects c bid ask) w

  with_snapshots-Respects :
      (a b c : Option (OrderBookSnapshot F)) → Respects (with_snapshots out arrival a b c)
  unfolding with_snapshots
  with_snapshots-Respects none b c w = none_at
  with_snapshots-Respects (some a) none c w = none_at
  with_snapshots-Respects (some a) (some b) none w = none_at
  with_snapshots-Respects (some a) (some b) (some c) w =
      with_books-Respects a.asks b.asks c.bids c.asks w

  evaluate_once-Respects : Respects (evaluate_once out arrival)
  unfolding evaluate_once
  evaluate_once-Respects w =
      let t = w.0.triangle in
      let first = out.market.get_snapshot t.exchange (symbol_bridge_quote t) in
      let second = out.market.get_snapshot t.exchange (symbol_target_bridge t) in
      let third = out.market.get_snapshot t.exchange (symbol_target_quote t) in
      bind-Respects TriangleCharge ledger (outside first)
        (λ a. outside second >>= λ b. outside third >>= with_snapshots out arrival a b)
        (outside-Respects first)
        (λ a.
          bind-Respects TriangleCharge ledger (outside second)
            (λ b. outside third >>= with_snapshots out arrival a b) (outside-Respects second)
            (λ b.
              bind-Respects TriangleCharge ledger (outside third) (with_snapshots out arrival a b)
                (outside-Respects third) (with_snapshots-Respects a b)))
        w

  maybe_evaluate-Respects : Respects (maybe_evaluate out arrival)
  unfolding maybe_evaluate locked
  maybe_evaluate-Respects (m, state, c) =
      let w : TriangleWorld F C = (m, state, c) in
      let evaluated = locked out arrival (evaluate_once out arrival) w in
      if-Respects TriangleCharge ledger m.evaluating w (ok tt, w) evaluated none_at
        (evaluate_once-Respects (record m { evaluating = true }, state, c))

  pub on_snapshot-Respects : (s : OrderBookSnapshot F) → Respects (on_snapshot out arrival s)
  unfolding on_snapshot
  on_snapshot-Respects s =
      bind-Respects TriangleCharge ledger (outside (out.set_snapshot s))
        (λ _. maybe_evaluate out arrival) (outside-Respects (out.set_snapshot s))
        (λ _. maybe_evaluate-Respects)
