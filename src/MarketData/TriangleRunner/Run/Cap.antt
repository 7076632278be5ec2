-- ===== src/MarketData/TriangleRunner/Run/Cap.antt =====
-- What a triangle monitor trades in a whole run, and the cap on a day's notional.
use gen.Prelude.{
  none, Bool, true, false, ◌≡◌, refl, List, [], ◌∷◌, String, Option, some, if◌then◌else◌,
}
use gen.Errors.{Result, ok, raised, Exception}
use gen.Num.{Float, ◌⊕◌, ◌≼◌}
use gen.Num.Exact.{IsExact}
use gen.RuntimeState.{record_error}
use gen.Schemas.{default_limits}
use gen.Execution.KillSwitch.{apply}
use gen.Execution.Decision.Laws.{AreNumbers, should_execute_iff}
use gen.Execution.Triangular
use gen.MarketData.Runner.Ledger.{Ledger, IsTrade, Trades, none_at, then_trade, Trades-trans}
use gen.MarketData.Runner.Tick.{Outside}
use gen.MarketData.TriangleRunner.Tick.{TriangleWorld, on_snapshot}
use gen.MarketData.TriangleRunner.Safety.{ledger, TriangleCharge, on_snapshot-Respects}
use gen.MarketData.TriangleRunner.Run.{
  Leg, Delivery, delivered, feed_failed, Feeds, crash, after_call, deliver, is_open, run_on, run,
}

module _ {F C : Type 0} ⦃fl : Float F⦄ (repr : Exception → String)
    (out : Outside F C Triangular.Reason) where
  abbrev Traded : TriangleWorld F C → TriangleWorld F C → Type 0
  Traded w w' = Trades TriangleCharge (ledger w) (ledger w')

  crash-ledger :
      (e : Exception) (b : Option Exception) (w : TriangleWorld F C)
      → ledger (crash repr out e b w) ≡ ledger w
  unfolding crash record_error
  crash-ledger e (some first) w = refl
  crash-ledger e none w = refl

  after_call-Trades :
      (w : TriangleWorld F C) (leg : Leg) (feeds : Feeds) (r : Result (Unit {0}))
      (u : TriangleWorld F C)
      → Traded w u
      → Traded w (after_call repr out leg feeds (r, u)).1
  unfolding after_call
  after_call-Trades w leg feeds (ok _) u h = h
  after_call-Trades w leg feeds (raised e) u h = rw (crash-ledger e feeds.crashed u) h

  if_open-Trades :
      (b : Bool) (feeds : Feeds) (w : TriangleWorld F C) (s : Feeds × TriangleWorld F C)
      → Traded w s.1
      → Traded w (if b then s else (feeds, w)).1
  if_open-Trades true feeds w s h = h
  if_open-Trades false feeds w s h = none_at

  pub deliver-Trades :
      (d : Delivery F) (feeds : Feeds) (w : TriangleWorld F C)
      → Traded w (deliver repr out d (feeds, w)).1
  unfolding deliver
  deliver-Trades (delivered leg arrival s) feeds w =
      let (r, u) = on_snapshot out arrival s w in
      if_open-Trades (is_open leg feeds) feeds w (after_call repr out leg feeds (r, u))
        (after_call-Trades w leg feeds r u (on_snapshot-Respects out arrival s w))
  deliver-Trades (feed_failed leg e) feeds w =
      if_open-Trades (is_open leg feeds) feeds w (after_call repr out leg feeds (raised e, w))
        (after_call-Trades w leg feeds (raised e) w none_at)

  run_on-Trades :
      (deliveries : List (Delivery F)) (feeds : Feeds) (w : TriangleWorld F C)
      → Traded w (run_on repr out deliveries (feeds, w)).1
  unfolding run_on
  run_on-Trades [] feeds w = none_at
  run_on-Trades (d ∷ rest) feeds w =
      let (feeds', w') = deliver repr out d (feeds, w) in
      Trades-trans TriangleCharge (deliver-Trades d feeds w) (run_on-Trades rest feeds' w')

  run-Trades :
      (deliveries : List (Delivery F)) (w : TriangleWorld F C)
      → Traded w (run repr out deliveries w).1
  unfolding run
  run-Trades deliveries w =
      run_on-Trades deliveries
        (record {
          bridge_quote_open = true;
          target_bridge_open = true;
          target_quote_open = true;
          crashed = none;
        })
        w

module _ {F : Type 0} ⦃fl : Float F⦄ (x : IsExact F) where
  open x use {ordered, le_refl}

  -- A trade of a triangle keeps the daily notional within the cap.
  IsTrade-capped :
      (a b : Ledger F (Unit {0}))
      → IsTrade TriangleCharge a b
      → b.daily ≼ default_limits.max_daily_notional_usd
  unfolding apply
  IsTrade-capped a b trade =
      let limits = apply a.kill_switch default_limits in
      let numbers : AreNumbers trade.alpha trade.signal limits (some a.notional) a.daily = record {
        alpha_num = le_refl trade.alpha;
        min_alpha_num = le_refl limits.min_alpha_bps;
        probability_num = le_refl trade.signal.execution_probability;
        min_probability_num = le_refl limits.min_execution_probability;
        hazard_num = le_refl trade.signal.adverse_hazard;
        max_hazard_num = le_refl limits.max_adverse_hazard;
        caps_num = (
          le_refl a.notional,
          le_refl (a.daily ⊕ a.notional),
          le_refl limits.max_notional_usd_per_trade,
          le_refl limits.max_daily_notional_usd,
        );
      } in
      let allowed =
        (should_execute_iff ordered trade.alpha trade.signal limits (some a.notional) a.daily
            numbers).0
          trade.authorized in
      rw (trade.charged, trade.charge.1) allowed.capped.1

  Trades-capped :
      {a b : Ledger F (Unit {0})}
      → Trades TriangleCharge a b
      → a.daily ≼ default_limits.max_daily_notional_usd
      → b.daily ≼ default_limits.max_daily_notional_usd
  Trades-capped none_at h = h
  Trades-capped (then_trade {b} c k trade) h = IsTrade-capped b c trade

module _ {F C : Type 0} ⦃fl : Float F⦄ (x : IsExact F) (repr : Exception → String)
    (out : Outside F C Triangular.Reason) where
  -- Without rounding, a triangle monitor whose daily notional starts within the cap keeps it within
  -- the cap for a whole run, whatever its three feeds deliver, and wherever one of them or a callback
  -- fails.
  pub run_capped :
      (deliveries : List (Delivery F)) (w : TriangleWorld F C)
      → w.0.daily_notional_used_usd ≼ default_limits.max_daily_notional_usd
      → (run repr out deliveries w).1.0.daily_notional_used_usd
        ≼ default_limits.max_daily_notional_usd
  run_capped deliveries w h = Trades-capped x (run-Trades repr out deliveries w) h
