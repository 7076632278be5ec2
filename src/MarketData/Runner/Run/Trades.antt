-- ===== src/MarketData/Runner/Run/Trades.antt =====
-- What a monitor does to its ledger in a whole run, whatever its feeds deliver, and how it fails.
use gen.Prelude.{
  Option, none, some, Bool, true, false, ◌≡◌, refl, List, [], ◌∷◌, String, if◌then◌else◌,
}
use gen.Errors.{Result, ok, raised, Exception}
use gen.Num.{Float}
use gen.RuntimeState.{record_error}
use gen.Execution.BrokenLeg
use gen.MarketData.Runner.{World}
use gen.MarketData.Runner.Ledger.{Trades, none_at, Trades-trans, Trades-engaged}
use gen.MarketData.Runner.Tick.{Outside, on_buy_snapshot, on_sell_snapshot}
use gen.MarketData.Runner.Charge.{ledger, PairCharge}
use gen.MarketData.Runner.Safety.{on_buy_snapshot-Respects, on_sell_snapshot-Respects}
use gen.MarketData.Runner.Run.{
  Delivery, bought, sold, buy_feed_failed, sell_feed_failed, Feeds, crash, after_buy, after_sell,
  deliver, run_on, run,
}

module _ {F C : Type 0} ⦃fl : Float F⦄ (repr : Exception → String)
    (out : Outside F C BrokenLeg.Reason) where
  abbrev Traded : World F C → World F C → Type 0
  Traded w w' = Trades (PairCharge out) (ledger w) (ledger w')

  crash-ledger :
      (e : Exception) (b : Option Exception) (w : World F C)
      → ledger (crash repr out e b w) ≡ ledger w
  unfolding crash record_error
  crash-ledger e (some first) w = refl
  crash-ledger e none w = refl

  after_buy-Trades :
      (w : World F C) (feeds : Feeds) (r : Result (Unit {0})) (u : World F C)
      → Traded w u
      → Traded w (after_buy repr out feeds (r, u)).1
  unfolding after_buy
  after_buy-Trades w feeds (ok _) u h = h
  after_buy-Trades w feeds (raised e) u h = rw (crash-ledger e feeds.crashed u) h

  after_sell-Trades :
      (w : World F C) (feeds : Feeds) (r : Result (Unit {0})) (u : World F C)
      → Traded w u
      → Traded w (after_sell repr out feeds (r, u)).1
  unfolding after_sell
  after_sell-Trades w feeds (ok _) u h = h
  after_sell-Trades w feeds (raised e) u h = rw (crash-ledger e feeds.crashed u) h

  if_open-Trades :
      (b : Bool) (feeds : Feeds) (w : World F C) (s : Feeds × World F C)
      → Traded w s.1
      → Traded w (if b then s else (feeds, w)).1
  if_open-Trades true feeds w s h = h
  if_open-Trades false feeds w s h = none_at

  pub deliver-Trades :
      (d : Delivery F) (feeds : Feeds) (w : World F C) → Traded w (deliver repr out d (feeds, w)).1
  unfolding deliver
  deliver-Trades (bought swapped s) feeds w =
      let (r, u) = on_buy_snapshot out swapped s w in
      if_open-Trades feeds.buy_open feeds w (after_buy repr out feeds (r, u))
        (after_buy-Trades w feeds r u (on_buy_snapshot-Respects out swapped s w))
  deliver-Trades (sold swapped s) feeds w =
      let (r, u) = on_sell_snapshot out swapped s w in
      if_open-Trades feeds.sell_open feeds w (after_sell repr out feeds (r, u))
        (after_sell-Trades w feeds r u (on_sell_snapshot-Respects out swapped s w))
  deliver-Trades (buy_feed_failed e) feeds w =
      if_open-Trades feeds.buy_open feeds w (after_buy repr out feeds (raised e, w))
        (after_buy-Trades w feeds (raised e) w none_at)
  deliver-Trades (sell_feed_failed e) feeds w =
      if_open-Trades feeds.sell_open feeds w (after_sell repr out feeds (raised e, w))
        (after_sell-Trades w feeds (raised e) w none_at)

  run_on-Trades :
      (deliveries : List (Delivery F)) (feeds : Feeds) (w : World F C)
      → Traded w (run_on repr out deliveries (feeds, w)).1
  unfolding run_on
  run_on-Trades [] feeds w = none_at
  run_on-Trades (d ∷ rest) feeds w =
      let (feeds', w') = deliver repr out d (feeds, w) in
      Trades-trans (PairCharge out) (deliver-Trades d feeds w) (run_on-Trades rest feeds' w')

  -- Whatever the two feeds deliver, in whatever order, and wherever a callback or a feed fails: the
  -- fills of the paper client and the daily notional change by trades only. For each trade two reads
  -- of the cache in a row gave the books of the pair's two exchanges, and `find_opportunity` found
  -- an opportunity in the asks of the first and the bids of the second, for the configured notional
  -- and fee. The gate, given the net alpha of this opportunity in basis points, a signal that the
  -- heuristic made of this alpha, of the latest return of a feature window and of the hazard of the
  -- opportunity's quantity in a depth matrix, the limits that the kill switch passes on, the
  -- configured notional and the daily notional until then, returned True. A trade adds to the fills
  -- one purchase at the average ask price and one sale at the average bid price, both of the
  -- opportunity's quantity, and to the daily notional that quantity at the average ask price.
  pub run-Trades :
      (deliveries : List (Delivery F)) (w : World F C)
      → Trades (PairCharge out) (ledger w) (ledger (run repr out deliveries w).1)
  unfolding run
  run-Trades deliveries w =
      run_on-Trades deliveries (record { buy_open = true; sell_open = true; crashed = none }) w

  -- While the kill switch is engaged a whole run leaves the fills and the daily notional as they are,
  -- and the switch engaged.
  pub run_engaged :
      (deliveries : List (Delivery F)) (w : World F C)
      → w.1.kill_switch.engaged ≡ true
      → ledger (run repr out deliveries w).1 ≡ ledger w
  run_engaged deliveries w e = Trades-engaged (PairCharge out) (run-Trades deliveries w) e
