-- ===== src/MarketData/Runner/Run.antt =====
-- backend/marketdata/runner.py: `PairMonitor.run`. The two feeds run at once, so a run is the sequence
-- of what they deliver: a snapshot, or the exception with which a feed ended.
pub mod Trades
pub mod Tests
use Prim.Native.String.{◌++◌ as concat}
use gen.Prelude.{Bool, true, false, Option, none, some, List, [], ◌∷◌, String, if◌then◌else◌}
use gen.Errors.{Result, ok, raised, Exception}
use gen.Num.{Float}
use gen.Schemas.{OrderBookSnapshot}
use gen.RuntimeState.{RuntimeState, record_error}
use gen.Execution.BrokenLeg
use gen.MarketData.Runner.{PairMonitor, World}
use gen.MarketData.Runner.Tick.{Outside, on_buy_snapshot, on_sell_snapshot}

-- `swapped` says in which order the two orders of a trade take effect, should there be one.
pub data Delivery (F : Type 0) : Type 0 where
  bought sold : (swapped : Bool) → OrderBookSnapshot F → Delivery F
  buy_feed_failed sell_feed_failed : Exception → Delivery F

-- The exception that `gather` raises is the first one.
unfoldable pub first_of : Exception → Option Exception → Option Exception
first_of e none = some e
first_of e (some first) = some first

-- Which of the feeds still run, and the exception of the first that failed.
pub record Feeds : Type 0 where
  pub buy_open : Bool
  pub sell_open : Bool
  pub crashed : Option Exception

module _ {F C : Type 0} ⦃fl : Float F⦄ (repr : Exception → String)
    (out : Outside F C BrokenLeg.Reason) where
  -- The first exception leaves `gather`, and is recorded.
  unfoldable pub crash : Exception → Option Exception → World F C → World F C
  crash e (some first) w = w
  crash e none (m, state, c) =
      (m, record_error (concat m.pair.symbol (concat " monitor crashed: " (repr e))) state, c)

  -- What a callback comes back with.
  unfoldable pub after_buy : Feeds → Result (Unit {0}) × World F C → Feeds × World F C
  unfolding crash first_of
  after_buy feeds (ok _, w) = (feeds, w)
  after_buy feeds (raised e, w) = (
    record feeds { buy_open = false; crashed = first_of e feeds.crashed },
    crash e feeds.crashed w,
  )

  unfoldable pub after_sell : Feeds → Result (Unit {0}) × World F C → Feeds × World F C
  unfolding crash first_of
  after_sell feeds (ok _, w) = (feeds, w)
  after_sell feeds (raised e, w) = (
    record feeds { sell_open = false; crashed = first_of e feeds.crashed },
    crash e feeds.crashed w,
  )

  -- A feed that has ended delivers nothing any more; the other one goes on.
  unfoldable pub deliver : Delivery F → Feeds × World F C → Feeds × World F C
  unfolding after_buy after_sell
  deliver (bought swapped s) (feeds, w) =
      let called = after_buy feeds (on_buy_snapshot out swapped s w) in
      if feeds.buy_open then called else (feeds, w)
  deliver (sold swapped s) (feeds, w) =
      let called = after_sell feeds (on_sell_snapshot out swapped s w) in
      if feeds.sell_open then called else (feeds, w)
  deliver (buy_feed_failed e) (feeds, w) =
      if feeds.buy_open then after_buy feeds (raised e, w) else (feeds, w)
  deliver (sell_feed_failed e) (feeds, w) =
      if feeds.sell_open then after_sell feeds (raised e, w) else (feeds, w)

  unfoldable pub run_on : List (Delivery F) → Feeds × World F C → Feeds × World F C
  unfolding deliver
  run_on [] s = s
  run_on (d ∷ rest) s = run_on rest (deliver d s)

  unfoldable pub run : List (Delivery F) → World F C → Feeds × World F C
  unfolding run_on
  run deliveries w =
      run_on deliveries (record { buy_open = true; sell_open = true; crashed = none }, w)
