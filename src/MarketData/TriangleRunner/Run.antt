-- ===== src/MarketData/TriangleRunner/Run.antt =====
-- backend/marketdata/runner.py: `TriangleMonitor.run`. Its three feeds run at once, so a run is the
-- sequence of what they deliver.
pub mod Cap
pub mod Tests
use Prim.Native.String.{◌++◌ as concat}
use gen.Prelude.{Bool, true, false, Option, none, some, List, [], ◌∷◌, String, if◌then◌else◌}
use gen.Errors.{Result, ok, raised, Exception}
use gen.Exec.{Arrival}
use gen.Num.{Float}
use gen.Schemas.{OrderBookSnapshot}
use gen.RuntimeState.{record_error}
use gen.Execution.Triangular
use gen.Execution.Triangular.{label}
use gen.MarketData.Runner.Tick.{Outside}
use gen.MarketData.TriangleRunner.Tick.{TriangleWorld, on_snapshot}

-- The feeds, by the leg whose book they deliver.
pub data Leg : Type 0 where
  bridge_quote target_bridge target_quote : Leg

-- `arrival` is the order in which the orders of a trade take effect, should there be one.
pub data Delivery (F : Type 0) : Type 0 where
  delivered : Leg → (arrival : Arrival) → OrderBookSnapshot F → Delivery F
  feed_failed : Leg → Exception → Delivery F

-- The exception that `gather` raises is the first one.
unfoldable pub first_of : Exception → Option Exception → Option Exception
first_of e none = some e
first_of e (some first) = some first

-- Which of the feeds still run, and the exception of the first that failed.
pub record Feeds : Type 0 where
  pub bridge_quote_open : Bool
  pub target_bridge_open : Bool
  pub target_quote_open : Bool
  pub crashed : Option Exception

unfoldable pub is_open : Leg → Feeds → Bool
is_open bridge_quote feeds = feeds.bridge_quote_open
is_open target_bridge feeds = feeds.target_bridge_open
is_open target_quote feeds = feeds.target_quote_open

-- A failure of a feed, which is the end of it.
unfoldable pub shut : Leg → Exception → Feeds → Feeds
unfolding first_of
shut bridge_quote e feeds = record feeds {
  bridge_quote_open = false;
  crashed = first_of e feeds.crashed;
}
shut target_bridge e feeds = record feeds {
  target_bridge_open = false;
  crashed = first_of e feeds.crashed;
}
shut target_quote e feeds = record feeds {
  target_quote_open = false;
  crashed = first_of e feeds.crashed;
}

module _ {F C : Type 0} ⦃fl : Float F⦄ (repr : Exception → String)
    (out : Outside F C Triangular.Reason) where
  -- The first exception leaves `gather`, and is recorded.
  unfoldable pub crash : Exception → Option Exception → TriangleWorld F C → TriangleWorld F C
  unfolding label
  crash e (some first) w = w
  crash e none (m, state, c) =
      (m, record_error (concat (label m.triangle) (concat " monitor crashed: " (repr e))) state, c)

  unfoldable pub after_call :
      Leg → Feeds → Result (Unit {0}) × TriangleWorld F C → Feeds × TriangleWorld F C
  unfolding crash shut
  after_call leg feeds (ok _, w) = (feeds, w)
  after_call leg feeds (raised e, w) = (shut leg e feeds, crash e feeds.crashed w)

  -- A feed that has ended delivers nothing any more; the others go on.
  unfoldable pub deliver : Delivery F → Feeds × TriangleWorld F C → Feeds × TriangleWorld F C
  unfolding after_call is_open
  deliver (delivered leg arrival s) (feeds, w) =
      let called = after_call leg feeds (on_snapshot out arrival s w) in
      if is_open leg feeds then called else (feeds, w)
  deliver (feed_failed leg e) (feeds, w) =
      if is_open leg feeds then after_call leg feeds (raised e, w) else (feeds, w)

  unfoldable pub run_on : List (Delivery F) → Feeds × TriangleWorld F C → Feeds × TriangleWorld F C
  unfolding deliver
  run_on [] s = s
  run_on (d ∷ rest) s = run_on rest (deliver d s)

  unfoldable pub run : List (Delivery F) → TriangleWorld F C → Feeds × TriangleWorld F C
  unfolding run_on
  run deliveries w = run_on deliveries (
    record {
      bridge_quote_open = true;
      target_bridge_open = true;
      target_quote_open = true;
      crashed = none;
    },
    w,
  )
