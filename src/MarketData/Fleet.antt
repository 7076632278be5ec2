-- ===== src/MarketData/Fleet.antt =====
-- backend/marketdata/runner.py: `run_forever`. All monitors run at once over one state, so a run is
-- the sequence of what their feeds deliver; the runs that have ended are those that crashed.
pub mod Engaged
pub mod Tests
use Prim.Native.String.{◌++◌ as concat}
use gen.Prelude.{
  ℕ, zero, suc, Bool, true, false, not, ◌&&◌, List, [], ◌∷◌, ◌++◌, map, Option, none, some, String,
  if◌then◌else◌,
}
use gen.Errors.{Result, ok, raised, Exception}
use gen.Exec.{Exec}
use gen.Num.{Float}
use gen.Config.{PairConfig, RunnerConfig}
use gen.RuntimeState.{RuntimeState, record_error}
use gen.Execution.Decision.{Reason}
use gen.Execution.BrokenLeg
use gen.Execution.Triangular
use gen.Execution.Triangular.{TriangleConfig, label}
use gen.MarketData.Runner.{PairMonitor, new_monitor}
use gen.MarketData.Runner.Tick.{Outside}
use gen.MarketData.Runner.Run.{
  Delivery as PairDelivery, Feeds as PairFeeds, deliver as deliver_pair,
}
use gen.MarketData.TriangleRunner.Tick.{TriangleMonitor, new_triangle_monitor}
use gen.MarketData.TriangleRunner.Run.{
  Delivery as TriangleDelivery, Feeds as TriangleFeeds, deliver as deliver_triangle,
}

-- The monitors with what is left of their feeds, the state, and the outside.
pub record Fleet (F C : Type 0) : Type 0 where
  pub pairs : List (PairFeeds × PairMonitor F)
  pub triangles : List (TriangleFeeds × TriangleMonitor F)
  pub shared : RuntimeState F (Reason F) × C

-- What a feed of one of the monitors delivers, or the dashboard's setting of the kill switch, of which
-- the monitors see the flag in memory.
pub data Event (F : Type 0) : Type 0 where
  at_pair : ℕ → PairDelivery F → Event F
  at_triangle : ℕ → TriangleDelivery F → Event F
  kill_switch_set : Bool → Event F

-- A step of the monitor with an index, if there is one.
unfoldable pub step_at : {X S : Type 0} → (X → S → X × S) → ℕ → List X → S → List X × S
step_at f n [] s = ([], s)
step_at f zero (x ∷ xs) s = let (x', s') = f x s in (x' ∷ xs, s')
step_at f (suc n) (x ∷ xs) s = let (xs', s') = step_at f n xs s in (x ∷ xs', s')

-- `isinstance(result, Exception)`, for every result with its label
unfoldable pub record_exits :
    {F R : Type 0}
    → (Exception → String)
    → List (String × Option Exception)
    → RuntimeState F R
    → RuntimeState F R
record_exits repr [] state = state
record_exits repr ((label, none) ∷ rest) state = record_exits repr rest state
record_exits repr ((label, some e) ∷ rest) state =
    record_exits repr rest (record_error (concat label (concat " monitor exited: " (repr e))) state)

module _ {F C : Type 0} ⦃fl : Float F⦄ (repr : Exception → String)
    (out : Outside F C BrokenLeg.Reason) (out_triangles : Outside F C Triangular.Reason) where
  abbrev pub Shared : Type 0
  Shared = RuntimeState F (Reason F) × C

  unfoldable pub pair_step :
      PairDelivery F → PairFeeds × PairMonitor F → Shared → (PairFeeds × PairMonitor F) × Shared
  pair_step d (feeds, m) (state, c) =
      let (feeds', (m', state', c')) = deliver_pair repr out d (feeds, (m, state, c)) in
      ((feeds', m'), (state', c'))

  unfoldable pub triangle_step :
      TriangleDelivery F
      → TriangleFeeds × TriangleMonitor F
      → Shared
      → (TriangleFeeds × TriangleMonitor F) × Shared
  triangle_step d (feeds, m) (state, c) =
      let (feeds', (m', state', c')) =
        deliver_triangle repr out_triangles d (feeds, (m, state, c)) in
      ((feeds', m'), (state', c'))

  unfoldable pub happen : Event F → Fleet F C → Fleet F C
  unfolding step_at pair_step triangle_step
  happen (at_pair n d) fleet =
      let (pairs, shared) = step_at (pair_step d) n fleet.pairs fleet.shared in
      record fleet { pairs = pairs; shared = shared }
  happen (at_triangle n d) fleet =
      let (triangles, shared) = step_at (triangle_step d) n fleet.triangles fleet.shared in
      record fleet { triangles = triangles; shared = shared }
  happen (kill_switch_set b) fleet =
      let (state, c) = fleet.shared in
      record fleet {
        shared = (record state { kill_switch = record state.kill_switch { engaged = b } }, c);
      }

  -- `asyncio.gather` of all runs, as far as the events go
  unfoldable pub happen_all : List (Event F) → Fleet F C → Fleet F C
  unfolding happen
  happen_all [] fleet = fleet
  happen_all (event ∷ rest) fleet = happen_all rest (happen event fleet)

  -- The labels with the results of `gather`.
  unfoldable pub results : Fleet F C → List (String × Option Exception)
  unfolding label
  results fleet =
      map (λ (feeds, m). (m.pair.symbol, feeds.crashed)) fleet.pairs
      ++ map (λ (feeds, m). (label m.triangle, feeds.crashed)) fleet.triangles

  abbrev pub new_fleet : RunnerConfig F → Shared → Fleet F C
  new_fleet config shared = record {
    pairs =
        map
          (λ p.
            (record { buy_open = true; sell_open = true; crashed = none }, new_monitor p config))
          config.monitored_pairs;
    triangles =
        map
          (λ t. (
            record {
              bridge_quote_open = true;
              target_bridge_open = true;
              target_quote_open = true;
              crashed = none;
            },
            new_triangle_monitor t config,
          ))
          config.monitored_triangles;
    shared = shared;
  }

  -- The state that the dashboard reads, once the user is known.
  unfoldable pub announce :
      RunnerConfig F → String → RuntimeState F (Reason F) → RuntimeState F (Reason F)
  unfolding label
  announce config user_id state = record state {
    local_user_id = some user_id;
    monitored_pairs =
        map (λ p. p.symbol) config.monitored_pairs ++ map label config.monitored_triangles;
  }

  unfoldable pub watch :
      List (Event F)
      → RunnerConfig F
      → Result String × C
      → RuntimeState F (Reason F)
      → Result (Fleet F C)
  unfolding happen_all results record_exits announce
  watch events config (raised e, c) state = raised e
  watch events config (ok user_id, c) state =
      let fleet = happen_all events (new_fleet config (announce config user_id state, c)) in
      let (state', c') = fleet.shared in
      ok (record fleet { shared = (record_exits repr (results fleet) state', c') })

  abbrev no_items : {A : Type 0} → List A → Bool
  no_items [] = true
  no_items (x ∷ xs) = false

  -- `get_user` is `get_or_create_user_by_email` in a session of its own.
  unfoldable pub run_forever :
      (String → Exec C String) → List (Event F) → RunnerConfig F → Shared → Result (Fleet F C)
  unfolding watch
  run_forever get_user events config (state, c) =
      let idle : Fleet F C = record { pairs = []; triangles = []; shared = (state, c) } in
      let watched = watch events config (get_user config.local_user_email c) state in
      if not config.enabled
      then ok idle
      else if no_items config.monitored_pairs && no_items config.monitored_triangles
      then ok idle
      else watched
