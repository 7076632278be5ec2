-- ===== src/MarketData/Fleet/Engaged.antt =====
-- All monitors under an engaged kill switch.
use gen.Prelude.{All, ℕ, zero, suc, true, ◌≡◌, refl, ap, ◌∙◌, List, [], ◌∷◌, map, String}
use gen.Errors.{Exception}
use gen.Num.{Float}
use gen.RuntimeState.{RuntimeState}
use gen.Execution.Decision.{Reason}
use gen.Execution.BrokenLeg
use gen.Execution.Triangular
use gen.Execution.PaperExchange.{Fill}
use gen.MarketData.Runner.{PairMonitor}
use gen.MarketData.Runner.Ledger.{Trades-engaged}
use gen.MarketData.Runner.Charge.{PairCharge}
use gen.MarketData.Runner.Tick.{Outside}
use gen.MarketData.Runner.Run.{Delivery as PairDelivery, Feeds as PairFeeds}
use gen.MarketData.Runner.Run.Trades.{deliver-Trades as pair-Trades}
use gen.MarketData.TriangleRunner.Tick.{TriangleMonitor}
use gen.MarketData.TriangleRunner.Safety.{TriangleCharge}
use gen.MarketData.TriangleRunner.Run.{Delivery as TriangleDelivery, Feeds as TriangleFeeds}
use gen.MarketData.TriangleRunner.Run.Cap.{deliver-Trades as triangle-Trades}
use gen.MarketData.Fleet.{
  Fleet, Event, at_pair, at_triangle, kill_switch_set, step_at, pair_step, triangle_step, happen,
  happen_all,
}

-- A step that keeps a property of the state, and under it a view of the member that it steps.
module _ {X S V : Type 0} (f : X → S → X × S) (view : X → V) (Holds : S → Type 0)
    (kept : (x : X) (s : S) → Holds s → (view (f x s).0 ≡ view x) × Holds (f x s).1) where
  step_at-kept :
      (n : ℕ) (xs : List X) (s : S)
      → Holds s
      → (map view (step_at f n xs s).0 ≡ map view xs) × Holds (step_at f n xs s).1
  unfolding step_at
  step_at-kept n [] s h = (refl, h)
  step_at-kept zero (x ∷ xs) s h =
      let (same, still) = kept x s h in (ap (λ v. v ∷ map view xs) same, still)
  step_at-kept (suc n) (x ∷ xs) s h =
      let (same, still) = step_at-kept n xs s h in (ap (λ vs. view x ∷ vs) same, still)

module _ {F : Type 0} where
  -- The fills and the daily notional of a monitor.
  abbrev pub pair_holding : PairFeeds × PairMonitor F → List (Fill F) × F
  pair_holding (feeds, m) = (m.client.fills, m.daily_notional_used_usd)

  abbrev pub triangle_holding : TriangleFeeds × TriangleMonitor F → List (Fill F) × F
  triangle_holding (feeds, m) = (m.client.fills, m.daily_notional_used_usd)

  abbrev pub holdings :
      {C : Type 0} → Fleet F C → List (List (Fill F) × F) × List (List (Fill F) × F)
  holdings fleet = (map pair_holding fleet.pairs, map triangle_holding fleet.triangles)

module _ {F C : Type 0} ⦃fl : Float F⦄ (repr : Exception → String)
    (out : Outside F C BrokenLeg.Reason) (out_triangles : Outside F C Triangular.Reason) where
  abbrev IsEngaged : RuntimeState F (Reason F) × C → Type 0
  IsEngaged (state, c) = state.kill_switch.engaged ≡ true

  pair_step-kept :
      (d : PairDelivery F) (x : PairFeeds × PairMonitor F) (s : RuntimeState F (Reason F) × C)
      → IsEngaged s
      → let (x', s') = pair_step repr out out_triangles d x s in
        (pair_holding x' ≡ pair_holding x) × IsEngaged s'
  unfolding pair_step
  pair_step-kept d (feeds, m) (state, c) h =
      let same = Trades-engaged (PairCharge out) (pair-Trades repr out d feeds (m, state, c)) h in
      (ap (λ l. (l.fills, l.daily)) same, ap (λ l. l.kill_switch.engaged) same ∙ h)

  triangle_step-kept :
      (d : TriangleDelivery F) (x : TriangleFeeds × TriangleMonitor F)
      (s : RuntimeState F (Reason F) × C)
      → IsEngaged s
      → let (x', s') = triangle_step repr out out_triangles d x s in
        (triangle_holding x' ≡ triangle_holding x) × IsEngaged s'
  unfolding triangle_step
  triangle_step-kept d (feeds, m) (state, c) h =
      let same =
        Trades-engaged TriangleCharge (triangle-Trades repr out_triangles d feeds (m, state, c))
          h in
      (ap (λ l. (l.fills, l.daily)) same, ap (λ l. l.kill_switch.engaged) same ∙ h)

  -- The event does not disengage the kill switch.
  abbrev pub LeavesEngaged : Event F → Type 0
  LeavesEngaged (at_pair n d) = Unit
  LeavesEngaged (at_triangle n d) = Unit
  LeavesEngaged (kill_switch_set b) = b ≡ true

  happen-kept :
      (event : Event F) (fleet : Fleet F C)
      → LeavesEngaged event
      → IsEngaged fleet.shared
      → let fleet' = happen repr out out_triangles event fleet in
        (holdings fleet' ≡ holdings fleet) × IsEngaged fleet'.shared
  unfolding happen
  happen-kept (at_pair n d) fleet u h =
      let (same, still) =
        step_at-kept (pair_step repr out out_triangles d) pair_holding IsEngaged (pair_step-kept d)
          n fleet.pairs fleet.shared h in
      (ap (λ l. (l, map triangle_holding fleet.triangles)) same, still)
  happen-kept (at_triangle n d) fleet u h =
      let (same, still) =
        step_at-kept (triangle_step repr out out_triangles d) triangle_holding IsEngaged
          (triangle_step-kept d) n fleet.triangles fleet.shared h in
      (ap (λ l. (map pair_holding fleet.pairs, l)) same, still)
  happen-kept (kill_switch_set b) fleet u h = (refl, u)

  -- While the kill switch is engaged and no event disengages it, no event of any feed, in any interleaving
  -- of all monitors, changes the fills or the daily notional of a monitor of pairs or of triangles, and
  -- the switch stays engaged.
  pub happen_all_engaged :
      (events : List (Event F)) (fleet : Fleet F C)
      → All LeavesEngaged events
      → fleet.shared.0.kill_switch.engaged ≡ true
      → let fleet' = happen_all repr out out_triangles events fleet in
        (holdings fleet' ≡ holdings fleet) × (fleet'.shared.0.kill_switch.engaged ≡ true)
  unfolding happen_all
  happen_all_engaged [] fleet u h = (refl, h)
  happen_all_engaged (event ∷ rest) fleet (u, us) h =
      let (same, still) = happen-kept event fleet u h in
      let (same', still') =
        happen_all_engaged rest (happen repr out out_triangles event fleet) us still in
      (same' ∙ same, still')
