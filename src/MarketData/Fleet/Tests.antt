-- ===== src/MarketData/Fleet/Tests.antt =====
-- A pair and a triangle under one switch.
use gen.Prelude.{ℕ, ◌≡◌, refl, true, false, List, [], ◌∷◌}
use gen.Errors.{ok, os_error, ◌>>=◌}
use gen.Exec.{abc}
use gen.Num.Int.{ℤ, int_float}
use gen.Config.{RunnerConfig}
use gen.RuntimeState.{init}
use gen.MarketData.Runner.{new_monitor}
use gen.MarketData.Runner.Tests.{config}
use gen.MarketData.Runner.Run.{bought, buy_feed_failed}
use gen.MarketData.Runner.Run.Tests.{book, books, around, repr, engaged}
use gen.MarketData.TriangleRunner.Run.{delivered, target_bridge}
use gen.MarketData.TriangleRunner.Run.Tests.{triangle}
use gen.MarketData.Fleet.{
  Fleet, Event, at_pair, at_triangle, kill_switch_set, new_fleet, happen_all, run_forever,
}
use gen.MarketData.Fleet.Engaged.{holdings, happen_all_engaged}

abbrev both : RunnerConfig ℤ
both = record config { monitored_triangles = triangle ∷ [] }

abbrev fleet : Fleet ℤ ℕ
fleet = new_fleet repr (around books) (around books) both (engaged.1, 0)

abbrev events : List (Event ℤ)
events =
    at_triangle 0 (delivered target_bridge abc (book "kraken" 9 10))
    ∷ at_pair 0 (bought true (book "kraken" 9 10))
    ∷ at_pair 0 (buy_feed_failed os_error)
    ∷ kill_switch_set true
    ∷ at_pair 0 (bought false (book "kraken" 9 10))
    ∷ []

happen_all_engaged_example :
    let fleet' = happen_all repr (around books) (around books) events fleet in
    (holdings fleet' ≡ holdings fleet) × (fleet'.shared.0.kill_switch.engaged ≡ true)
happen_all_engaged_example =
    happen_all_engaged repr (around books) (around books) events fleet
      (tt, (tt, (tt, (refl, (tt, tt))))) refl

-- A feed that fails leaves two errors: of the crash, and of the exit.
two_errors :
    (run_forever repr
        (around books)
        (around books)
        (λ email c. (ok "u1", c))
        (at_pair 0 (buy_feed_failed os_error) ∷ [])
        both
        (init 300, 0)
      >>= λ f. ok f.shared.0.errors)
    ≡ ok ("BTC/USDT monitor crashed: failed" ∷ "BTC/USDT monitor exited: failed" ∷ [])
unfolding run_forever gen.MarketData.Runner.Run.deliver gen.RuntimeState.record_error init
two_errors = refl
