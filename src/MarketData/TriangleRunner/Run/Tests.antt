-- ===== src/MarketData/TriangleRunner/Run/Tests.antt =====
-- A triangle over three books whose cycle triples the notional.
use gen.Prelude.{ℕ, suc, refl, List, [], ◌∷◌, some, str_eq, if◌then◌else◌}
use gen.Errors.{os_error}
use gen.Exec.{pure, abc, cab}
use gen.Num.{◌≼◌}
use gen.Num.Int.{ℤ, pos, int_float, ℤ-IsExact}
use gen.Schemas.{default_limits}
use gen.RuntimeState.{init}
use gen.Execution.Triangular.{TriangleConfig}
use gen.Execution.PaperExchange.{Market}
use gen.MarketData.Runner.Tests.{config}
use gen.MarketData.Runner.Run.Tests.{book, around, repr}
use gen.MarketData.TriangleRunner.Tick.{TriangleWorld, new_triangle_monitor}
use gen.MarketData.TriangleRunner.Run.{
  Delivery, delivered, feed_failed, bridge_quote, target_bridge, target_quote, run,
}
use gen.MarketData.TriangleRunner.Run.Cap.{run_capped}

abbrev books : Market ℤ ℕ
books = record {
  get_snapshot = λ exchange symbol.
      pure (some (if str_eq symbol "ETH/USDT" then book exchange 60 61 else book exchange 9 10));
  uuid4 = λ c. ("id", suc c);
}

abbrev pub triangle : TriangleConfig
triangle = record { exchange = "kraken"; quote = "USDT"; bridge = "BTC"; target = "ETH" }

abbrev world : TriangleWorld ℤ ℕ
world = (
  record (new_triangle_monitor triangle config) { daily_notional_used_usd = pos 480 },
  init 300,
  0,
)

abbrev deliveries : List (Delivery ℤ)
deliveries =
    delivered bridge_quote abc (book "kraken" 9 10)
    ∷ feed_failed target_bridge os_error
    ∷ delivered target_quote cab (book "kraken" 60 61)
    ∷ []

run_capped_example :
    (run repr (around books) deliveries world).1.0.daily_notional_used_usd
    ≼ default_limits.max_daily_notional_usd
run_capped_example = run_capped ℤ-IsExact repr (around books) deliveries world refl
