-- ===== src/MarketData/Runner/Run/Tests.antt =====
-- A monitor whose history is complete, fed with books of two exchanges, one of which fails.
use gen.Prelude.{
  ℕ, zero, suc, ◌≡◌, refl, true, false, List, [], ◌∷◌, some, String, str_eq, if◌then◌else◌,
}
use gen.Errors.{ok, Exception, os_error}
use gen.Exec.{pure}
use gen.Num.Int.{ℤ, pos, int_float}
use gen.Schemas.{OrderBookSnapshot}
use gen.RuntimeState.{init}
use gen.Execution.PaperExchange.{Market}
use gen.MarketData.Runner.{World}
use gen.MarketData.Runner.Tests.{pair, config}
use gen.MarketData.Runner.{new_monitor}
use gen.MarketData.Runner.Ledger.{Trades}
use gen.MarketData.Runner.Charge.{ledger, PairCharge}
use gen.MarketData.Runner.Tick.{Outside}
use gen.MarketData.Runner.Run.{Delivery, bought, sold, sell_feed_failed, run}
use gen.MarketData.Runner.Run.Trades.{run-Trades, run_engaged}

abbrev pub book : String → ℕ → ℕ → OrderBookSnapshot ℤ
book exchange bid ask = record {
  exchange = exchange;
  symbol = "BTC/USDT";
  timestamp = 0;
  bids = record { price = pos bid; volume = pos 40 } ∷ [];
  asks = record { price = pos ask; volume = pos 40 } ∷ [];
}

-- Kraken sells for ten what Bybit buys for thirty.
abbrev pub books : Market ℤ ℕ
books = record {
  get_snapshot = λ exchange symbol.
      pure (some (if str_eq exchange "kraken" then book "kraken" 9 10 else book "bybit" 30 31));
  uuid4 = λ c. ("id", suc c);
}

abbrev pub around : {R : Type 0} → Market ℤ ℕ → Outside ℤ ℕ R
around market = record {
  market = market;
  set_snapshot = λ s. pure tt;
  samples = record {
    clock = λ c. (pos c, suc c);
    dumps = λ s. s.symbol;
    append_text = λ text. pure tt;
  };
  store = λ r. pure tt;
  taker_fee = λ exchange listed. ok listed;
  trunc = λ z. ok z;
}

abbrev pub repr : Exception → String
repr e = "failed"

abbrev rows : ℕ → List (List ℤ)
rows zero = []
rows (suc n) = (pos 1 ∷ []) ∷ rows n

abbrev ready : World ℤ ℕ
ready =
    let m = new_monitor pair config in
    (
      record m {
        temporal_window = record m.temporal_window { rows = rows 100 };
        depth_builder = record m.depth_builder { rows = rows 50 };
      },
      init 300,
      0,
    )

abbrev pub engaged : World ℤ ℕ
engaged =
    (ready.0, record (init 300) { kill_switch = record { has_path = false; engaged = true } }, 0)

abbrev deliveries : List (Delivery ℤ)
deliveries =
    sold false (book "bybit" 30 31)
    ∷ bought true (book "kraken" 9 10)
    ∷ sell_feed_failed os_error
    ∷ sold false (book "bybit" 30 31)
    ∷ bought false (book "kraken" 9 10)
    ∷ []

run-Trades_example :
    Trades
      (PairCharge (around books))
      (ledger ready)
      (ledger (run repr (around books) deliveries ready).1)
run-Trades_example = run-Trades repr (around books) deliveries ready

run_engaged_example : ledger (run repr (around books) deliveries engaged).1 ≡ ledger engaged
run_engaged_example = run_engaged repr (around books) deliveries engaged refl
