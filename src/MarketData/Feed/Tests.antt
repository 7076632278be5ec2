-- ===== src/MarketData/Feed/Tests.antt =====
-- A feed of two snapshots, and two libraries of exchanges.
use gen.Prelude.{
  ℕ, suc, ◌<◌, ◌≡◌, ◌↔◌, refl, true, false, List, [], ◌∷◌, length, none, some, leb, str_eq,
}
use gen.Errors.{Result, ok, raised, value_error}
use gen.Num.Int.{ℤ, pos, int_float}
use gen.Schemas.{OrderBookSnapshot}
use gen.Exec.{lift, ◌>>◌}
use gen.MarketData.Runner.Run.Tests.{book}
use gen.MarketData.Feed.{Source, run}
use gen.MarketData.Feed.Books.{raw_book_to_snapshot}
use gen.MarketData.Feed.Loop.{Passes, Ends, run_iff}
use gen.MarketData.Feed.Exchanges.{Library, ccxt_rest, get_exchange, get_default_feed}
use gen.MarketData.Feed.Shared.{requests, get_exchange_shared}

-- The state counts the snapshots; after the second one the feed is stopped.
abbrev two : Source ℤ ℕ
two = record {
  is_stopped = λ c. leb 2 c;
  fetch_one = λ c. (ok (book "kraken" 9 10), c);
  close = λ c. (ok tt, c);
  queue = none;
  callback = some (λ s c. (ok tt, suc c));
}

stops : run two 3 0 ≡ some (ok tt, 2)
unfolding run
stops = refl

run_iff_example : (run two 3 0 ≡ some (ok tt, 2)) ↔ (
    (snapshots : List (OrderBookSnapshot ℤ)) × (d : ℕ) × (t : Result (Unit {0}) × ℕ) × Passes two 0
      snapshots d
    × Ends two d t
    × (length snapshots < 3)
    × ((ok tt, 2) ≡ (two.close >> lift t.0) t.1))
run_iff_example = run_iff two 3 0 (ok tt, 2)

-- A row with a price alone is no level.
no_volume :
    raw_book_to_snapshot
      (λ z. ok z)
      (λ z. ok 0)
      0
      "kraken"
      "BTC/USDT"
      (record { timestamp = none; bids = (pos 1 ∷ []) ∷ []; asks = [] })
    ≡ raised value_error
unfolding raw_book_to_snapshot
no_volume = refl

-- An exchange is the number of the ones constructed before it.
abbrev installed : Library ℕ ℕ
installed = record {
  importable = true;
  has = λ id. str_eq id "kraken";
  construct = λ id c. (ok c, suc c);
}

abbrev missing : Library ℕ ℕ
missing = record installed { importable = false }

falls_back :
    (get_default_feed missing installed "kraken" "BTC/USDT" ([], [], 0)).0
    ≡ ok (record {
      exchange_id = "kraken";
      symbol = "BTC/USDT";
      transport = ccxt_rest;
      exchange = 0;
      limit = 100;
    })
unfolding get_default_feed
falls_back = refl

get_exchange_shared_example :
    get_exchange installed "kraken"
      (requests installed ("bybit" ∷ "kraken" ∷ []) (("kraken", 0) ∷ [], 1))
    ≡ (ok 0, requests installed ("bybit" ∷ "kraken" ∷ []) (("kraken", 0) ∷ [], 1))
unfolding get_exchange
get_exchange_shared_example =
    get_exchange_shared installed "kraken" ([], 0) ("bybit" ∷ "kraken" ∷ []) refl
