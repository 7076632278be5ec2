-- ===== src/Execution/PaperExchange/Tests.antt =====
-- The engines over a paper client whose ids are all the same.
use gen.Prelude.{ℕ, suc, true, false, none, [], ◌∷◌, ◌++◌, String, ◌≡◌, if◌then◌else◌, refl}
use gen.Errors.{ok, raised, runtime_error}
use gen.Exec.{pure}
use gen.Num.{◌⊗◌}
use gen.Num.Int.{ℤ, pos, int_float}
use gen.Schemas.{success}
use gen.Execution.Exchange.{buy, sell}
use gen.Execution.BrokenLeg
use gen.Execution.BrokenLeg.{execute_paired_orders}
use gen.Execution.BrokenLeg.Tests.{orders}
use gen.Execution.PaperExchange.{
  Market, Fill, Balances, PaperExchangeClient, has_key, record_fill, place_market_order,
  paper_client,
}
use gen.Execution.PaperExchange.Fills.{record_fill-balances, paper-execute_paired_orders}

-- Nothing is cached.
abbrev pub dry : Market ℤ ℕ
dry = record { get_snapshot = λ e y. pure none; uuid4 = λ c. ("id", suc c) }

abbrev pub fresh : PaperExchangeClient ℤ
fresh = record { balances = []; starting_balance_usd = pos 10000; fills = [] }

no_price :
    place_market_order dry "kraken" "BTC/USDT" buy (pos 1) (fresh, 0)
    ≡ (raised runtime_error, (fresh, 0))
unfolding place_market_order
no_price = refl

record_fill-balances_example :
    let (r, (p', c')) = record_fill dry "kraken" "BTC/USDT" buy (pos 5) (pos 10) (fresh, 0) in
    (has_key p'.balances ("kraken", "USDT") ≡ true)
    × ((seed : Balances ℤ) × (p'.balances ≡ [] ++ seed))
    × ((record_fill dry "kraken" "ETH/USDT" sell (pos 4) (pos 11) (p', c')).1.0.balances
        ≡ p'.balances)
record_fill-balances_example =
    record_fill-balances dry "kraken" "BTC/USDT" "ETH/USDT" buy sell (pos 5) (pos 10) (pos 4)
      (pos 11) fresh 0

paper-execute_paired_orders_example :
    let o = orders false in
    let bought : String → Fill ℤ = λ id. record {
      id = id;
      exchange = "kraken";
      symbol = "BTC/USDT";
      side = buy;
      amount = pos 5;
      price = pos 10;
      paper = true;
    } in
    let sold : String → Fill ℤ = λ id. record {
      id = id;
      exchange = "bybit";
      symbol = "BTC/USDT";
      side = sell;
      amount = pos 5;
      price = pos 12;
      paper = true;
    } in
    let (r, (p', c')) = execute_paired_orders (paper_client dry) 3 true o (fresh, 0) in
    let volume = pos 5 ⊗ pos 10 in
    (r ≡ ok (BrokenLeg.report o success volume (volume ⊗ pos 1) none))
    × ((id id' : String) × (p'.fills ≡ (
          if true
          then ([] ++ sold id ∷ []) ++ bought id' ∷ []
          else ([] ++ bought id ∷ []) ++ sold id' ∷ [])))
paper-execute_paired_orders_example = paper-execute_paired_orders dry 3 true (orders false) fresh 0
