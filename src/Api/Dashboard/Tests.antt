-- ===== src/Api/Dashboard/Tests.antt =====
-- A history of two signals.
use gen.Prelude.{◌≡◌, refl, true, [], ◌∷◌, reverse, take, drop, none, String}
use gen.Num.Int.{ℤ, pos, negsuc}
use gen.RuntimeState.{SignalRecord, RuntimeState, init}
use gen.Api.Dashboard.{get_signals}
use gen.Api.Dashboard.Signals.{get_signals-take}

abbrev signal : String → SignalRecord ℤ String
signal id = record {
  id = id;
  timestamp = pos 0;
  symbol = "BTC/USDT";
  exchange_buy = "kraken";
  exchange_sell = "bybit";
  net_alpha_bps = pos 20;
  execution_probability = pos 1;
  adverse_hazard = pos 0;
  approved = true;
  reason = "";
  execution_status = none;
  realized_pnl_usd = none;
}

abbrev state : RuntimeState ℤ String
state = record (init 300) { signal_history = signal "old" ∷ signal "new" ∷ [] }

newest : get_signals (pos 1) state ≡ signal "new" ∷ []
unfolding get_signals
newest = refl

get_signals-take_example :
    (get_signals (pos 2) state ≡ take 2 (reverse state.signal_history))
    × (get_signals (pos 0) state ≡ reverse state.signal_history)
    × (get_signals (negsuc 1) state ≡ reverse (drop 2 state.signal_history))
get_signals-take_example = get_signals-take 1 state
