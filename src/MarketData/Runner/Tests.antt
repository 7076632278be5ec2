-- ===== src/MarketData/Runner/Tests.antt =====
-- An approved opportunity over the paper client.
use gen.Prelude.{ℕ, true, false, [], ◌∷◌}
use gen.Num.Int.{ℤ, pos, int_float}
use gen.Config.{PairConfig, RunnerConfig}
use gen.RuntimeState.{init}
use gen.Execution.Decision.{authorized}
use gen.Execution.Decision.Tests.{signal}
use gen.Execution.PaperExchange.Tests.{fresh}
use gen.MarketData.Runner.{Opportunity, Verdict, World, new_monitor}

abbrev pub pair : PairConfig
pair = record { symbol = "BTC/USDT"; exchange_buy = "kraken"; exchange_sell = "bybit" }

abbrev opportunity : Opportunity ℤ
opportunity = record { quantity = pos 5; vwap_ask = pos 10; vwap_bid = pos 30; net_alpha = pos 1 }

abbrev verdict : Verdict ℤ
verdict = record { signal = signal; approved = true; reason = authorized }

abbrev pub config : RunnerConfig ℤ
config = record {
  monitored_pairs = pair ∷ [];
  monitored_triangles = [];
  notional_per_trade_usd = pos 50;
  default_taker_fee_bps = pos 10;
  poll_interval_s = pos 2;
  local_user_email = "local";
  redis_url = "redis";
  enabled = true;
  sample_logging_enabled = false;
  sample_log_path = "samples";
}

abbrev world : World ℤ ℕ
world = (
  record (new_monitor pair config) { client = fresh; daily_notional_used_usd = pos 7 },
  init 300,
  0,
)
