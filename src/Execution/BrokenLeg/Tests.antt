-- ===== src/Execution/BrokenLeg/Tests.antt =====
-- Runs of the two-leg execution against a client that rejects sells, and its theorems there.
use gen.Prelude.{ℕ, Bool, true, false, ◌≡◌, ◌≢◌, refl, none, some, ◌≤◌}
use gen.Errors.{ok, raised, not_implemented_error}
use gen.Exec.{pure, gather}
use gen.Num.{◌≼◌, min}
use gen.Num.Order.{min-le, le-min}
use gen.Num.Int.{ℤ, pos, int_float, int_arith, ℤ-IsOrdered, ℤ-IsExact}
use gen.Schemas.{ArbitrageSignal, partial_fill, hedged, TradeExecutionResult}
use gen.Execution.Exchange.{Side, buy, sell, LegResult, ExchangeClient, IsResponsive}
use gen.Execution.BrokenLeg.{
  Reason, sell_rejected, PairedOrders, repeg, liquidate_rest, auto_hedge, flatten, settle,
  execute_paired_orders, dispatch_orders,
}
use gen.Execution.BrokenLeg.Hedge.{IsHonest, IsLiquid, auto_hedge_bounds}
use gen.Execution.BrokenLeg.Orders.{counted, no_calls, auto_hedge_calls}
use gen.Execution.BrokenLeg.Total.{execute_total}
use gen.Execution.BrokenLeg.Outcome.{Outcome, execute-Outcome, execute_never_partial}

abbrev filled : ℤ → LegResult ℤ
filled a = record { accepted = true; filled_amount = a; avg_price = pos 10; reason = none }

abbrev ioc_reply : Side → ℤ → LegResult ℤ
ioc_reply buy a = filled a
ioc_reply sell a = record {
  accepted = false;
  filled_amount = pos 0;
  avg_price = pos 0;
  reason = some "no liquidity";
}

-- Sells are rejected as IOC orders; a limit order fills one unit at most, a market order all.
abbrev pub thin : ExchangeClient ℤ (Unit {0})
thin = record {
  place_ioc_order = λ e y side a p. pure (ioc_reply side a);
  place_limit_order = λ e y side a p. pure (filled (min (pos 1) a));
  place_market_order = λ e y side a. pure (filled a);
  best_bid = λ e y. pure (pos 9);
}

abbrev pub orders : Bool → PairedOrders ℤ
orders volatile = record {
  buy_exchange = "kraken";
  sell_exchange = "bybit";
  symbol = "BTC/USDT";
  amount = pos 5;
  buy_price = pos 10;
  sell_price = pos 12;
  gross_spread_pct = pos 1;
  net_spread_pct = pos 1;
  ml_confidence_score = pos 1;
  high_volatility = volatile;
}

abbrev outcome : TradeExecutionResult ℤ Reason
outcome = record {
  status = hedged;
  buy_exchange = "kraken";
  sell_exchange = "bybit";
  symbol = "BTC/USDT";
  executed_volume_usd = pos 50;
  gross_spread_pct = pos 1;
  net_spread_pct = pos 1;
  realized_pnl_usd = pos 0;
  ml_confidence_score = pos 1;
  reason = some (sell_rejected (some "no liquidity"));
}

thin-IsHonest : IsHonest thin
thin-IsHonest = record {
  ioc_fill = λ e y side a p s r s' h k. ioc side a r s s' h k;
  limit_fill = λ e y side a p s r s' h k.
      let value : min (pos 1) a ≡ r.filled_amount = cc in
      rw (← value) (
        le-min ℤ-IsOrdered (pos 1) a (pos 0) refl k,
        (min-le ℤ-IsOrdered (pos 1) a refl (ℤ-IsExact.le_refl a)).1,
      );
  market_fill = λ e y side a s r s' h k.
      let value : a ≡ r.filled_amount = cc in rw (← value) (k, ℤ-IsExact.le_refl a);
}
  where
    ioc :
        (side : Side) (a : ℤ) (r : LegResult ℤ) (s s' : Unit {0})
        → pure {A = LegResult ℤ} (ioc_reply side a) s ≡ (ok r, s')
        → pos 0 ≼ a
        → (pos 0 ≼ r.filled_amount) × (r.filled_amount ≼ a)
    ioc buy a r s s' h k =
        let value : a ≡ r.filled_amount = cc in rw (← value) (k, ℤ-IsExact.le_refl a)
    ioc sell a r s s' h k = let value : pos 0 ≡ r.filled_amount = cc in rw (← value) (refl, k)

thin-IsLiquid : IsLiquid thin
thin-IsLiquid e y side a s r s' h = cc

-- Three re-pegs fill three units, and the market order the other two.
hedged_run : execute_paired_orders thin 3 true (orders false) tt ≡ (ok outcome, tt)
unfolding execute_paired_orders gather settle flatten auto_hedge repeg liquidate_rest int_arith
hedged_run = refl

abbrev signal : ArbitrageSignal ℤ
signal = record {
  execution_probability = pos 1;
  expected_alpha_bps = pos 1;
  adverse_hazard = pos 0;
}

not_wired :
    dispatch_orders {Request = ℕ} {F = ℤ} {S = Unit {0}} 7 signal tt
    ≡ (raised not_implemented_error, tt)
unfolding dispatch_orders
not_wired = refl

auto_hedge_bounds_example : (pos 0 ≼ pos 5) × (pos 5 ≼ pos 5) × (IsLiquid thin → pos 5 ≡ pos 5)
unfolding auto_hedge repeg liquidate_rest int_arith
auto_hedge_bounds_example =
    auto_hedge_bounds thin ℤ-IsExact thin-IsHonest "kraken" "BTC/USDT" sell (pos 5) 3 false tt refl
      refl

auto_hedge_calls_example :
    let c =
      (auto_hedge (counted thin) 3 "kraken" "BTC/USDT" sell (pos 5) false (tt, no_calls)).1.1 in
    (c.ioc ≡ 0) × (c.market ≤ 1) × (c.limit ≤ 3) × (false ≡ true → (c.limit ≡ 0) × (c.market ≡ 1))
auto_hedge_calls_example = auto_hedge_calls thin "kraken" "BTC/USDT" sell 3 (pos 5) false tt

execute-Outcome_example :
    let o = orders false in
    (bought : LegResult ℤ) × (sold : LegResult ℤ) × (s' : Unit {0}) × (gather true
        (thin.place_ioc_order o.buy_exchange o.symbol buy o.amount o.buy_price)
        (thin.place_ioc_order o.sell_exchange o.symbol sell o.amount o.sell_price)
        tt
      ≡ (ok (bought, sold), s'))
    × Outcome thin 3 bought.accepted sold.accepted o bought sold s' tt outcome
execute-Outcome_example = execute-Outcome thin 3 true (orders false) tt hedged_run

execute_never_partial_example : outcome.status ≢ partial_fill
execute_never_partial_example =
    execute_never_partial thin 3 ℤ-IsExact thin-IsHonest thin-IsLiquid true (orders false) tt refl
      hedged_run

pub thin-IsResponsive : IsResponsive thin
thin-IsResponsive = record {
  ioc = λ e y side a p s. (ioc_reply side a, s, refl);
  limit = λ e y side a p s. (filled (min (pos 1) a), s, refl);
  market = λ e y side a s. (filled a, s, refl);
  bid = λ e y s. (pos 9, s, refl);
}

execute_total_example :
    let o = orders false in
    (r : TradeExecutionResult ℤ Reason) × (s'' : Unit {0}) × (execute_paired_orders thin 3 true o tt
      ≡ (ok r, s''))
    × (bought : LegResult ℤ) × (sold : LegResult ℤ) × (s' : Unit {0}) × (gather true
          (thin.place_ioc_order o.buy_exchange o.symbol buy o.amount o.buy_price)
          (thin.place_ioc_order o.sell_exchange o.symbol sell o.amount o.sell_price)
          tt
        ≡ (ok (bought, sold), s'))
    × Outcome thin 3 bought.accepted sold.accepted o bought sold s' s'' r
execute_total_example = execute_total thin thin-IsResponsive 3 true (orders false) tt
