-- ===== src/Api/Intent.antt =====
-- backend/api/main.py and backend/api/contracts.py: the endpoint of arbitrage intents. FastAPI, which
-- solves the dependencies in the order of their signatures, the random inputs and the network are
-- code outside of it; what the reply quotes is kept by its kind.
pub mod Guarded
pub mod Tests
use Prim.Native.String.{◌++◌ as concat}
use gen.Prelude.{Bool, true, false, not, Option, none, some, String, str_eq, if◌then◌else◌}
use gen.Errors.{Result, ok, raised, http_exception}
use gen.Exec.{Exec, pure, ◌>>=◌}
use gen.Num.{Float}
use gen.Schemas.{
  TradingMode, ExecutionStatus, ArbitrageSignal, RiskLimits, TradeExecutionResult, default_limits,
}
use gen.Execution.Decision.{Reason, should_execute}
use gen.Execution.BrokenLeg
use gen.Execution.BrokenLeg.{dispatch_orders}
use gen.Api.Auth.{Jwt, get_current_user_id}
use gen.Api.RateLimit.{
  TokenBucketRateLimiter, Reply, user, too_many_requests, rate_limit_dependency,
}

pub record TradeSignalRequest (F : Type 0) : Type 0 where
  pub user_id : String
  pub symbol : String
  pub exchange_buy : String
  pub exchange_sell : String
  pub capital_allocation_usd : F
  pub min_alpha_bps : F
  pub trading_mode : TradingMode

-- The two values of the field `status`.
pub data IntentStatus : Type 0 where
  order_dispatched signal_rejected : IntentStatus

-- The texts of the field `reason`.
pub data Rejection (F : Type 0) : Type 0 where
  user_id_mismatch order_dispatch_failed : Rejection F
  by_gate : Reason F → Rejection F

-- The dict `metrics`: empty, with the signal, or with the signal and the result.
pub data Metrics (F : Type 0) : Type 0 where
  no_metrics : Metrics F
  of_signal : ArbitrageSignal F → Metrics F
  of_result :
      ArbitrageSignal F → ExecutionStatus → (net_spread_pct realized_pnl_usd : F) → Metrics F

pub record TradeSignalResponse (F : Type 0) : Type 0 where
  pub status : IntentStatus
  pub reason : Option (Rejection F)
  pub metrics : Metrics F
  pub allocated_capital : Option F
  pub target_pair : Option String

module _ {F : Type 0} where
  unfoldable pub target_of : TradeSignalRequest F → String
  target_of request =
      concat request.exchange_buy
        (concat "->" (concat request.exchange_sell (concat ":" request.symbol)))

  unfoldable pub reject : Rejection F → Metrics F → Option String → TradeSignalResponse F
  reject reason metrics target_pair = record {
    status = signal_rejected;
    reason = some reason;
    metrics = metrics;
    allocated_capital = none;
    target_pair = target_pair;
  }

  -- What follows the dispatch; any exception of it is caught.
  unfoldable pub answer :
      TradeSignalRequest F
      → ArbitrageSignal F
      → Result (TradeExecutionResult F BrokenLeg.Reason)
      → TradeSignalResponse F
  unfolding target_of reject
  answer request signal (raised e) =
      reject order_dispatch_failed (of_signal signal) (some (target_of request))
  answer request signal (ok result) = record {
    status = order_dispatched;
    reason = none;
    metrics = of_result signal result.status result.net_spread_pct result.realized_pnl_usd;
    allocated_capital = some request.capital_allocation_usd;
    target_pair = some (target_of request);
  }

module _ {F C : Type 0} ⦃fl : Float F⦄ where
  -- From the signal on.
  unfoldable pub decide : TradeSignalRequest F → ArbitrageSignal F → Exec C (TradeSignalResponse F)
  unfolding reject answer target_of dispatch_orders
  decide request signal c =
      let limits = record default_limits { min_alpha_bps = request.min_alpha_bps } in
      let (approved, reason) =
        should_execute signal.expected_alpha_bps signal limits (some request.capital_allocation_usd)
          (fl.decimal 0 0) in
      let (result, c') = dispatch_orders request signal c in
      if not approved
      then (ok (reject (by_gate reason) (of_signal signal) (some (target_of request))), c)
      else (ok (answer request signal result), c')

  -- `evaluate` is `evaluate_spread` of the model on the synthetic inputs.
  unfoldable pub process_arbitrage_intent :
      Exec C (ArbitrageSignal F) → TradeSignalRequest F → String → Exec C (TradeSignalResponse F)
  unfolding decide
  process_arbitrage_intent evaluate request user_id c =
      let evaluated = (evaluate >>= decide request) c in
      if not (str_eq request.user_id user_id)
      then (ok (reject user_id_mismatch no_metrics none), c)
      else evaluated

  -- HTTP 429, or the handler.
  unfoldable pub admitted :
      Exec C (ArbitrageSignal F)
      → TradeSignalRequest F
      → Reply × TokenBucketRateLimiter F
      → C
      → Result (TradeSignalResponse F) × (TokenBucketRateLimiter F × C)
  unfolding process_arbitrage_intent
  admitted evaluate request (too_many_requests, limiter) c =
      (raised (http_exception 429), (limiter, c))
  admitted evaluate request (user user_id, limiter) c =
      let (r, c') = process_arbitrage_intent evaluate request user_id c in (r, (limiter, c'))

  unfoldable pub authenticated :
      Exec C (ArbitrageSignal F)
      → TradeSignalRequest F
      → F
      → Result String
      → Exec (TokenBucketRateLimiter F × C) (TradeSignalResponse F)
  unfolding admitted
  authenticated evaluate request now (raised e) s = (raised e, s)
  authenticated evaluate request now (ok user_id) (limiter, c) =
      admitted evaluate request (rate_limit_dependency user_id now limiter) c

  -- The request with its dependencies.
  unfoldable pub endpoint :
      Jwt
      → Option String
      → Exec C (ArbitrageSignal F)
      → String
      → F
      → TradeSignalRequest F
      → Exec (TokenBucketRateLimiter F × C) (TradeSignalResponse F)
  unfolding authenticated
  endpoint jwt environ evaluate token now request =
      authenticated evaluate request now (get_current_user_id jwt environ token)
