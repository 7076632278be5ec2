-- ===== src/MarketData/TriangleRunner.antt =====
-- backend/marketdata/runner.py: what an evaluation of a triangle finds in its three books, and the
-- return of the middle price.
pub mod Tick
pub mod Safety
pub mod Run
use gen.Prelude.{List, Option, none, some, if◌then◌else◌}
use gen.Errors.{Result, ok, ◌>>=◌}
use gen.Num.{Float, ◌⊕◌, ◌⊖◌, ◌⊘◌, ◌<?◌, num}
use gen.Schemas.{OrderBookLevel}
use gen.Execution.Alpha.{TriangularAlpha, compute_triangular_net_alpha}
use gen.MarketData.Microstructure.{compute_vwap}
use gen.MarketData.Runner.{or_stop, unless_stopped}

-- The averages of the three legs, and the gain that they make.
pub record Cycle (F : Type 0) : Type 0 where
  pub vwap_bridge_quote : F
  pub vwap_target_bridge : F
  pub vwap_target_quote : F
  pub alpha : TriangularAlpha F

module _ {F : Type 0} ⦃fl : Float F⦄ where
  -- The body of the first `try`: every quantity is estimated from the price of the leg before.
  unfoldable pub cycle_vwaps :
      F
      → OrderBookLevel F
      → List (OrderBookLevel F)
      → OrderBookLevel F
      → List (OrderBookLevel F)
      → List (OrderBookLevel F)
      → Result (F × F × F)
  cycle_vwaps notional best_bridge_ask bridge_asks best_target_ask target_asks target_bids =
      notional ⊘ best_bridge_ask.price >>= λ bridge_qty_est.
      compute_vwap bridge_asks bridge_qty_est >>= λ vwap_bridge_quote.
      notional ⊘ vwap_bridge_quote >>= λ bridge_qty_rough.
      bridge_qty_rough ⊘ best_target_ask.price >>= λ target_qty_est.
      compute_vwap target_asks target_qty_est >>= λ vwap_target_bridge.
      bridge_qty_rough ⊘ vwap_target_bridge >>= λ target_qty_rough.
      compute_vwap target_bids target_qty_rough >>= λ vwap_target_quote.
      ok (vwap_bridge_quote, vwap_target_bridge, vwap_target_quote)

  -- `fee` is what `get_taker_fee_bps` says of the exchange.
  unfoldable pub find_cycle :
      Result F
      → F
      → OrderBookLevel F
      → List (OrderBookLevel F)
      → OrderBookLevel F
      → List (OrderBookLevel F)
      → List (OrderBookLevel F)
      → Result (Option (Cycle F))
  unfolding or_stop unless_stopped cycle_vwaps
  find_cycle fee notional best_bridge_ask bridge_asks best_target_ask target_asks target_bids =
      or_stop
        (cycle_vwaps notional best_bridge_ask bridge_asks best_target_ask target_asks target_bids)
      >>= λ walked.
          unless_stopped walked λ (vwap_bridge_quote, vwap_target_bridge, vwap_target_quote).
            fee >>= λ fee_bps. fee_bps ⊘ num 10000 >>= λ tau.
            or_stop (
              compute_triangular_net_alpha notional vwap_bridge_quote vwap_target_bridge
                vwap_target_quote tau)
            >>= λ gain. unless_stopped gain λ alpha. ok (
                some (record {
                  vwap_bridge_quote = vwap_bridge_quote;
                  vwap_target_bridge = vwap_target_bridge;
                  vwap_target_quote = vwap_target_quote;
                  alpha = alpha;
                }))

  -- The middle price, and its return on the one before if that is positive.
  unfoldable pub mid_return : Option F → OrderBookLevel F → OrderBookLevel F → Result (F × F)
  mid_return none best_bid best_ask =
      (best_bid.price ⊕ best_ask.price) ⊘ num 2 >>= λ mid. ok (mid, num 0)
  mid_return (some prev) best_bid best_ask = (best_bid.price ⊕ best_ask.price) ⊘ num 2 >>= λ mid.
      let relative = (mid ⊖ prev) ⊘ prev >>= λ r. ok (mid, r) in
      if num 0 <? prev then relative else ok (mid, num 0)
