-- ===== src/MarketData/Microstructure.antt =====
-- backend/marketdata/microstructure.py: metrics of order book snapshots.
pub mod Vwap
pub mod Price
pub mod Flow
mod Tests
use gen.Prelude.{List, [], ◌∷◌, if◌then◌else◌}
use gen.Errors.{Result, ok, raised, value_error, raise_if, ◌>>=◌}
use gen.Num.{Float, ◌⊕◌, ◌⊖◌, ◌⊗◌, ◌⊘◌, ◌<?◌, ◌≤?◌, ◌=?◌, num, min}
use gen.Schemas.{OrderBookLevel, OrderBookSnapshot, MicrostructureMetrics}

module _ {F : Type 0} ⦃fl : Float F⦄ where
  -- The loop of `compute_vwap`, from the quantity filled and the notional paid so far.
  unfoldable pub fill : F → List (OrderBookLevel F) → F → F → F × F
  fill quantity [] filled notional = (filled, notional)
  fill quantity (level ∷ levels) filled notional =
      let remaining = quantity ⊖ filled in
      let taken = min level.volume remaining in
      let rest = fill quantity levels (filled ⊕ taken) (notional ⊕ level.price ⊗ taken) in
      if remaining ≤? num 0 then (filled, notional) else rest

  unfoldable pub compute_vwap : List (OrderBookLevel F) → F → Result F
  compute_vwap levels quantity = raise_if (quantity ≤? num 0) value_error (
      let (filled, notional) = fill quantity levels (num 0) (num 0) in
      raise_if (filled <? quantity) value_error (notional ⊘ quantity))

  unfoldable pub compute_micro_price : OrderBookLevel F → OrderBookLevel F → Result F
  compute_micro_price best_bid best_ask =
      let total_volume = best_bid.volume ⊕ best_ask.volume in
      raise_if (total_volume ≤? num 0) value_error do
        bid_weight ← best_ask.volume ⊘ total_volume
        ask_weight ← best_bid.volume ⊘ total_volume
        ok (best_bid.price ⊗ bid_weight ⊕ best_ask.price ⊗ ask_weight)

  -- `_best_level`
  unfoldable pub best_level : List (OrderBookLevel F) → Result (OrderBookLevel F)
  best_level [] = raised value_error
  best_level (level ∷ levels) = ok level

  -- The bid side's contribution, from the level before and the level now.
  unfoldable pub bid_flow : OrderBookLevel F → OrderBookLevel F → F
  bid_flow prev curr =
      if prev.price <? curr.price
      then curr.volume
      else if curr.price =? prev.price
      then curr.volume ⊖ prev.volume
      else fl.neg curr.volume

  unfoldable pub ask_flow : OrderBookLevel F → OrderBookLevel F → F
  ask_flow prev curr =
      if prev.price <? curr.price
      then fl.neg curr.volume
      else if curr.price =? prev.price
      then curr.volume ⊖ prev.volume
      else curr.volume

  unfoldable pub compute_order_flow_imbalance : OrderBookSnapshot F → OrderBookSnapshot F → Result F
  unfolding best_level
  compute_order_flow_imbalance prev curr = do
    prev_bid ← best_level prev.bids
    curr_bid ← best_level curr.bids
    prev_ask ← best_level prev.asks
    curr_ask ← best_level curr.asks
    ok (bid_flow prev_bid curr_bid ⊖ ask_flow prev_ask curr_ask)

  unfoldable pub compute_microstructure_metrics :
      OrderBookSnapshot F → OrderBookSnapshot F → F → Result (MicrostructureMetrics F)
  unfolding best_level
  compute_microstructure_metrics prev curr quantity = do
    vwap_ask ← compute_vwap curr.asks quantity
    vwap_bid ← compute_vwap curr.bids quantity
    best_bid ← best_level curr.bids
    best_ask ← best_level curr.asks
    micro_price ← compute_micro_price best_bid best_ask
    ofi ← compute_order_flow_imbalance prev curr
    ok (record {
      vwap_ask = vwap_ask;
      vwap_bid = vwap_bid;
      micro_price = micro_price;
      order_flow_imbalance = ofi;
    })
