-- ===== src/MarketData/Microstructure/Tests.antt =====
-- Runs of the metrics, and their theorems at a concrete book.
use gen.Prelude.{List, [], ◌∷◌, ◌≡◌, refl}
use gen.Errors.{ok, raised, value_error}
use gen.Num.{◌≼◌, ◌≺◌}
use gen.Num.Int.{ℤ, pos, int_float, int_arith, ℤ-IsExact}
use gen.Schemas.{OrderBookLevel, OrderBookSnapshot}
use gen.MarketData.Microstructure.{
  fill, compute_vwap, bid_flow, ask_flow, compute_order_flow_imbalance,
}
use gen.MarketData.Microstructure.Vwap.{total_depth, compute_vwap_total, compute_vwap_bounds}
use gen.MarketData.Microstructure.Flow.{ofi_pressure}

abbrev level : ℤ → ℤ → OrderBookLevel ℤ
level p v = record { price = p; volume = v }

abbrev asks : List (OrderBookLevel ℤ)
asks = level (pos 100) (pos 2) ∷ level (pos 110) (pos 3) ∷ []

abbrev bids : List (OrderBookLevel ℤ)
bids = level (pos 90) (pos 4) ∷ level (pos 80) (pos 1) ∷ []

abbrev before : OrderBookSnapshot ℤ
before = record {
  exchange = "kraken";
  symbol = "BTC/USDT";
  timestamp = 0;
  bids = bids;
  asks = asks;
}

abbrev after : OrderBookSnapshot ℤ
after = record before {
  timestamp = 1;
  bids = level (pos 95) (pos 1) ∷ bids;
  asks = level (pos 105) (pos 3) ∷ [];
}

-- Two at 100 and two at 110 cost 420, or 105 each.
vwap_two_levels : compute_vwap asks (pos 4) ≡ ok (pos 105)
unfolding compute_vwap fill int_arith
vwap_two_levels = refl

vwap_too_deep : compute_vwap asks (pos 6) ≡ raised value_error
unfolding compute_vwap fill int_arith
vwap_too_deep = refl

vwap_not_positive : compute_vwap asks (pos 0) ≡ raised value_error
unfolding compute_vwap
vwap_not_positive = refl

imbalance : compute_order_flow_imbalance before after ≡ ok (pos 4)
unfolding compute_order_flow_imbalance bid_flow ask_flow int_arith
imbalance = refl

compute_vwap_total_example :
    let quantity : ℤ = pos 4 in
    (quantity ≼ total_depth asks → (v : ℤ) × (compute_vwap asks quantity ≡ ok v))
    × (¬ (quantity ≼ total_depth asks) → compute_vwap asks quantity ≡ raised value_error)
compute_vwap_total_example = compute_vwap_total ℤ-IsExact asks (pos 4) refl (refl, (refl, tt))

compute_vwap_bounds_example : (◌≼◌ {F = ℤ} (pos 100) (pos 105)) × (◌≼◌ {F = ℤ} (pos 105) (pos 110))
compute_vwap_bounds_example =
    compute_vwap_bounds ℤ-IsExact (pos 100) (pos 110) asks (pos 4) (refl, (refl, tt))
      ((refl, refl), ((refl, refl), tt)) vwap_two_levels

ofi_pressure_example :
    let four : ℤ = pos 4 in
    (pos 90 ≺ pos 95 → pos 100 ≺ pos 105 → pos 0 ≼ four)
    × (pos 95 ≺ pos 90 → pos 105 ≺ pos 100 → four ≼ pos 0)
    × (level (pos 90) (pos 4) ≡ level (pos 95) (pos 1)
        → level (pos 100) (pos 2) ≡ level (pos 105) (pos 3)
        → four ≡ pos 0)
ofi_pressure_example =
    ofi_pressure ℤ-IsExact before after (level (pos 90) (pos 4)) (level (pos 95) (pos 1))
      (level (pos 100) (pos 2)) (level (pos 105) (pos 3)) (level (pos 80) (pos 1) ∷ []) bids
      (level (pos 110) (pos 3) ∷ []) [] refl refl refl refl refl refl imbalance
