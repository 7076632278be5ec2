-- ===== src/MarketData/Features.antt =====
-- backend/marketdata/features.py: the rolling inputs of the network, from a stream of snapshots.
-- `trunc` is Python's `int` of a float, which raises for an infinity or a NaN.
pub mod Shape
pub mod Tests
use gen.Prelude.{
  String, ℕ, zero, suc, ◌+◌, ◌-◌, Bool, List, [], ◌∷◌, Option, none, some, length, map, ltb, leb,
  ◌==◌, if◌then◌else◌,
}
use gen.Errors.{Result, ok, raised, value_error, index_error, ◌>>=◌}
use gen.Num.{Float, ◌⊕◌, ◌⊖◌, ◌⊗◌, ◌⊘◌, ◌<?◌, ◌≤?◌, num, sum}
use gen.Num.Int.{ℤ, pos, negsuc}
use gen.Schemas.{
  OrderBookLevel, OrderBookSnapshot, TemporalFeatures, DepthMatrix, window_size, depth_size,
}
use gen.MarketData.Microstructure.{compute_vwap, compute_micro_price, compute_order_flow_imbalance}
use gen.Ml.Heuristic.{append}

-- `FEATURE_NAMES`, in the order of a row.
abbrev feature_names : List String
feature_names =
    "mid_price_return" ∷ "spread_pct" ∷ "vwap_bid_drift" ∷ "vwap_ask_drift" ∷ "micro_price_drift"
    ∷ "order_flow_imbalance" ∷ "best_bid_volume" ∷ "best_ask_volume" ∷ "volume_imbalance"
    ∷ "volume_acceleration" ∷ "bid_depth_notional" ∷ "ask_depth_notional" ∷ []

-- What an update keeps for the next one.
pub record Previous (F : Type 0) : Type 0 where
  pub snapshot : OrderBookSnapshot F
  pub best_bid : OrderBookLevel F
  pub best_ask : OrderBookLevel F
  pub vwap_bid : F
  pub vwap_ask : F
  pub micro_price : F
  pub total_volume : F

pub record TemporalFeatureWindow (F : Type 0) : Type 0 where
  pub notional_quantity : F
  pub prev : Option (Previous F)
  pub rows : List (List F)

-- The features that compare a snapshot with the one before.
pub record Drift (F : Type 0) : Type 0 where
  pub mid_price_return : F
  pub ofi : F
  pub vwap_bid_drift : F
  pub vwap_ask_drift : F
  pub micro_price_drift : F
  pub volume_accel : F

module _ {F : Type 0} ⦃fl : Float F⦄ where
  -- `a / b if b > 0 else 0.0`
  unfoldable pub ratio : F → F → Result F
  ratio a b = let quotient = a ⊘ b in if num 0 <? b then quotient else ok (num 0)

  -- The two averages, or the best prices if either raises ValueError.
  unfoldable pub fall_back : OrderBookLevel F → OrderBookLevel F → Result (F × F) → Result (F × F)
  fall_back best_bid best_ask (ok vwaps) = ok vwaps
  fall_back best_bid best_ask (raised value_error) = ok (best_bid.price, best_ask.price)
  fall_back best_bid best_ask (raised e) = raised e

  unfoldable pub vwaps : OrderBookSnapshot F → F → Result (F × F)
  vwaps snapshot quantity = compute_vwap snapshot.bids quantity >>= λ bid.
      compute_vwap snapshot.asks quantity >>= λ ask. ok (bid, ask)

  -- `except (ValueError, IndexError): ofi = 0.0`
  unfoldable pub ofi_or_zero : Result F → Result F
  ofi_or_zero (ok ofi) = ok ofi
  ofi_or_zero (raised value_error) = ok (num 0)
  ofi_or_zero (raised index_error) = ok (num 0)
  ofi_or_zero (raised e) = raised e

  unfoldable pub depth_notional : List (OrderBookLevel F) → F
  depth_notional levels = sum (map (λ level. level.price ⊗ level.volume) levels)

  unfoldable pub mid_of : OrderBookLevel F → OrderBookLevel F → Result F
  mid_of best_bid best_ask = (best_bid.price ⊕ best_ask.price) ⊘ num 2

  unfoldable pub drift : Option (Previous F) → Previous F → F → Result (Drift F)
  unfolding ratio ofi_or_zero mid_of
  drift none now mid_price = ok (record {
    mid_price_return = num 0;
    ofi = num 0;
    vwap_bid_drift = num 0;
    vwap_ask_drift = num 0;
    micro_price_drift = num 0;
    volume_accel = num 0;
  })
  drift (some prev) now mid_price = mid_of prev.best_bid prev.best_ask >>= λ prev_mid.
      ratio (mid_price ⊖ prev_mid) prev_mid >>= λ mid_price_return.
      ofi_or_zero (compute_order_flow_imbalance prev.snapshot now.snapshot) >>= λ ofi. ok (record {
        mid_price_return = mid_price_return;
        ofi = ofi;
        vwap_bid_drift = now.vwap_bid ⊖ prev.vwap_bid;
        vwap_ask_drift = now.vwap_ask ⊖ prev.vwap_ask;
        micro_price_drift = now.micro_price ⊖ prev.micro_price;
        volume_accel = now.total_volume ⊖ prev.total_volume;
      })

  -- What is kept of a snapshot, its spread and volume imbalance, and its drift.
  unfoldable pub measure :
      F
      → Option (Previous F)
      → OrderBookSnapshot F
      → OrderBookLevel F
      → OrderBookLevel F
      → Result (Previous F × F × F × Drift F)
  unfolding ratio fall_back vwaps mid_of drift
  measure quantity prev snapshot best_bid best_ask = mid_of best_bid best_ask >>= λ mid_price.
      ratio (best_ask.price ⊖ best_bid.price) mid_price >>= λ spread_pct.
      fall_back best_bid best_ask (vwaps snapshot quantity) >>= λ (vwap_bid, vwap_ask).
      compute_micro_price best_bid best_ask >>= λ micro_price.
      let total_volume = best_bid.volume ⊕ best_ask.volume in
      ratio (best_bid.volume ⊖ best_ask.volume) total_volume >>= λ volume_imbalance.
      let now : Previous F = record {
        snapshot = snapshot;
        best_bid = best_bid;
        best_ask = best_ask;
        vwap_bid = vwap_bid;
        vwap_ask = vwap_ask;
        micro_price = micro_price;
        total_volume = total_volume;
      } in
      drift prev now mid_price >>= λ d. ok (now, spread_pct, volume_imbalance, d)

  -- The twelve features of a tick.
  unfoldable pub row_of : Previous F × F × F × Drift F → List F
  unfolding depth_notional
  row_of (now, spread_pct, volume_imbalance, d) =
      d.mid_price_return
      ∷ spread_pct
      ∷ d.vwap_bid_drift
      ∷ d.vwap_ask_drift
      ∷ d.micro_price_drift
      ∷ d.ofi
      ∷ now.best_bid.volume
      ∷ now.best_ask.volume
      ∷ volume_imbalance
      ∷ d.volume_accel
      ∷ depth_notional now.snapshot.bids
      ∷ depth_notional now.snapshot.asks
      ∷ []

  -- A row that was computed is appended; a computation that raised leaves the window as it is.
  unfoldable pub push_row :
      TemporalFeatureWindow F
      → Result (Previous F × F × F × Drift F)
      → Result (Unit {0}) × TemporalFeatureWindow F
  unfolding row_of
  push_row w (ok m) =
      (ok tt, record w { prev = some m.0; rows = append window_size w.rows (row_of m) })
  push_row w (raised e) = (raised e, w)

  unfoldable pub update_sides :
      OrderBookSnapshot F
      → TemporalFeatureWindow F
      → List (OrderBookLevel F)
      → List (OrderBookLevel F)
      → Result (Unit {0}) × TemporalFeatureWindow F
  unfolding measure push_row
  update_sides snapshot w [] asks = (ok tt, w)
  update_sides snapshot w (best_bid ∷ bids) [] = (ok tt, w)
  update_sides snapshot w (best_bid ∷ bids) (best_ask ∷ asks) =
      push_row w (measure w.notional_quantity w.prev snapshot best_bid best_ask)

  -- `TemporalFeatureWindow.update`: a snapshot with an empty side is skipped.
  unfoldable pub update_window :
      OrderBookSnapshot F → TemporalFeatureWindow F → Result (Unit {0}) × TemporalFeatureWindow F
  unfolding update_sides
  update_window snapshot w = update_sides snapshot w snapshot.bids snapshot.asks

  unfoldable pub window_is_ready : TemporalFeatureWindow F → Bool
  window_is_ready w = length w.rows == window_size

  unfoldable pub to_temporal_features : TemporalFeatureWindow F → Option (TemporalFeatures F)
  unfolding window_is_ready
  to_temporal_features w = if window_is_ready w then some (record { window = w.rows }) else none

pub record DepthMatrixBuilder (F : Type 0) : Type 0 where
  pub bin_width_pct : F
  pub rows : List (List F)

abbrev pub half : ℕ
half = 25

-- `half - 1 - offset` and `half + offset`, if they are between 0 and SIZE.
unfoldable pub bid_index : ℤ → Option ℕ
bid_index (pos k) = if ltb k half then some (half - 1 - k) else none
bid_index (negsuc k) = if ltb (half + k) depth_size then some (half + k) else none

unfoldable pub ask_index : ℤ → Option ℕ
ask_index (pos k) = if ltb (half + k) depth_size then some (half + k) else none
ask_index (negsuc k) = if ltb k half then some (half - 1 - k) else none

module _ {F : Type 0} ⦃fl : Float F⦄ where
  -- `row[idx] += volume`
  unfoldable pub add_at : ℕ → F → List F → List F
  add_at n volume [] = []
  add_at zero volume (x ∷ row) = (x ⊕ volume) ∷ row
  add_at (suc n) volume (x ∷ row) = x ∷ add_at n volume row

  unfoldable pub add_bin : Option ℕ → F → List F → List F
  unfolding add_at
  add_bin none volume row = row
  add_bin (some n) volume row = add_at n volume row

  -- One of the two loops over the levels; `distance` is the price's distance from the middle.
  unfoldable pub add_levels :
      (F → Result ℤ)
      → (ℤ → Option ℕ)
      → (F → F)
      → F
      → List (OrderBookLevel F)
      → List F
      → Result (List F)
  unfolding add_bin
  add_levels trunc index distance bin_width [] row = ok row
  add_levels trunc index distance bin_width (level ∷ levels) row =
      distance level.price ⊘ bin_width >>= λ bins. trunc bins >>= λ offset.
      add_levels trunc index distance bin_width levels (add_bin (index offset) level.volume row)

  -- `[0.0] * n`
  unfoldable pub zeros : ℕ → List F
  zeros zero = []
  zeros (suc n) = num 0 ∷ zeros n

  unfoldable pub depth_row : (F → Result ℤ) → F → F → OrderBookSnapshot F → Result (List F)
  unfolding add_levels zeros bid_index ask_index
  depth_row trunc mid_price bin_width snapshot =
      add_levels trunc bid_index (λ price. mid_price ⊖ price) bin_width snapshot.bids
        (zeros depth_size)
      >>= add_levels trunc ask_index (λ price. price ⊖ mid_price) bin_width snapshot.asks

  unfoldable pub push_depth :
      DepthMatrixBuilder F → Result (Option (List F)) → Result (Unit {0}) × DepthMatrixBuilder F
  push_depth b (ok none) = (ok tt, b)
  push_depth b (ok (some row)) = (ok tt, record b { rows = append depth_size b.rows row })
  push_depth b (raised e) = (raised e, b)

  -- The row of a snapshot, unless the bins have no width.
  unfoldable pub binned :
      (F → Result ℤ)
      → F
      → OrderBookSnapshot F
      → OrderBookLevel F
      → OrderBookLevel F
      → Result (Option (List F))
  unfolding depth_row mid_of
  binned trunc bin_width_pct snapshot best_bid best_ask = mid_of best_bid best_ask >>= λ mid_price.
      let bin_width = mid_price ⊗ bin_width_pct in
      let row = depth_row trunc mid_price bin_width snapshot >>= λ r. ok (some r) in
      if bin_width ≤? num 0 then ok none else row

  unfoldable pub update_depth_sides :
      (F → Result ℤ)
      → OrderBookSnapshot F
      → DepthMatrixBuilder F
      → List (OrderBookLevel F)
      → List (OrderBookLevel F)
      → Result (Unit {0}) × DepthMatrixBuilder F
  unfolding binned push_depth
  update_depth_sides trunc snapshot b [] asks = (ok tt, b)
  update_depth_sides trunc snapshot b (best_bid ∷ bids) [] = (ok tt, b)
  update_depth_sides trunc snapshot b (best_bid ∷ bids) (best_ask ∷ asks) =
      push_depth b (binned trunc b.bin_width_pct snapshot best_bid best_ask)

  -- `DepthMatrixBuilder.update`
  unfoldable pub update_depth :
      (F → Result ℤ)
      → OrderBookSnapshot F
      → DepthMatrixBuilder F
      → Result (Unit {0}) × DepthMatrixBuilder F
  unfolding update_depth_sides
  update_depth trunc snapshot b = update_depth_sides trunc snapshot b snapshot.bids snapshot.asks

  unfoldable pub depth_is_ready : DepthMatrixBuilder F → Bool
  depth_is_ready b = length b.rows == depth_size

  unfoldable pub to_depth_matrix : DepthMatrixBuilder F → Option (DepthMatrix F)
  unfolding depth_is_ready
  to_depth_matrix b = if depth_is_ready b then some (record { grid = b.rows }) else none
