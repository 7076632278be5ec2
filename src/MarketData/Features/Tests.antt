-- ===== src/MarketData/Features/Tests.antt =====
-- A window and a depth grid over whole prices.
use gen.Prelude.{[], ◌∷◌, none, some, All, ◌≡◌, refl, length, arith}
use gen.Errors.{ok}
use gen.Num.Int.{ℤ, pos, int_float, int_arith}
use gen.Schemas.{OrderBookSnapshot, TemporalFeatures, window_size, feature_count}
use gen.MarketData.Features.{
  TemporalFeatureWindow, update_window, to_temporal_features, DepthMatrixBuilder, update_depth,
  bid_index, ask_index,
}
use gen.MarketData.Microstructure.{compute_vwap, fill, compute_micro_price}
use gen.Ml.Heuristic.{append}
use gen.MarketData.Features.Shape.{IsShaped, update_window-IsShaped}

abbrev pub snapshot : OrderBookSnapshot ℤ
snapshot = record {
  exchange = "kraken";
  symbol = "BTC/USDT";
  timestamp = 0;
  bids = record { price = pos 100; volume = pos 4 } ∷ [];
  asks = record { price = pos 102; volume = pos 4 } ∷ [];
}

abbrev pub empty_window : TemporalFeatureWindow ℤ
empty_window = record { notional_quantity = pos 1; prev = none; rows = [] }

abbrev empty_grid : DepthMatrixBuilder ℤ
empty_grid = record { bin_width_pct = pos 1; rows = [] }

one_row : length (update_window snapshot empty_window).1.rows ≡ 1
unfolding update_window int_arith compute_vwap fill compute_micro_price append
one_row = refl

-- Both levels are less than a bin away from the middle.
one_depth_row : length (update_depth (λ z. ok z) snapshot empty_grid).1.rows ≡ 1
unfolding update_depth int_arith append
one_depth_row = refl

touch : (bid_index (pos 0) ≡ some 24) × (ask_index (pos 0) ≡ some 25) × (bid_index (pos 25) ≡ none)
unfolding bid_index ask_index
touch = (refl, refl, refl)

update_window-IsShaped_example :
    let w' = (update_window snapshot empty_window).1 in
    IsShaped window_size feature_count w'.rows
    × ((features : TemporalFeatures ℤ)
        → to_temporal_features w' ≡ some features
        → (length features.window ≡ window_size)
          × All (λ row. length row ≡ feature_count) features.window)
update_window-IsShaped_example = update_window-IsShaped snapshot empty_window (ground arith)
