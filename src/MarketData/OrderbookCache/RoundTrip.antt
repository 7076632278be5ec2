-- ===== src/MarketData/OrderbookCache/RoundTrip.antt =====
-- What `get_snapshot` makes of what `set_snapshot` wrote.
use gen.Prelude.{ℕ, List, [], ◌∷◌, map, some, String, ◌≡◌, refl}
use gen.Errors.{ok}
use gen.Schemas.{OrderBookLevel, OrderBookSnapshot}
use gen.MarketData.OrderbookCache.Payload.{
  SnapshotJson, IsoTime, row_of_level, level_of_row, levels_of_rows, snapshot_to_json,
  json_to_snapshot,
}
use gen.MarketData.OrderbookCache.{Redis, set_snapshot, read_raw, get_snapshot, found, cache_key}

levels_of_rows-map :
    {F : Type 0} (levels : List (OrderBookLevel F))
    → levels_of_rows (map row_of_level levels) ≡ ok levels
unfolding levels_of_rows level_of_row row_of_level
levels_of_rows-map [] = refl
levels_of_rows-map (l ∷ levels) = rw (levels_of_rows-map levels) refl

module _ {F T C : Type 0} (redis : Redis T C) (json : SnapshotJson F T) (iso : IsoTime) where
  json_to_snapshot-snapshot_to_json :
      (s : OrderBookSnapshot F) → json_to_snapshot json iso (snapshot_to_json json iso s) ≡ ok s
  unfolding json_to_snapshot snapshot_to_json
  json_to_snapshot-snapshot_to_json s =
      rw
        (
          json.loads-dumps,
          iso.fromisoformat-isoformat s.timestamp,
          levels_of_rows-map s.bids,
          levels_of_rows-map s.asks,
        )
        refl

  -- A value that was set is got until it expires or is set again.
  abbrev pub Keeps : Type 0
  Keeps =
      (key : String) (value : T) (seconds : ℕ) (c c' : C)
      → redis.set key value seconds c ≡ (ok tt, c')
      → redis.get key c' ≡ (ok (some value), c')

  -- Where Redis still has what was set, a snapshot is read back as it was written: exchange, symbol,
  -- time and both sides of the book in their order.
  pub get_snapshot-set_snapshot :
      Keeps
      → (ttl_seconds : ℕ) (s : OrderBookSnapshot F) (c c' : C)
      → set_snapshot redis json iso ttl_seconds s c ≡ (ok tt, c')
      → get_snapshot redis json iso s.exchange s.symbol c' ≡ (ok (some s), c')
  unfolding get_snapshot set_snapshot read_raw found
  get_snapshot-set_snapshot keeps ttl_seconds s c c' written =
      rw
        (
          keeps (cache_key s.exchange s.symbol) (snapshot_to_json json iso s) ttl_seconds c c'
              written,
          json_to_snapshot-snapshot_to_json s,
        )
        refl
