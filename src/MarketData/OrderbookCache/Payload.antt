-- ===== src/MarketData/OrderbookCache/Payload.antt =====
-- backend/marketdata/orderbook_cache.py: a snapshot as JSON.
use gen.Prelude.{ℕ, List, [], ◌∷◌, map, String, ◌≡◌}
use gen.Errors.{Result, ok, raised, value_error, ◌>>=◌}
use gen.Schemas.{OrderBookLevel, OrderBookSnapshot}

-- The dict `payload`; a level is a list of numbers.
pub record SnapshotPayload (F : Type 0) : Type 0 where
  pub exchange : String
  pub symbol : String
  pub timestamp : String
  pub bids : List (List F)
  pub asks : List (List F)

pub record SnapshotJson (F T : Type 0) : Type 0 where
  -- `json.dumps` and `json.loads`
  pub dumps : SnapshotPayload F → T
  pub loads : T → Result (SnapshotPayload F)
  -- the documented round trip, of finite floats
  pub loads-dumps : (p : SnapshotPayload F) → loads (dumps p) ≡ ok p

pub record IsoTime : Type 0 where
  pub isoformat : ℕ → String
  pub fromisoformat : String → Result ℕ
  -- the documented round trip of `datetime`
  pub fromisoformat-isoformat : (t : ℕ) → fromisoformat (isoformat t) ≡ ok t

module _ {F : Type 0} where
  -- `[lvl.price, lvl.volume]`
  unfoldable pub row_of_level : OrderBookLevel F → List F
  row_of_level lvl = lvl.price ∷ lvl.volume ∷ []

  -- `for p, v in`
  unfoldable pub level_of_row : List F → Result (OrderBookLevel F)
  level_of_row (p ∷ v ∷ []) = ok (record { price = p; volume = v })
  level_of_row _ = raised value_error

  unfoldable pub levels_of_rows : List (List F) → Result (List (OrderBookLevel F))
  unfolding level_of_row
  levels_of_rows [] = ok []
  levels_of_rows (row ∷ rows) =
      level_of_row row >>= λ level. levels_of_rows rows >>= λ levels. ok (level ∷ levels)

module _ {F T : Type 0} (json : SnapshotJson F T) (iso : IsoTime) where
  -- `_snapshot_to_json`
  unfoldable pub snapshot_to_json : OrderBookSnapshot F → T
  unfolding row_of_level
  snapshot_to_json snapshot = json.dumps (record {
    exchange = snapshot.exchange;
    symbol = snapshot.symbol;
    timestamp = iso.isoformat snapshot.timestamp;
    bids = map row_of_level snapshot.bids;
    asks = map row_of_level snapshot.asks;
  })

  -- `_json_to_snapshot`
  unfoldable pub json_to_snapshot : T → Result (OrderBookSnapshot F)
  unfolding levels_of_rows
  json_to_snapshot raw = json.loads raw >>= λ payload.
      iso.fromisoformat payload.timestamp >>= λ timestamp. levels_of_rows payload.bids >>= λ bids.
      levels_of_rows payload.asks >>= λ asks. ok (record {
        exchange = payload.exchange;
        symbol = payload.symbol;
        timestamp = timestamp;
        bids = bids;
        asks = asks;
      })
