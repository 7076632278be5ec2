-- ===== src/MarketData/Feed/Books.antt =====
-- backend/marketdata/ws_ingestion.py: a book of ccxt, whose numbers are values `V` of JSON.
use gen.Prelude.{ℕ, List, [], ◌∷◌, Option, none, some, String}
use gen.Errors.{Result, ok, raised, value_error, ◌>>=◌}
use gen.Schemas.{OrderBookLevel, OrderBookSnapshot}

-- A book of ccxt; a missing list is an empty one.
pub record RawBook (V : Type 0) : Type 0 where
  pub timestamp : Option V
  pub bids : List (List V)
  pub asks : List (List V)

module _ {F V : Type 0} (float : V → Result F) where
  -- `for p, v, *_`
  unfoldable pub level_of : List V → Result (OrderBookLevel F)
  level_of [] = raised value_error
  level_of (p ∷ []) = raised value_error
  level_of (p ∷ v ∷ rest) =
      float p >>= λ price. float v >>= λ volume. ok (record { price = price; volume = volume })

  unfoldable pub levels_of : List (List V) → Result (List (OrderBookLevel F))
  unfolding level_of
  levels_of [] = ok []
  levels_of (row ∷ rows) =
      level_of row >>= λ level. levels_of rows >>= λ levels. ok (level ∷ levels)

  -- `datetime.fromtimestamp(ts_ms / 1000)`, or the time that it is
  unfoldable pub time_of : (V → Result ℕ) → ℕ → Option V → Result ℕ
  time_of from_ms now none = ok now
  time_of from_ms now (some ts_ms) = from_ms ts_ms

  -- `_raw_book_to_snapshot`
  unfoldable pub raw_book_to_snapshot :
      (V → Result ℕ) → ℕ → String → String → RawBook V → Result (OrderBookSnapshot F)
  unfolding levels_of time_of
  raw_book_to_snapshot from_ms now exchange symbol raw_book =
      time_of from_ms now raw_book.timestamp >>= λ timestamp. levels_of raw_book.bids >>= λ bids.
      levels_of raw_book.asks >>= λ asks. ok (record {
        exchange = exchange;
        symbol = symbol;
        timestamp = timestamp;
        bids = bids;
        asks = asks;
      })
