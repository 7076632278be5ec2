-- ===== src/MarketData/OrderbookCache.antt =====
-- backend/marketdata/orderbook_cache.py: the latest snapshot per exchange and symbol. Redis, `json` and
-- the ISO format of times are code outside the repository: `Redis` holds the calls made of the one,
-- over a state of its own, and `SnapshotJson` and `IsoTime` the functions of the others.
pub mod Payload
pub mod RoundTrip
pub mod Tests
use Prim.Native.String.{◌++◌ as concat}
use gen.Prelude.{ℕ, List, [], ◌∷◌, map, Option, none, some, String, ◌≡◌}
use gen.Errors.{Result, ok, raised, value_error}
use gen.Exec.{Exec, pure, lift, ◌>>=◌}
use gen.Schemas.{OrderBookLevel, OrderBookSnapshot}
use gen.MarketData.OrderbookCache.Payload.{
  SnapshotPayload, SnapshotJson, IsoTime, snapshot_to_json, json_to_snapshot,
}

abbrev pub default_ttl_seconds : ℕ
default_ttl_seconds = 5

pub record Redis (T C : Type 0) : Type 0 where
  -- `set(key, value, ex=seconds)`
  pub set : String → T → ℕ → Exec C (Unit {0})
  pub get : String → Exec C (Option T)

unfoldable pub cache_key : String → String → String
cache_key exchange symbol = concat "orderbook:" (concat exchange (concat ":" symbol))

unfoldable pub found : {A : Type 0} → Result A → Result (Option A)
found (ok a) = ok (some a)
found (raised e) = raised e

module _ {F T C : Type 0} (redis : Redis T C) (json : SnapshotJson F T) (iso : IsoTime) where
  unfoldable pub set_snapshot : ℕ → OrderBookSnapshot F → Exec C (Unit {0})
  unfolding cache_key snapshot_to_json
  set_snapshot ttl_seconds snapshot =
      redis.set (cache_key snapshot.exchange snapshot.symbol) (snapshot_to_json json iso snapshot)
        ttl_seconds

  unfoldable pub read_raw : Option T → Exec C (Option (OrderBookSnapshot F))
  unfolding found json_to_snapshot
  read_raw none = pure none
  read_raw (some raw) = lift (found (json_to_snapshot json iso raw))

  unfoldable pub get_snapshot : String → String → Exec C (Option (OrderBookSnapshot F))
  unfolding cache_key read_raw
  get_snapshot exchange symbol = redis.get (cache_key exchange symbol) >>= read_raw
