-- ===== src/MarketData/Feed/Exchanges.antt =====
-- backend/marketdata/ws_ingestion.py: the exchanges that the feeds share. ccxt is code outside the
-- repository: a library of exchanges `E`, over a state `C`.
use gen.Prelude.{ℕ, Bool, not, List, [], ◌∷◌, Option, none, some, String, str_eq, if◌then◌else◌}
use gen.Errors.{Result, ok, raised, value_error, import_error, runtime_error}
use gen.Exec.{Exec}

-- ccxt.pro or ccxt.async_support: whether it can be imported, the classes it has, and their
-- constructors.
pub record Library (E C : Type 0) : Type 0 where
  pub importable : Bool
  pub has : String → Bool
  pub construct : String → Exec C E

-- `_pro_exchange_cache` and `_rest_exchange_cache`
unfoldable pub cached : {E : Type 0} → String → List (String × E) → Option E
cached exchange_id [] = none
cached exchange_id ((k, e) ∷ cache) =
    let rest = cached exchange_id cache in if str_eq k exchange_id then some e else rest

module _ {E C : Type 0} (library : Library E C) where
  -- A new exchange is kept in the cache.
  unfoldable pub keep_new :
      String → List (String × E) → Result E × C → Result E × (List (String × E) × C)
  keep_new exchange_id cache (ok e, c) = (ok e, ((exchange_id, e) ∷ cache, c))
  keep_new exchange_id cache (raised x, c) = (raised x, (cache, c))

  unfoldable pub cached_or_new : String → Option E → Exec (List (String × E) × C) E
  unfolding keep_new
  cached_or_new exchange_id (some e) s = (ok e, s)
  cached_or_new exchange_id none s =
      let made = keep_new exchange_id s.0 (library.construct exchange_id s.1) in
      if not library.importable
      then (raised import_error, s)
      else if not (library.has exchange_id)
      then (raised value_error, s)
      else made

  -- `_get_pro_exchange` and `_get_rest_exchange`
  unfoldable pub get_exchange : String → Exec (List (String × E) × C) E
  unfolding cached cached_or_new
  get_exchange exchange_id s = cached_or_new exchange_id (cached exchange_id s.0) s

pub data Transport : Type 0 where
  ccxt_pro ccxt_rest : Transport

-- A feed of either class.
pub record MarketDataFeed (E : Type 0) : Type 0 where
  pub exchange_id : String
  pub symbol : String
  pub transport : Transport
  pub exchange : E
  pub limit : ℕ

-- `_DEFAULT_DEPTH_BY_EXCHANGE.get(exchange_id, 100)`
unfoldable pub default_depth : String → ℕ
default_depth exchange_id = if str_eq exchange_id "bybit" then 50 else 100

module _ {E C : Type 0} (pro rest : Library E C) where
  -- The two caches, and the state of the libraries.
  abbrev pub Caches : Type 0
  Caches = List (String × E) × List (String × E) × C

  -- `CcxtProFeed(exchange_id, symbol, limit)`
  unfoldable pub ccxt_pro_feed : String → String → ℕ → Exec Caches (MarketDataFeed E)
  unfolding get_exchange
  ccxt_pro_feed exchange_id symbol limit (pros, rests, c) =
      opened (get_exchange pro exchange_id (pros, c))
    where
      opened : Result E × (List (String × E) × C) → Result (MarketDataFeed E) × Caches
      opened (ok e, (pros', c')) = (
        ok (record {
          exchange_id = exchange_id;
          symbol = symbol;
          transport = ccxt_pro;
          exchange = e;
          limit = limit;
        }),
        (pros', rests, c'),
      )
      opened (raised import_error, (pros', c')) = (raised runtime_error, (pros', rests, c'))
      opened (raised x, (pros', c')) = (raised x, (pros', rests, c'))

  -- `CcxtRestPollingFeed(exchange_id, symbol, limit)`
  unfoldable pub ccxt_rest_polling_feed : String → String → ℕ → Exec Caches (MarketDataFeed E)
  unfolding get_exchange
  ccxt_rest_polling_feed exchange_id symbol limit (pros, rests, c) =
      opened (get_exchange rest exchange_id (rests, c))
    where
      opened : Result E × (List (String × E) × C) → Result (MarketDataFeed E) × Caches
      opened (ok e, (rests', c')) = (
        ok (record {
          exchange_id = exchange_id;
          symbol = symbol;
          transport = ccxt_rest;
          exchange = e;
          limit = limit;
        }),
        (pros, rests', c'),
      )
      opened (raised x, (rests', c')) = (raised x, (pros, rests', c'))

  -- `except RuntimeError`
  unfoldable pub or_rest :
      String → String → ℕ → Result (MarketDataFeed E) → Exec Caches (MarketDataFeed E)
  unfolding ccxt_rest_polling_feed
  or_rest exchange_id symbol limit (ok feed) s = (ok feed, s)
  or_rest exchange_id symbol limit (raised runtime_error) s =
      ccxt_rest_polling_feed exchange_id symbol limit s
  or_rest exchange_id symbol limit (raised x) s = (raised x, s)

  -- `get_default_feed(exchange_id, symbol)`
  unfoldable pub get_default_feed : String → String → Exec Caches (MarketDataFeed E)
  unfolding ccxt_pro_feed or_rest default_depth
  get_default_feed exchange_id symbol s =
      let limit = default_depth exchange_id in
      let (r, s') = ccxt_pro_feed exchange_id symbol limit s in
      or_rest exchange_id symbol limit r s'
