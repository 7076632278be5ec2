-- ===== src/Execution/PaperExchange.antt =====
-- backend/execution/paper_exchange.py: the exchange client that only records its fills. The order
-- book cache and `uuid4` are code outside this class: `Market` holds their functions over a state
-- `C` of their own.
pub mod Fills
pub mod Tests
use gen.Prelude.{
  Bool, true, false, Option, none, some, List, [], ◌∷◌, ◌++◌, String, str_eq, ◌&&◌, ◌||◌,
  if◌then◌else◌,
}
use gen.Errors.{ok, raised, runtime_error}
use gen.Exec.{Exec, pure, lift, ◌>>=◌}
use gen.Num.{Float}
use gen.Schemas.{OrderBookLevel, OrderBookSnapshot}
use gen.Execution.Exchange.{Side, buy, sell, LegResult, ExchangeClient}

pub record Market (F C : Type 0) : Type 0 where
  -- `OrderBookCache.get_snapshot`
  pub get_snapshot : String → String → Exec C (Option (OrderBookSnapshot F))
  -- `str(uuid.uuid4())`
  pub uuid4 : C → String × C

pub record Fill (F : Type 0) : Type 0 where
  pub id : String
  pub exchange : String
  pub symbol : String
  pub side : Side
  pub amount : F
  pub price : F
  pub paper : Bool

-- The dict of balances, by exchange and asset.
abbrev pub Balances : Type 0 → Type 0
Balances F = List ((String × String) × F)

pub record PaperExchangeClient (F : Type 0) : Type 0 where
  pub balances : Balances F
  pub starting_balance_usd : F
  pub fills : List (Fill F)

-- `key in self._balances`
unfoldable pub has_key : {F : Type 0} → Balances F → String × String → Bool
has_key [] key = false
has_key ((k, v) ∷ rest) key = (str_eq k.0 key.0 && str_eq k.1 key.1) || has_key rest key

unfoldable pub ensure_seeded : {F : Type 0} → String → PaperExchangeClient F → PaperExchangeClient F
unfolding has_key
ensure_seeded exchange p =
    if has_key p.balances (exchange, "USDT")
    then p
    else record p { balances = p.balances ++ ((exchange, "USDT"), p.starting_balance_usd) ∷ [] }

-- The side of the book that an order of this side is filled from.
abbrev book_side : {F : Type 0} → Side → OrderBookSnapshot F → List (OrderBookLevel F)
book_side buy snapshot = snapshot.asks
book_side sell snapshot = snapshot.bids

module _ {F C : Type 0} (market : Market F C) where
  -- A call of the cache leaves the client as it is.
  unfoldable pub look_up :
      String → String → Exec (PaperExchangeClient F × C) (Option (OrderBookSnapshot F))
  look_up exchange symbol (p, c) =
      let (r, c') = market.get_snapshot exchange symbol c in (r, (p, c'))

  unfoldable pub first_price : List (OrderBookLevel F) → Exec (PaperExchangeClient F × C) F
  first_price [] = lift (raised runtime_error)
  first_price (level ∷ rest) = pure level.price

  unfoldable pub price_of : Side → Option (OrderBookSnapshot F) → Exec (PaperExchangeClient F × C) F
  unfolding first_price
  price_of side none = lift (raised runtime_error)
  price_of side (some snapshot) = first_price (book_side side snapshot)

  unfoldable pub best_price : String → String → Side → Exec (PaperExchangeClient F × C) F
  unfolding look_up price_of
  best_price exchange symbol side = look_up exchange symbol >>= price_of side

  -- `_fill`
  unfoldable pub record_fill :
      String → String → Side → F → F → Exec (PaperExchangeClient F × C) (LegResult F)
  unfolding ensure_seeded
  record_fill exchange symbol side amount price (p, c) =
      let seeded = ensure_seeded exchange p in
      let (id, c') = market.uuid4 c in
      let fill : Fill F = record {
        id = id;
        exchange = exchange;
        symbol = symbol;
        side = side;
        amount = amount;
        price = price;
        paper = true;
      } in
      (
        ok (record { accepted = true; filled_amount = amount; avg_price = price; reason = none }),
        (record seeded { fills = seeded.fills ++ fill ∷ [] }, c'),
      )

  unfoldable pub place_market_order :
      String → String → Side → F → Exec (PaperExchangeClient F × C) (LegResult F)
  unfolding best_price record_fill
  place_market_order exchange symbol side amount =
      best_price exchange symbol side >>= record_fill exchange symbol side amount

  unfoldable pub best_bid : String → String → Exec (PaperExchangeClient F × C) F
  unfolding look_up price_of
  best_bid exchange symbol = look_up exchange symbol >>= price_of sell

  -- The client as the protocol that the execution engines take.
  abbrev pub paper_client : ExchangeClient F (PaperExchangeClient F × C)
  paper_client = record {
    place_ioc_order = record_fill;
    place_limit_order = record_fill;
    place_market_order = place_market_order;
    best_bid = best_bid;
  }
