-- ===== src/Execution/Exchange.antt =====
-- The protocol `ExchangeClient` of backend/execution/broken_leg.py. A client is code outside the
-- class that uses it, so it is a record of methods over a state of its own.
use gen.Prelude.{Bool, Option, String}
use gen.Exec.{Exec, Returns}

pub data Side : Type 0 where
  buy sell : Side

pub record LegResult (F : Type 0) : Type 0 where
  pub accepted : Bool
  pub filled_amount : F
  pub avg_price : F
  pub reason : Option String

-- Arguments in the order of the source: exchange, symbol, side, amount, and the price of an IOC or a
-- limit order.
pub record ExchangeClient (F S : Type 0) : Type 0 where
  pub place_ioc_order : String → String → Side → F → F → Exec S (LegResult F)
  pub place_limit_order : String → String → Side → F → F → Exec S (LegResult F)
  pub place_market_order : String → String → Side → F → Exec S (LegResult F)
  pub best_bid : String → String → Exec S F

-- A client none of whose calls raises.
pub record IsResponsive {F S : Type 0} (client : ExchangeClient F S) : Type 0 where
  pub ioc :
      (exchange symbol : String) (side : Side) (amount price : F)
      → Returns (client.place_ioc_order exchange symbol side amount price)
  pub limit :
      (exchange symbol : String) (side : Side) (amount price : F)
      → Returns (client.place_limit_order exchange symbol side amount price)
  pub market :
      (exchange symbol : String) (side : Side) (amount : F)
      → Returns (client.place_market_order exchange symbol side amount)
  pub bid : (exchange symbol : String) → Returns (client.best_bid exchange symbol)
