-- ===== src/MarketData/Feed.antt =====
-- backend/marketdata/ws_ingestion.py: the loop of a feed. What it fetches, where it publishes, and the
-- event that stops it are of the state `C`.
pub mod Books
pub mod Exchanges
pub mod Loop
pub mod Shared
pub mod Tests
use gen.Prelude.{ℕ, zero, suc, Bool, Option, none, some, if◌then◌else◌}
use gen.Errors.{Result, ok, raised}
use gen.Exec.{Exec, pure, ◌>>=◌, ◌>>◌}
use gen.Schemas.{OrderBookSnapshot}

-- What the loop uses of its feed and of its arguments.
pub record Source (F C : Type 0) : Type 0 where
  pub is_stopped : C → Bool
  pub fetch_one : Exec C (OrderBookSnapshot F)
  pub close : Exec C (Unit {0})
  pub queue : Option (OrderBookSnapshot F → Exec C (Unit {0}))
  pub callback : Option (OrderBookSnapshot F → Exec C (Unit {0}))

module _ {F C : Type 0} (source : Source F C) where
  unfoldable pub if_given :
      Option (OrderBookSnapshot F → Exec C (Unit {0})) → OrderBookSnapshot F → Exec C (Unit {0})
  if_given none snapshot = pure tt
  if_given (some f) snapshot = f snapshot

  -- One pass of the loop.
  unfoldable pub pass : Exec C (Unit {0})
  unfolding if_given
  pass = source.fetch_one >>= λ snapshot.
      if_given source.queue snapshot >> if_given source.callback snapshot

  -- The next pass, unless this one has raised.
  unfoldable pub resume :
      (C → Option (Result (Unit {0}) × C)) → Result (Unit {0}) × C → Option (Result (Unit {0}) × C)
  resume again (ok _, c) = again c
  resume again (raised e, c) = some (raised e, c)

  -- The loop, for so many passes; nothing is returned where they do not suffice.
  unfoldable pub loop : ℕ → C → Option (Result (Unit {0}) × C)
  unfolding pass resume
  loop zero c = none
  loop (suc fuel) c =
      let next = resume (loop fuel) (pass c) in
      if source.is_stopped c then some (ok tt, c) else next

  -- `finally: await self.close()`
  unfoldable pub closed : Result (Unit {0}) × C → Result (Unit {0}) × C
  closed (r, c) = settled (source.close c)
    where
      settled : Result (Unit {0}) × C → Result (Unit {0}) × C
      settled (ok _, c') = (r, c')
      settled (raised e, c') = (raised e, c')

  unfoldable pub finished : Option (Result (Unit {0}) × C) → Option (Result (Unit {0}) × C)
  unfolding closed
  finished none = none
  finished (some s) = some (closed s)

  -- `MarketDataFeed.run`
  unfoldable pub run : ℕ → C → Option (Result (Unit {0}) × C)
  unfolding loop finished
  run fuel c = finished (loop fuel c)
