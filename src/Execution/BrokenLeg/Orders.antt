-- ===== src/Execution/BrokenLeg/Orders.antt =====
-- How many orders the class places: its client is wrapped in one that counts the calls.
use gen.Prelude.{
  ℕ, zero, suc, ◌+◌, ◌≤◌, Bool, true, false, ◌≡◌, String, inl, inr, Bool-cases, arith,
}
use gen.Errors.{Result, ok, raised}
use gen.Exec.{Exec, continue, ◌>>=◌}
use gen.Num.{Float, ◌⊕◌, ◌⊖◌, ◌≤?◌, num}
use gen.Execution.Exchange.{Side, ExchangeClient}
use gen.Execution.BrokenLeg.{repeg, liquidate_rest, auto_hedge}

-- The calls made so far, answered or not.
pub record Calls : Type 0 where
  pub ioc : ℕ
  pub limit : ℕ
  pub market : ℕ

abbrev pub no_calls : Calls
no_calls = record { ioc = 0; limit = 0; market = 0 }

module _ {S A : Type 0} where
  abbrev tally : (Calls → Calls) → Exec S A → Exec (S × Calls) A
  tally count m (s, c) = let (r, s') = m s in (r, (s', count c))

  -- What holds of the calls if the first step raised, and after every continuation, holds after the
  -- chain.
  chain_calls :
      {B : Type 0} (P : Calls → Type 0) (r : Result A) (f : A → Exec (S × Calls) B) (t : S × Calls)
      → P t.1
      → ((a : A) → P (f a t).1.1)
      → P (continue r f t).1.1
  chain_calls P (ok a) f t stop go = go a
  chain_calls P (raised e) f t stop go = stop

-- The loop placed limit orders only, and one at most for each re-peg.
abbrev IsRepegged : ℕ → Calls → Calls → Type 0
IsRepegged repegs before after =
    (after.ioc ≡ before.ioc)
    × (after.limit ≤ before.limit + repegs)
    × (after.market ≡ before.market)

module _ {F S : Type 0} where
  -- The same client, with its calls counted.
  abbrev pub counted : ExchangeClient F S → ExchangeClient F (S × Calls)
  counted client = record {
    place_ioc_order =
        λ e y d a p. tally (λ c. record c { ioc = c.ioc + 1 }) (client.place_ioc_order e y d a p);
    place_limit_order = λ e y d a p.
        tally (λ c. record c { limit = c.limit + 1 }) (client.place_limit_order e y d a p);
    place_market_order = λ e y d a.
        tally (λ c. record c { market = c.market + 1 }) (client.place_market_order e y d a);
    best_bid = λ e y. tally (λ c. c) (client.best_bid e y);
  }

  module _ ⦃fl : Float F⦄ (client : ExchangeClient F S) (exchange symbol : String)
      (side : Side) where
    repeg_calls :
        (repegs : ℕ) (remaining filled_total : F) (s : S) (c : Calls)
        → IsRepegged repegs c
            (repeg (counted client) repegs exchange symbol side remaining filled_total (s, c)).1.1
    unfolding repeg
    repeg_calls zero remaining filled_total s c = ground arith
    repeg_calls (suc repegs) remaining filled_total s c = elim (Bool-cases (remaining ≤? num 0)) [
      | inl done ↦ rw done (ground arith)
      | inr more ↦
          let (bid, s1) = client.best_bid exchange symbol s in
          rw more (
            chain_calls (IsRepegged (suc repegs) c) bid
              (λ peg_price.
                (counted client).place_limit_order exchange symbol side remaining peg_price
                >>= λ result.
                    repeg (counted client) repegs exchange symbol side
                      (remaining ⊖ result.filled_amount) (filled_total ⊕ result.filled_amount))
              (s1, c) (ground arith)
              (λ peg_price.
                let (reply, s2) =
                  client.place_limit_order exchange symbol side remaining peg_price s1 in
                let c1 = record c { limit = c.limit + 1 } in
                chain_calls (IsRepegged (suc repegs) c) reply
                  (λ result.
                    repeg (counted client) repegs exchange symbol side
                      (remaining ⊖ result.filled_amount) (filled_total ⊕ result.filled_amount))
                  (s2, c1) (ground arith)
                  (λ result.
                    let (a, b, m) =
                      repeg_calls repegs (remaining ⊖ result.filled_amount)
                        (filled_total ⊕ result.filled_amount) s2 c1 in
                    (a, omega arith, m))))
    ]

    liquidate_rest_calls :
        (remaining filled_total : F) (s : S) (c : Calls)
        → let after =
            (liquidate_rest
              (counted client)
              exchange
              symbol
              side
              remaining
              filled_total
              (s, c)).1.1 in
          (after.ioc ≡ c.ioc) × (after.limit ≡ c.limit) × (after.market ≤ c.market + 1)
    unfolding liquidate_rest
    liquidate_rest_calls remaining filled_total s c = ground arith

    -- Whatever the client answers or raises, the hedge places no IOC order; in high volatility
    -- exactly one market order and no limit order; otherwise at most `max_repegs` limit orders and
    -- at most one market order.
    pub auto_hedge_calls :
        (max_repegs : ℕ) (amount : F) (high_volatility : Bool) (s : S)
        → let c =
            (auto_hedge
              (counted client)
              max_repegs
              exchange
              symbol
              side
              amount
              high_volatility
              (s, no_calls)).1.1 in
          (c.ioc ≡ 0)
          × (c.market ≤ 1)
          × (c.limit ≤ max_repegs)
          × (high_volatility ≡ true → (c.limit ≡ 0) × (c.market ≡ 1))
    unfolding auto_hedge
    auto_hedge_calls max_repegs amount true s = ground arith
    auto_hedge_calls max_repegs amount false s =
        let pegs =
          repeg (counted client) max_repegs exchange symbol side amount (num 0) (s, no_calls) in
        let (i, l, m) = repeg_calls max_repegs amount (num 0) s no_calls in
        chain_calls
          (λ c.
            (c.ioc ≡ 0)
            × (c.market ≤ 1)
            × (c.limit ≤ max_repegs)
            × (false ≡ true → (c.limit ≡ 0) × (c.market ≡ 1)))
          pegs.0
          (λ (remaining, filled_total).
            liquidate_rest (counted client) exchange symbol side remaining filled_total)
          pegs.1 (ground arith)
          (λ (remaining, filled_total).
            let (i', l', m') = liquidate_rest_calls remaining filled_total pegs.1.0 pegs.1.1 in
            (omega arith, omega arith, omega arith, λ h. cc))
