-- ===== src/Execution/BrokenLeg/Returns.antt =====
-- The engine of backend/execution/broken_leg.py over a client whose calls do not raise.
use gen.Prelude.{if◌then◌else◌, ℕ, zero, suc, String, Bool, true, false, ◌&&◌, not, some, refl}
use gen.Exec.{Exec, pure, Returns, >>=-Returns, gather-Returns}
use gen.Num.{Float, ◌⊕◌, ◌⊖◌, ◌⊗◌, ◌<?◌, ◌≤?◌, num}
use gen.Schemas.{hedged, partial_fill}
use gen.Execution.Exchange.{Side, buy, sell, LegResult, ExchangeClient, IsResponsive}
use gen.Execution.BrokenLeg.{
  Reason, PairedOrders, report, repeg, liquidate_rest, auto_hedge, flatten, settle,
  execute_paired_orders,
}

module _ {F S : Type 0} ⦃fl : Float F⦄ (client : ExchangeClient F S)
    (responsive : IsResponsive client) where
  pure-Returns : {A : Type 0} (a : A) → Returns {S = S} (pure a)
  pure-Returns a s = (a, s, refl)

  if-Returns :
      {A : Type 0} (b : Bool) (m n : Exec S A)
      → Returns m
      → Returns n
      → Returns (if b then m else n)
  if-Returns true m n hm hn = hm
  if-Returns false m n hm hn = hn

  repeg-Returns :
      (n : ℕ) (exchange symbol : String) (side : Side) (remaining filled : F)
      → Returns (repeg client n exchange symbol side remaining filled)
  unfolding repeg
  repeg-Returns zero exchange symbol side remaining filled = pure-Returns (remaining, filled)
  repeg-Returns (suc n) exchange symbol side remaining filled =
      if-Returns (remaining ≤? num 0) _ _ (pure-Returns (remaining, filled)) (
        >>=-Returns _ _ (responsive.bid exchange symbol) (λ price.
          >>=-Returns _ _ (responsive.limit exchange symbol side remaining price) (λ result.
            repeg-Returns n exchange symbol side (remaining ⊖ result.filled_amount)
              (filled ⊕ result.filled_amount))))

  liquidate_rest-Returns :
      (exchange symbol : String) (side : Side) (remaining filled : F)
      → Returns (liquidate_rest client exchange symbol side remaining filled)
  unfolding liquidate_rest
  liquidate_rest-Returns exchange symbol side remaining filled =
      if-Returns (num 0 <? remaining) _ _
        (>>=-Returns _ _ (responsive.market exchange symbol side remaining)
          (λ result. pure-Returns (filled ⊕ result.filled_amount)))
        (pure-Returns filled)

  auto_hedge-Returns :
      (n : ℕ) (exchange symbol : String) (side : Side) (amount : F) (high_volatility : Bool)
      → Returns (auto_hedge client n exchange symbol side amount high_volatility)
  unfolding auto_hedge
  auto_hedge-Returns n exchange symbol side amount high_volatility =
      if-Returns high_volatility _ _
        (>>=-Returns _ _ (responsive.market exchange symbol side amount)
          (λ result. pure-Returns result.filled_amount))
        (>>=-Returns _ _ (repeg-Returns n exchange symbol side amount (num 0))
          (λ (remaining, filled). liquidate_rest-Returns exchange symbol side remaining filled))

  flatten-Returns :
      (n : ℕ) (o : PairedOrders F) (exchange : String) (amount : F) (side : Side) (price : F)
      (why : Reason)
      → Returns (flatten client n o exchange amount side price why)
  unfolding flatten
  flatten-Returns n o exchange amount side price why =
      >>=-Returns _ _ (auto_hedge-Returns n exchange o.symbol side amount o.high_volatility) (λ h.
        pure-Returns (
          report o (if amount ≤? h then hedged else partial_fill) (amount ⊗ price) (num 0)
            (some why)))

  settle-Returns :
      (n : ℕ) (o : PairedOrders F) (bought sold : LegResult F)
      → Returns (settle client n o bought sold)
  unfolding settle
  settle-Returns n o bought sold =
      if-Returns (bought.accepted && sold.accepted) _ _ (pure-Returns _) (
        if-Returns (not bought.accepted && not sold.accepted) _ _ (pure-Returns _) (
          if-Returns bought.accepted _ _ (flatten-Returns n o _ _ _ _ _)
            (flatten-Returns n o _ _ _ _ _)))

  -- If no call of the client raises, `execute_paired_orders` returns a result from every state, in
  -- both orders of the legs and for every number of re-pegs.
  pub execute-Returns :
      (n : ℕ) (swapped : Bool) (o : PairedOrders F)
      → Returns (execute_paired_orders client n swapped o)
  unfolding execute_paired_orders
  execute-Returns n swapped o =
      >>=-Returns _ _
        (gather-Returns swapped _ _
          (responsive.ioc o.buy_exchange o.symbol buy o.amount o.buy_price)
          (responsive.ioc o.sell_exchange o.symbol sell o.amount o.sell_price))
        (λ (bought, sold). settle-Returns n o bought sold)
