-- ===== src/Execution/BrokenLeg/Hedge.antt =====
-- How much `_auto_hedge` fills, without rounding, through a client whose fills are honest.
use mathlib.Core.Path.{subst}
use gen.Prelude.{
  ℕ, zero, suc, Bool, true, false, ◌≡◌, sym, ap, ◌∙◌, String, inl, inr, Bool-cases, arith,
}
use gen.Errors.{ok}
use gen.Exec.{pure, ◌>>=◌, >>=-eq-ok}
use gen.Num.{Float, ◌⊕◌, ◌⊖◌, ◌<?◌, ◌≤?◌, ◌≼◌, num}
use gen.Num.Order.{le_of_not_lt}
use gen.Num.Exact.{IsExact}
use gen.Num.Algebra.{add-zero, add-le-add, add-nonneg, sub-nonneg_iff}
use gen.Execution.Exchange.{Side, LegResult, ExchangeClient}
use gen.Execution.BrokenLeg.{repeg, liquidate_rest, auto_hedge}

module _ {F S : Type 0} ⦃fl : Float F⦄ (client : ExchangeClient F S) where
  -- No reply to an order fills less than nothing or more than was asked for.
  pub record IsHonest : Type 0 where
    pub ioc_fill :
        (exchange symbol : String) (side : Side) (amount price : F) (s : S) (r : LegResult F)
        (s' : S)
        → client.place_ioc_order exchange symbol side amount price s ≡ (ok r, s')
        → num 0 ≼ amount
        → (num 0 ≼ r.filled_amount) × (r.filled_amount ≼ amount)
    pub limit_fill :
        (exchange symbol : String) (side : Side) (amount price : F) (s : S) (r : LegResult F)
        (s' : S)
        → client.place_limit_order exchange symbol side amount price s ≡ (ok r, s')
        → num 0 ≼ amount
        → (num 0 ≼ r.filled_amount) × (r.filled_amount ≼ amount)
    pub market_fill :
        (exchange symbol : String) (side : Side) (amount : F) (s : S) (r : LegResult F) (s' : S)
        → client.place_market_order exchange symbol side amount s ≡ (ok r, s')
        → num 0 ≼ amount
        → (num 0 ≼ r.filled_amount) × (r.filled_amount ≼ amount)

  -- Every reply to a market order fills all that was asked for.
  abbrev pub IsLiquid : Type 0
  IsLiquid =
      (exchange symbol : String) (side : Side) (amount : F) (s : S) (r : LegResult F) (s' : S)
      → client.place_market_order exchange symbol side amount s ≡ (ok r, s')
      → r.filled_amount ≡ amount

  module _ (x : IsExact F) (honest : IsHonest) (exchange symbol : String) (side : Side)
      (amount : F) where
    -- What is filled and what remains add up to the open amount, and neither is negative.
    abbrev IsSplit : F → F → Type 0
    IsSplit remaining filled_total =
        (num 0 ≼ remaining) × (num 0 ≼ filled_total) × (filled_total ⊕ remaining ≡ amount)

    repeg-IsSplit :
        (repegs : ℕ) (remaining filled_total : F) (s : S) {r f : F} {s' : S}
        → IsSplit remaining filled_total
        → repeg client repegs exchange symbol side remaining filled_total s ≡ (ok (r, f), s')
        → IsSplit r f
    unfolding repeg
    repeg-IsSplit zero remaining filled_total s inv e = ground arith
    repeg-IsSplit (suc repegs) remaining filled_total s inv e =
        elim (Bool-cases (remaining ≤? num 0)) [
          | inl done ↦ ground arith
          | inr more ↦
              let (peg, s1, e1, rest) =
                >>=-eq-ok (client.best_bid exchange symbol)
                  (λ peg_price.
                    client.place_limit_order exchange symbol side remaining peg_price >>= λ result.
                    repeg client repegs exchange symbol side (remaining ⊖ result.filled_amount)
                      (filled_total ⊕ result.filled_amount))
                  s (rw more at e) in
              let (result, s2, e2, last) =
                >>=-eq-ok (client.place_limit_order exchange symbol side remaining peg)
                  (λ result.
                    repeg client repegs exchange symbol side (remaining ⊖ result.filled_amount)
                      (filled_total ⊕ result.filled_amount))
                  s1 rest in
              let fill =
                honest.limit_fill exchange symbol side remaining peg s1 result s2 e2 inv.0 in
              repeg-IsSplit repegs (remaining ⊖ result.filled_amount)
                (filled_total ⊕ result.filled_amount) s2
                (
                  (sub-nonneg_iff x result.filled_amount remaining).1 fill.1,
                  add-nonneg x filled_total result.filled_amount inv.1 fill.0,
                  x.add_assoc filled_total result.filled_amount (remaining ⊖ result.filled_amount)
                      ∙ ap (λ t. filled_total ⊕ t) (x.add-sub_cancel result.filled_amount remaining)
                      ∙ inv.2,
                )
                last
        ]

    below_amount : (a b : F) → num 0 ≼ a → num 0 ≼ b → a ⊕ b ≡ amount → a ≼ amount
    below_amount a b pa pb e =
        subst (λ t. a ≼ t) e
          (subst (λ t. t ≼ (a ⊕ b)) (add-zero x a) (add-le-add x a a (num 0) b (x.le_refl a) pb))

    liquidate_rest_bounds :
        (remaining filled_total : F) (s : S) {f : F} {s' : S}
        → IsSplit remaining filled_total
        → liquidate_rest client exchange symbol side remaining filled_total s ≡ (ok f, s')
        → (num 0 ≼ f) × (f ≼ amount) × (IsLiquid → f ≡ amount)
    unfolding liquidate_rest
    liquidate_rest_bounds remaining filled_total s {f} {s'} inv e =
        elim (Bool-cases (num 0 <? remaining)) [
          | inl more ↦
              let (result, s1, e1, last) =
                >>=-eq-ok (client.place_market_order exchange symbol side remaining)
                  (λ result. pure (filled_total ⊕ result.filled_amount)) s (rw more at e) in
              let value : filled_total ⊕ result.filled_amount ≡ f = cc in
              let fill = honest.market_fill exchange symbol side remaining s result s1 e1 inv.0 in
              rw (← value) (
                add-nonneg x filled_total result.filled_amount inv.1 fill.0,
                subst (λ t. (filled_total ⊕ result.filled_amount) ≼ t) inv.2
                    (add-le-add x filled_total filled_total result.filled_amount remaining
                      (x.le_refl filled_total) fill.1),
                λ liquid.
                    ap (λ t. filled_total ⊕ t)
                      (liquid exchange symbol side remaining s result s1 e1)
                    ∙ inv.2,
              )
          | inr done ↦
              let value : filled_total ≡ f = cc (rw done at e) in
              let none_left : remaining ≡ num 0 =
                x.le_antisymm remaining (num 0)
                  (le_of_not_lt x.ordered (num 0) remaining x.ordered.zero_num (x.le_refl remaining)
                    done)
                  inv.0 in
              rw (← value) (
                inv.1,
                below_amount filled_total remaining inv.1 inv.0 inv.2,
                λ _.
                    sym (add-zero x filled_total)
                    ∙ ap (λ t. filled_total ⊕ t) (sym none_left)
                    ∙ inv.2,
              )
        ]

    -- Without rounding and through an honest client, the hedge of an open amount that is not negative
    -- never fills less than nothing and never more than the open amount, whether at market or by
    -- re-pegging; and if market orders fill in full, it fills exactly the open amount.
    pub auto_hedge_bounds :
        (max_repegs : ℕ) (high_volatility : Bool) (s : S) {f : F} {s' : S}
        → num 0 ≼ amount
        → auto_hedge client max_repegs exchange symbol side amount high_volatility s ≡ (ok f, s')
        → (num 0 ≼ f) × (f ≼ amount) × (IsLiquid → f ≡ amount)
    unfolding auto_hedge
    auto_hedge_bounds max_repegs true s {f} pos e =
        let (result, s1, e1, last) =
          >>=-eq-ok (client.place_market_order exchange symbol side amount)
            (λ result. pure result.filled_amount) s e in
        let value : result.filled_amount ≡ f = cc in
        let fill = honest.market_fill exchange symbol side amount s result s1 e1 pos in
        rw (← value) (fill.0, fill.1, λ liquid. liquid exchange symbol side amount s result s1 e1)
    auto_hedge_bounds max_repegs false s pos e =
        let ((remaining, filled_total), s1, e1, last) =
          >>=-eq-ok (repeg client max_repegs exchange symbol side amount (num 0))
            (λ (remaining, filled_total).
              liquidate_rest client exchange symbol side remaining filled_total)
            s e in
        liquidate_rest_bounds remaining filled_total s1
          (repeg-IsSplit max_repegs amount (num 0) s (pos, x.ordered.zero_num, x.zero-add amount)
            e1)
          last
