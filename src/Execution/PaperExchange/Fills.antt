-- ===== src/Execution/PaperExchange/Fills.antt =====
-- The two engines over the paper client, and what a fill leaves in the client.
use gen.Prelude.{
  ℕ, Bool, true, false, none, [], ◌∷◌, ◌++◌, String, str_eq_iff, ◌≡◌, refl, ◌∙◌, ap, inl, inr,
  Bool-cases, if◌then◌else◌, arith,
}
use gen.Errors.{ok}
use gen.Exec.{Arrival, abc, acb, bac, bca, cab, cba, gather, gather_three, Exec, in_turn}
use gen.Num.{Float, ◌⊗◌, min}
use gen.Schemas.{success}
use gen.Execution.Exchange.{Side, buy, sell, LegResult}
use gen.Execution.BrokenLeg.{PairedOrders, settle, execute_paired_orders}
use gen.Execution.BrokenLeg
use gen.Execution.Triangular.{
  TriangleOrders, symbol_bridge_quote, symbol_target_bridge, symbol_target_quote, settle_triangle,
  place_legs, execute_triangle,
}
use gen.Execution.Triangular
use gen.Execution.PaperExchange.{
  Market, Fill, Balances, PaperExchangeClient, has_key, ensure_seeded, record_fill, paper_client,
}

module _ {F : Type 0} where
  has_key-append_self :
      (b : Balances F) (key : String × String) (v : F) → has_key (b ++ (key, v) ∷ []) key ≡ true
  unfolding has_key
  has_key-append_self [] (e, a) v = rw ((str_eq_iff e e).1 refl, (str_eq_iff a a).1 refl) refl
  has_key-append_self ((k, w) ∷ b) key v = ground (arith, has_key-append_self b key v)

  ensure_seeded-fills :
      (exchange : String) (p : PaperExchangeClient F) → (ensure_seeded exchange p).fills ≡ p.fills
  unfolding ensure_seeded
  ensure_seeded-fills exchange p = ground arith

  -- After a fill on an exchange, its USDT balance is there; every balance that was there before is
  -- as it was, whatever the fill's price and amount, and a second fill on the exchange changes none.
  pub record_fill-balances :
      {C : Type 0} (market : Market F C) (exchange symbol symbol' : String) (side side' : Side)
      (amount price amount' price' : F) (p : PaperExchangeClient F) (c : C)
      → let (r, (p', c')) = record_fill market exchange symbol side amount price (p, c) in
        (has_key p'.balances (exchange, "USDT") ≡ true)
        × ((seed : Balances F) × (p'.balances ≡ p.balances ++ seed))
        × ((record_fill market exchange symbol' side' amount' price' (p', c')).1.0.balances
            ≡ p'.balances)
  unfolding record_fill
  record_fill-balances market exchange symbol symbol' side side' amount price amount' price' p c =
      elim (Bool-cases (has_key p.balances (exchange, "USDT"))) [
        | inl there ↦ rw there (rw there refl, ([], append-nil p.balances), rw there refl)
        | inr missing ↦
            let seed = ((exchange, "USDT"), p.starting_balance_usd) ∷ [] in
            let seeded = has_key-append_self p.balances (exchange, "USDT") p.starting_balance_usd in
            rw missing (seeded, (seed, refl), rw seeded refl)
      ]
    where
      append-nil : (b : Balances F) → b ≡ b ++ []
      append-nil [] = refl
      append-nil (x ∷ b) = ap (λ t. x ∷ t) (append-nil b)

module _ {F C : Type 0} ⦃fl : Float F⦄ (market : Market F C) where
  min_self : (a : F) → min a a ≡ a
  min_self a = ground arith

  -- Over the paper client two paired orders always succeed, for any number of re-pegs: the volume is
  -- the amount at the buy price and the profit the volume times the net spread. Exactly two fills are
  -- recorded, of the whole amount at the two prices, in the order in which the orders took effect.
  pub paper-execute_paired_orders :
      (max_repegs : ℕ) (swapped : Bool) (o : PairedOrders F) (p : PaperExchangeClient F) (c : C)
      → let bought : String → Fill F = λ id. record {
        id = id;
        exchange = o.buy_exchange;
        symbol = o.symbol;
        side = buy;
        amount = o.amount;
        price = o.buy_price;
        paper = true;
      } in
        let sold : String → Fill F = λ id. record {
          id = id;
          exchange = o.sell_exchange;
          symbol = o.symbol;
          side = sell;
          amount = o.amount;
          price = o.sell_price;
          paper = true;
        } in
        let (r, (p', c')) =
          execute_paired_orders (paper_client market) max_repegs swapped o (p, c) in
        let volume = o.amount ⊗ o.buy_price in
        (r ≡ ok (BrokenLeg.report o success volume (volume ⊗ o.net_spread_pct) none))
        × ((id id' : String) × (p'.fills ≡ (
              if swapped
              then (p.fills ++ sold id ∷ []) ++ bought id' ∷ []
              else (p.fills ++ bought id ∷ []) ++ sold id' ∷ [])))
  unfolding execute_paired_orders settle gather record_fill BrokenLeg.report
  paper-execute_paired_orders max_repegs false o p c =
      let (id, c1) = market.uuid4 c in
      let (id', c2) = market.uuid4 c1 in
      rw (min_self o.amount)
        (refl, (id, id', rw (ensure_seeded-fills, ensure_seeded-fills o.buy_exchange p) refl))
  paper-execute_paired_orders max_repegs true o p c =
      let (id, c1) = market.uuid4 c in
      let (id', c2) = market.uuid4 c1 in
      rw (min_self o.amount)
        (refl, (id, id', rw (ensure_seeded-fills, ensure_seeded-fills o.sell_exchange p) refl))

  -- The arguments of an order.
  abbrev Order : Type 0
  Order = String × String × Side × F × F

  abbrev place : Order → Exec (PaperExchangeClient F × C) (LegResult F)
  place (exchange, symbol, side, amount, price) =
      record_fill market exchange symbol side amount price

  in_turn-fills :
      (a b d : Order) (p : PaperExchangeClient F) (c : C)
      → let (r, (p', c')) = in_turn (place a) (place b) (place d) (p, c) in
        (f g h : Fill F) × (p'.fills ≡ ((p.fills ++ f ∷ []) ++ g ∷ []) ++ h ∷ [])
  unfolding record_fill
  in_turn-fills a b d p c =
      let (f, e1) = one a p c in
      let (q, c1) = (place a (p, c)).1 in
      let (g, e2) = one b q c1 in
      let (r, c2) = (place b (q, c1)).1 in
      let (h, e3) = one d r c2 in
      (f, g, h, e3 ∙ ap (λ t. t ++ h ∷ []) e2 ∙ ap (λ t. (t ++ g ∷ []) ++ h ∷ []) e1)
    where
      one :
          (a : Order) (p : PaperExchangeClient F) (c : C)
          → (f : Fill F) × ((place a (p, c)).1.0.fills ≡ p.fills ++ f ∷ [])
      one (exchange, symbol, side, amount, price) p c =
          let f : Fill F = record {
            id = (market.uuid4 c).0;
            exchange = exchange;
            symbol = symbol;
            side = side;
            amount = amount;
            price = price;
            paper = true;
          } in
          (f, ap (λ t. t ++ f ∷ []) (ensure_seeded-fills exchange p))

  abbrev leg1 : TriangleOrders F → Order
  leg1 o =
      let t = o.triangle in
      (t.exchange, symbol_bridge_quote t, buy, o.bridge_qty, o.bridge_quote_price)

  abbrev leg2 : TriangleOrders F → Order
  leg2 o =
      let t = o.triangle in
      (t.exchange, symbol_target_bridge t, buy, o.target_qty, o.target_bridge_price)

  abbrev leg3 : TriangleOrders F → Order
  leg3 o =
      let t = o.triangle in
      (t.exchange, symbol_target_quote t, sell, o.target_qty, o.target_quote_price)

  -- Over the paper client the three legs of a triangle always succeed, in whichever order they take
  -- effect: the volume is the notional, the profit the notional times the net spread, and exactly
  -- three fills are recorded behind the earlier ones.
  pub paper-execute_triangle :
      (arrival : Arrival) (o : TriangleOrders F) (p : PaperExchangeClient F) (c : C)
      → let (r, (p', c')) = execute_triangle (paper_client market) arrival o (p, c) in
        (r
          ≡ ok (
              Triangular.report o success o.quote_notional_usd
                (o.quote_notional_usd ⊗ o.net_spread_pct)
                none))
        × ((f g h : Fill F) × (p'.fills ≡ ((p.fills ++ f ∷ []) ++ g ∷ []) ++ h ∷ []))
  unfolding execute_triangle place_legs settle_triangle gather_three record_fill
  paper-execute_triangle abc o p c = (refl, in_turn-fills (leg1 o) (leg2 o) (leg3 o) p c)
  paper-execute_triangle acb o p c = (refl, in_turn-fills (leg1 o) (leg3 o) (leg2 o) p c)
  paper-execute_triangle bac o p c = (refl, in_turn-fills (leg2 o) (leg1 o) (leg3 o) p c)
  paper-execute_triangle bca o p c = (refl, in_turn-fills (leg2 o) (leg3 o) (leg1 o) p c)
  paper-execute_triangle cab o p c = (refl, in_turn-fills (leg3 o) (leg1 o) (leg2 o) p c)
  paper-execute_triangle cba o p c = (refl, in_turn-fills (leg3 o) (leg2 o) (leg1 o) p c)
