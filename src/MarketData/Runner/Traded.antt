-- ===== src/MarketData/Runner/Traded.antt =====
-- What the end of an evaluation of a pair in backend/marketdata/runner.py, from the gate on, does to
-- the ledger of the monitor.
use gen.Prelude.{
  Bool, true, ◌≡◌, refl, ap, ◌∙◌, ◌⊎◌, inl, inr, List, [], ◌∷◌, ◌++◌, none, some, String,
  Bool-cases, if◌then◌else◌,
}
use mathlib.Core.List.{append_assoc}
use gen.Errors.{Result, ok, raised, ◌>>=◌ as then_ok}
use gen.Exec.{◌>>=◌}
use gen.Num.{Float, ◌⊖◌, ◌⊘◌, ◌<?◌, ◌⊕◌, ◌⊗◌, num}
use gen.Schemas.{ArbitrageSignal, TradeExecutionResult, success, default_limits}
use gen.RuntimeState.{RuntimeState, record_signal}
use gen.Execution.Decision.{Reason, should_execute}
use gen.Execution.KillSwitch.{apply}
use gen.Execution.BrokenLeg
use gen.Execution.BrokenLeg.{PairedOrders, execute_paired_orders}
use gen.Execution.PaperExchange.{Fill, PaperExchangeClient, paper_client}
use gen.Execution.PaperExchange.Fills.{paper-execute_paired_orders}
use gen.MarketData.Runner.{
  Opportunity, Verdict, assess, PairMonitor, World, note_result, trade, orders_of, conclude,
}
use gen.MarketData.Runner.Tick.{Outside, judge, settle_verdict}
use gen.MarketData.Runner.Ledger.{Ledger, IsTrade, Trades, none_at, then_trade}
use gen.MarketData.Runner.Charge.{PairTerms, ledger, Found, Signalled, purchase, sale, PairCharge}

module _ {F C : Type 0} ⦃fl : Float F⦄ (out : Outside F C BrokenLeg.Reason) where
  -- What an evaluation has found when it asks the gate.
  abbrev pub Grounds : Ledger F (PairTerms F) → Opportunity F → ArbitrageSignal F → Type 0
  Grounds l o signal = Found out l o × Signalled o signal

  -- The verdict of the gate on an opportunity.
  abbrev Fits : Ledger F (PairTerms F) → Opportunity F → ArbitrageSignal F → Type 0
  Fits l o signal =
      (should_execute (o.net_alpha ⊗ num 10000) signal (apply l.kill_switch default_limits)
        (some l.notional) l.daily).0
      ≡ true

  -- The two fills make a trade, whichever came first.
  filled-IsTrade :
      (first : Bool) (id id' : String) (o : Opportunity F) (signal : ArbitrageSignal F)
      (a b : Ledger F (PairTerms F))
      → Grounds a o signal
      → Fits a o signal
      → b.fills ≡ (
          if first
          then (a.fills ++ sale a.terms o id ∷ []) ++ purchase a.terms o id' ∷ []
          else (a.fills ++ purchase a.terms o id ∷ []) ++ sale a.terms o id' ∷ [])
      → b.daily ≡ a.daily ⊕ o.quantity ⊗ o.vwap_ask
      → b.kill_switch ≡ a.kill_switch
      → b.notional ≡ a.notional
      → b.terms ≡ a.terms
      → IsTrade (PairCharge out) a b
  filled-IsTrade first id id' o signal a b (found, signalled) fit filled charged switch size terms =
      elim (Bool-cases first) [
        | inl yes_ ↦ made (sale a.terms o id ∷ purchase a.terms o id' ∷ []) (inr refl) (
            (rw yes_ at filled)
            ∙ append_assoc a.fills (sale a.terms o id ∷ []) (purchase a.terms o id' ∷ []))
        | inr no_ ↦ made (purchase a.terms o id ∷ sale a.terms o id' ∷ []) (inl refl) (
            (rw no_ at filled)
            ∙ append_assoc a.fills (purchase a.terms o id ∷ []) (sale a.terms o id' ∷ []))
      ]
    where
      made :
          (extra : List (Fill F))
          → ((extra ≡ purchase a.terms o id ∷ sale a.terms o id' ∷ [])
              ⊎ (extra ≡ sale a.terms o id ∷ purchase a.terms o id' ∷ []))
          → b.fills ≡ a.fills ++ extra
          → IsTrade (PairCharge out) a b
      made extra fills grown = record {
        alpha = o.net_alpha ⊗ num 10000;
        signal = signal;
        authorized = fit;
        volume = o.quantity ⊗ o.vwap_ask;
        charged = charged;
        extra = extra;
        charge = record {
          opportunity = o;
          found = found;
          alpha_bps = refl;
          signalled = signalled;
          id = id;
          id' = id';
          fills = fills;
          volume_usd = refl;
        };
        filled = grown;
        same_switch = switch;
        same_notional = size;
        same_terms = terms;
      }

  note_result-ledger :
      (id : String) (m : PairMonitor F) (state : RuntimeState F (Reason F))
      (client : PaperExchangeClient F) (c : C)
      (r : Result (TradeExecutionResult F BrokenLeg.Reason))
      (result : TradeExecutionResult F BrokenLeg.Reason)
      → r ≡ ok result
      → ledger (note_result out.store m state id (r, (client, c))).1
        ≡ record (ledger (m, state, c)) {
          fills = client.fills;
          daily = m.daily_notional_used_usd ⊕ result.executed_volume_usd;
        }
  unfolding note_result
  note_result-ledger id m state client c r result e = rw e refl

  module _ (swapped : Bool) where
    -- The orders of an opportunity whose spread could be computed.
    abbrev orders_at : World F C → Opportunity F → ArbitrageSignal F → F → PairedOrders F
    orders_at w o signal gross_spread_pct = record {
      buy_exchange = w.0.pair.exchange_buy;
      sell_exchange = w.0.pair.exchange_sell;
      symbol = w.0.pair.symbol;
      amount = o.quantity;
      buy_price = o.vwap_ask;
      sell_price = o.vwap_bid;
      gross_spread_pct = gross_spread_pct;
      net_spread_pct = o.net_alpha;
      ml_confidence_score = signal.execution_probability;
      high_volatility = fl.decimal 5 1 <? signal.adverse_hazard;
    }

    trade-IsTrade :
        (id : String) (o : Opportunity F) (signal : ArbitrageSignal F) (g : F) (w : World F C)
        → Grounds (ledger w) o signal
        → Fits (ledger w) o signal
        → IsTrade
            (PairCharge out)
            (ledger w)
            (ledger (trade out.market swapped out.store id (ok (orders_at w o signal g)) w).1)
    unfolding trade BrokenLeg.report
    trade-IsTrade id o signal g (m, state, c) grounds fit =
        let w : World F C = (m, state, c) in
        let orders = orders_at w o signal g in
        let run = execute_paired_orders (paper_client out.market) 3 swapped orders (m.client, c) in
        let volume = orders.amount ⊗ orders.buy_price in
        let result = BrokenLeg.report orders success volume (volume ⊗ orders.net_spread_pct) none in
        let (returned, (first, second, filled)) =
          paper-execute_paired_orders out.market 3 swapped orders m.client c in
        let after = note_result-ledger id m state run.1.0 run.1.1 run.0 result returned in
        filled-IsTrade swapped first second o signal (ledger w)
          (ledger (trade out.market swapped out.store id (ok orders) w).1) grounds fit
          (ap (λ l. l.fills) after ∙ filled) (ap (λ l. l.daily) after)
          (ap (λ l. l.kill_switch) after) (ap (λ l. l.notional) after) (ap (λ l. l.terms) after)

    trade-Trades :
        (spread : Result F) (id : String) (o : Opportunity F) (signal : ArbitrageSignal F)
        (w : World F C)
        → Grounds (ledger w) o signal
        → Fits (ledger w) o signal
        → Trades (PairCharge out) (ledger w) (
            ledger
              (trade out.market swapped out.store id
                (then_ok spread (λ g. ok (orders_at w o signal g)))
                w).1)
    unfolding trade
    trade-Trades (ok g) id o signal w grounds fit =
        then_trade _ none_at (trade-IsTrade id o signal g w grounds fit)
    trade-Trades (raised e) id o signal w grounds fit = none_at

    conclude-Trades :
        (id : String) (now : F) (o : Opportunity F) (v : Verdict F) (w : World F C)
        → Grounds (ledger w) o v.signal
        → (v.approved ≡ true → Fits (ledger w) o v.signal)
        → Trades
            (PairCharge out)
            (ledger w)
            (ledger (conclude out.market swapped out.store id now o v w).1)
    unfolding conclude record_signal orders_of
    conclude-Trades id now o v (m, state, c) grounds fit = elim (Bool-cases v.approved) [
      | inl yes_ ↦ rw yes_ (
          trade-Trades ((o.vwap_bid ⊖ o.vwap_ask) ⊘ o.vwap_ask) id o v.signal (m, _, c) grounds
            (fit yes_))
      | inr no_ ↦ rw no_ none_at
    ]

    -- From the gate on, in a state of the monitor, with what was found before.
    pub judged-Trades :
        (o : Opportunity F) (signal : ArbitrageSignal F) (w : World F C)
        → Grounds (ledger w) o signal
        → Trades
            (PairCharge out)
            (ledger w)
            (ledger ((judge out swapped o signal >>= settle_verdict out swapped o) w).1)
    unfolding judge settle_verdict assess
    judged-Trades o signal (m, state, c) grounds =
        let (id, c') = out.market.uuid4 c in
        let (now, c'') = out.samples.clock c' in
        conclude-Trades id now o _ (m, state, c'') grounds (λ e. e)
