-- ===== src/MarketData/Runner/Evaluated.antt =====
-- What an evaluation of a pair in backend/marketdata/runner.py, from its reads of the cache on, does
-- to the ledger of the monitor.
use mathlib.Core.Path.{subst}
use gen.Prelude.{
  Bool, ◌≡◌, refl, sym, ap, ◌∙◌, inl, inr, Bool-cases, List, [], ◌∷◌, Option, none, some,
}
use gen.Errors.{Result, ok}
use gen.Exec.{Exec, lift, ◌>>=◌}
use gen.Num.{Float, ◌⊗◌, num}
use gen.Schemas.{OrderBookLevel, OrderBookSnapshot, TemporalFeatures, DepthMatrix, ArbitrageSignal}
use gen.Ml.DepthSignal.{compute_depth_liquidity_hazard}
use gen.Ml.Heuristic.{update}
use gen.Execution.BrokenLeg
use gen.MarketData.Features.{
  TemporalFeatureWindow, DepthMatrixBuilder, to_temporal_features, to_depth_matrix,
}
use gen.MarketData.Runner.{Opportunity, find_opportunity, World}
use gen.MarketData.Runner.Tick.{
  Outside, outside, latest_return, log_sample, next_signal, judge, settle_verdict, pursue,
  with_inputs, with_books, with_snapshots, evaluate_once,
}
use gen.MarketData.Runner.Ledger.{Ledger, Trades, none_at, quiet-bind}
use gen.MarketData.Runner.Charge.{PairTerms, ledger, Found, Signalled, PairCharge}
use gen.MarketData.Runner.Traded.{judged-Trades}

module _ {F C : Type 0} ⦃fl : Float F⦄ (out : Outside F C BrokenLeg.Reason) (swapped : Bool) where
  -- Trades from a ledger on, in a state that has this ledger.
  abbrev Keeps : {A : Type 0} → Ledger F (PairTerms F) → Exec (World F C) A → World F C → Type 0
  Keeps l m w = Trades (PairCharge out) l (ledger (m w).1)

  -- The cache gave the two books, one read after the other.
  abbrev Read : Ledger F (PairTerms F) → OrderBookSnapshot F → OrderBookSnapshot F → C → Type 0
  Read l bought sold before =
      let p = l.terms.pair in
      ((out.market.get_snapshot p.exchange_buy p.symbol before).0 ≡ ok (some bought))
      × ((out.market.get_snapshot p.exchange_sell p.symbol
            (out.market.get_snapshot p.exchange_buy p.symbol before).1).0
          ≡ ok (some sold))

  stopped :
      {l : Ledger F (PairTerms F)} (w : World F C)
      → ledger w ≡ l
      → Trades (PairCharge out) l (ledger w)
  stopped w e = subst (λ k. Trades (PairCharge out) k (ledger w)) e none_at

  judged-Keeps :
      (l : Ledger F (PairTerms F)) (o : Opportunity F) (signal : ArbitrageSignal F) (w : World F C)
      → Found out l o
      → Signalled o signal
      → ledger w ≡ l
      → Keeps l (judge out swapped o signal >>= settle_verdict out swapped o) w
  judged-Keeps l o signal w found signalled e =
      let ended = ledger ((judge out swapped o signal >>= settle_verdict out swapped o) w).1 in
      subst (λ k. Found out k o → Trades (PairCharge out) k ended) e
        (λ here. judged-Trades out swapped o signal w (here, signalled)) found

  log_sample-quiet :
      (temporal : TemporalFeatures F) (depth : DepthMatrix F) (net_alpha_bps : F) (w : World F C)
      → ledger (log_sample out swapped temporal depth net_alpha_bps w).1 ≡ ledger w
  unfolding log_sample outside
  log_sample-quiet temporal depth net_alpha_bps (m, state, c) = elim (Bool-cases m.sample_logging) [
    | inl yes_ ↦ rw yes_ refl
    | inr no_ ↦ rw no_ refl
  ]

  next_signal-quiet :
      (net_alpha_bps mid_price_return liquidity_hazard : F) (w : World F C)
      → ledger (next_signal out swapped net_alpha_bps mid_price_return liquidity_hazard w).1
        ≡ ledger w
  unfolding next_signal
  next_signal-quiet a r h (m, state, c) = refl

  next_signal-updated :
      (net_alpha_bps r h : F) (w : World F C) {signal : ArbitrageSignal F}
      → (next_signal out swapped net_alpha_bps r h w).0 ≡ ok signal
      → (update net_alpha_bps r h w.0.heuristic).0 ≡ ok signal
  unfolding next_signal
  next_signal-updated a r h (m, state, c) e = e

  pursue-Keeps :
      (l : Ledger F (PairTerms F)) (window : TemporalFeatureWindow F)
      (builder : DepthMatrixBuilder F) (temporal : TemporalFeatures F) (depth : DepthMatrix F)
      (found : Option (Opportunity F)) (w : World F C)
      → to_temporal_features window ≡ some temporal
      → to_depth_matrix builder ≡ some depth
      → ((o : Opportunity F) → found ≡ some o → Found out l o)
      → ledger w ≡ l
      → Keeps l (pursue out swapped temporal depth found) w
  unfolding pursue
  pursue-Keeps l window builder temporal depth none w windowed built find e = stopped w e
  pursue-Keeps l window builder temporal depth (some o) w windowed built find e =
      let alpha = o.net_alpha ⊗ num 10000 in
      let measure = compute_depth_liquidity_hazard depth o.quantity "ask" in
      quiet-bind (PairCharge out) ledger l (log_sample out swapped temporal depth alpha) _ w e
        (log_sample-quiet temporal depth alpha w)
        λ _ _ e1.
          let w1 = (log_sample out swapped temporal depth alpha w).1 in
          quiet-bind (PairCharge out) ledger l (lift (latest_return temporal.window)) _ w1 e1 refl
            λ r returned e2.
              quiet-bind (PairCharge out) ledger l (lift measure) _ w1 e2 refl λ h measured e3.
                quiet-bind (PairCharge out) ledger l (next_signal out swapped alpha r h) _ w1 e3
                  (next_signal-quiet alpha r h w1)
                  λ signal updated e4.
                    judged-Keeps l o signal _ (find o refl)
                      (record {
                        window = window;
                        temporal = temporal;
                        windowed = windowed;
                        builder = builder;
                        depth = depth;
                        built = built;
                        mid_return = r;
                        returned = returned;
                        hazard = h;
                        measured = measured;
                        estimator = w1.0.heuristic;
                        updated = next_signal-updated alpha r h w1 updated;
                      })
                      e4

  with_inputs-Keeps :
      (l : Ledger F (PairTerms F)) (bought sold : OrderBookSnapshot F) (before : C)
      (best_ask : OrderBookLevel F) (asks bids : List (OrderBookLevel F))
      (window : TemporalFeatureWindow F) (builder : DepthMatrixBuilder F)
      (temporal : Option (TemporalFeatures F)) (depth : Option (DepthMatrix F)) (w : World F C)
      → Read l bought sold before
      → bought.asks ≡ best_ask ∷ asks
      → sold.bids ≡ bids
      → to_temporal_features window ≡ temporal
      → to_depth_matrix builder ≡ depth
      → ledger w ≡ l
      → Keeps l (with_inputs out swapped best_ask (best_ask ∷ asks) bids temporal depth) w
  unfolding with_inputs
  with_inputs-Keeps l bought sold before best_ask asks bids window builder none depth w read ea eb
        ew ed e =
      stopped w e
  with_inputs-Keeps l bought sold before best_ask asks bids window builder (some temporal) none w
        read ea eb ew ed e =
      stopped w e
  with_inputs-Keeps l bought sold before best_ask asks bids window builder (some temporal)
        (some depth) w (buy_read, sell_read) ea eb ew ed e =
      let search : Ledger F (PairTerms F)
          → List (OrderBookLevel F)
          → List (OrderBookLevel F)
          → Result (Option (Opportunity F)) =
        λ k.
          find_opportunity (λ exchange. out.taker_fee exchange k.terms.default_taker_fee_bps)
            k.terms.pair k.notional best_ask in
      quiet-bind (PairCharge out) ledger l (lift (search (ledger w) (best_ask ∷ asks) bids))
        (pursue out swapped temporal depth) w e refl
        λ found searched e'.
          pursue-Keeps l window builder temporal depth found w ew ed
            (λ o same. record {
              bought = bought;
              sold = sold;
              before = before;
              buy_read = buy_read;
              sell_read = sell_read;
              best_ask = best_ask;
              more_asks = asks;
              asks = ea;
              found =
                  ap (λ k. search k bought.asks sold.bids) (sym e)
                  ∙ ap (λ x. search (ledger w) x sold.bids) ea
                  ∙ ap (λ x. search (ledger w) (best_ask ∷ asks) x) eb
                  ∙ searched
                  ∙ ap ok same;
            })
            e'

  with_books-Keeps :
      (l : Ledger F (PairTerms F)) (bought sold : OrderBookSnapshot F) (before : C)
      (asks bids : List (OrderBookLevel F)) (w : World F C)
      → Read l bought sold before
      → bought.asks ≡ asks
      → sold.bids ≡ bids
      → ledger w ≡ l
      → Keeps l (with_books out swapped asks bids) w
  unfolding with_books
  with_books-Keeps l bought sold before [] bids w read ea eb e = stopped w e
  with_books-Keeps l bought sold before (best_ask ∷ asks) [] w read ea eb e = stopped w e
  with_books-Keeps l bought sold before (best_ask ∷ asks) (best_bid ∷ bids) w read ea eb e =
      with_inputs-Keeps l bought sold before best_ask asks (best_bid ∷ bids) w.0.temporal_window
        w.0.depth_builder _ _ w read ea eb refl refl e

  with_snapshots-Keeps :
      (l : Ledger F (PairTerms F)) (b s : Option (OrderBookSnapshot F)) (before : C) (w : World F C)
      → ((bought sold : OrderBookSnapshot F)
          → b ≡ some bought
          → s ≡ some sold
          → Read l bought sold before)
      → ledger w ≡ l
      → Keeps l (with_snapshots out swapped b s) w
  unfolding with_snapshots
  with_snapshots-Keeps l none s before w read e = stopped w e
  with_snapshots-Keeps l (some bought) none before w read e = stopped w e
  with_snapshots-Keeps l (some bought) (some sold) before w read e =
      with_books-Keeps l bought sold before bought.asks sold.bids w (read bought sold refl refl)
        refl refl e

  -- One evaluation, in any state of the monitor.
  pub evaluate_once-Trades :
      (w : World F C) → Trades (PairCharge out) (ledger w) (ledger (evaluate_once out swapped w).1)
  unfolding evaluate_once outside
  evaluate_once-Trades (m, state, c) =
      let w : World F C = (m, state, c) in
      let p = m.pair in
      let buying = out.market.get_snapshot p.exchange_buy p.symbol in
      let selling = out.market.get_snapshot p.exchange_sell p.symbol in
      let w1 : World F C = (m, state, (buying c).1) in
      let w2 : World F C = (m, state, (selling (buying c).1).1) in
      quiet-bind (PairCharge out) ledger (ledger w) (outside buying)
        (λ b. outside selling >>= with_snapshots out swapped b) w refl refl
        λ b bought e1.
          quiet-bind (PairCharge out) ledger (ledger w) (outside selling)
            (with_snapshots out swapped b) w1 e1 refl
            λ s sold e2.
              with_snapshots-Keeps (ledger w) b s c w2
                (λ x y eb es. (bought ∙ ap ok eb, sold ∙ ap ok es)) e2
