-- ===== src/MarketData/Runner/Charge.antt =====
-- What the evaluation of a pair in backend/marketdata/runner.py has to show for a trade: the books,
-- the figures found in them, the signal made of them, and the two fills.
use gen.Prelude.{true, ◌≡◌, ◌⊎◌, List, [], ◌∷◌, some, String}
use gen.Errors.{ok}
use gen.Num.{Float, ◌⊗◌, num}
use gen.Schemas.{OrderBookLevel, OrderBookSnapshot, TemporalFeatures, DepthMatrix, ArbitrageSignal}
use gen.Config.{PairConfig}
use gen.Ml.DepthSignal.{compute_depth_liquidity_hazard}
use gen.Ml.Heuristic.{HeuristicSignalEstimator, update}
use gen.Execution.Exchange.{buy, sell}
use gen.Execution.BrokenLeg
use gen.Execution.PaperExchange.{Fill}
use gen.MarketData.Features.{
  TemporalFeatureWindow, DepthMatrixBuilder, to_temporal_features, to_depth_matrix,
}
use gen.MarketData.Runner.{Opportunity, find_opportunity, World}
use gen.MarketData.Runner.Ledger.{Ledger}
use gen.MarketData.Runner.Tick.{Outside, latest_return}

-- What a monitor was made for.
pub record PairTerms (F : Type 0) : Type 0 where
  pub pair : PairConfig
  pub default_taker_fee_bps : F

module _ {F C : Type 0} ⦃fl : Float F⦄ where
  -- What the monitor's ledger is made of.
  abbrev pub ledger : World F C → Ledger F (PairTerms F)
  ledger (m, state, c) = record {
    fills = m.client.fills;
    daily = m.daily_notional_used_usd;
    kill_switch = state.kill_switch;
    notional = m.config.notional_per_trade_usd;
    terms = record { pair = m.pair; default_taker_fee_bps = m.config.default_taker_fee_bps };
  }

module _ {F C : Type 0} ⦃fl : Float F⦄ (out : Outside F C BrokenLeg.Reason) where
  -- Two reads of the cache in a row gave the books of the pair, and `find_opportunity` found the
  -- opportunity in the asks of the first and the bids of the second.
  pub record Found (l : Ledger F (PairTerms F)) (o : Opportunity F) : Type 0 where
    pub bought : OrderBookSnapshot F
    pub sold : OrderBookSnapshot F
    pub before : C
    pub buy_read :
        (out.market.get_snapshot l.terms.pair.exchange_buy l.terms.pair.symbol before).0
        ≡ ok (some bought)
    pub sell_read :
        let between =
          (out.market.get_snapshot l.terms.pair.exchange_buy l.terms.pair.symbol before).1 in
        (out.market.get_snapshot l.terms.pair.exchange_sell l.terms.pair.symbol between).0
        ≡ ok (some sold)
    pub best_ask : OrderBookLevel F
    pub more_asks : List (OrderBookLevel F)
    pub asks : bought.asks ≡ best_ask ∷ more_asks
    pub found :
        find_opportunity
          (λ exchange. out.taker_fee exchange l.terms.default_taker_fee_bps)
          l.terms.pair
          l.notional
          best_ask
          bought.asks
          sold.bids
        ≡ ok (some o)

module _ {F : Type 0} ⦃fl : Float F⦄ where
  -- The heuristic made the signal of the net alpha of the opportunity, the latest return of a
  -- feature window, and the hazard of the quantity in a depth matrix.
  pub record Signalled (o : Opportunity F) (signal : ArbitrageSignal F) : Type 0 where
    pub window : TemporalFeatureWindow F
    pub temporal : TemporalFeatures F
    pub windowed : to_temporal_features window ≡ some temporal
    pub builder : DepthMatrixBuilder F
    pub depth : DepthMatrix F
    pub built : to_depth_matrix builder ≡ some depth
    pub mid_return : F
    pub returned : latest_return temporal.window ≡ ok mid_return
    pub hazard : F
    pub measured : compute_depth_liquidity_hazard depth o.quantity "ask" ≡ ok hazard
    pub estimator : HeuristicSignalEstimator F
    pub updated : (update (o.net_alpha ⊗ num 10000) mid_return hazard estimator).0 ≡ ok signal

module _ {F : Type 0} where
  -- The quantity bought at the average ask price, and sold at the average bid price.
  abbrev pub purchase : PairTerms F → Opportunity F → String → Fill F
  purchase terms o id = record {
    id = id;
    exchange = terms.pair.exchange_buy;
    symbol = terms.pair.symbol;
    side = buy;
    amount = o.quantity;
    price = o.vwap_ask;
    paper = true;
  }

  abbrev pub sale : PairTerms F → Opportunity F → String → Fill F
  sale terms o id = record {
    id = id;
    exchange = terms.pair.exchange_sell;
    symbol = terms.pair.symbol;
    side = sell;
    amount = o.quantity;
    price = o.vwap_bid;
    paper = true;
  }

module _ {F C : Type 0} ⦃fl : Float F⦄ (out : Outside F C BrokenLeg.Reason) where
  -- The alpha, the signal, the two fills in either order and the volume come from one opportunity.
  pub record PairCharge (l : Ledger F (PairTerms F)) (alpha : F) (signal : ArbitrageSignal F)
      (extra : List (Fill F)) (volume : F) : Type 0 where
    pub opportunity : Opportunity F
    pub found : Found out l opportunity
    pub alpha_bps : alpha ≡ opportunity.net_alpha ⊗ num 10000
    pub signalled : Signalled opportunity signal
    pub id : String
    pub id' : String
    pub fills :
        (extra ≡ purchase l.terms opportunity id ∷ sale l.terms opportunity id' ∷ [])
        ⊎ (extra ≡ sale l.terms opportunity id ∷ purchase l.terms opportunity id' ∷ [])
    pub volume_usd : volume ≡ opportunity.quantity ⊗ opportunity.vwap_ask
