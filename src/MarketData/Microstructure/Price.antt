-- ===== src/MarketData/Microstructure/Price.antt =====
-- The micro-price, and the bundle of metrics, in arithmetic without rounding.
use mathlib.Core.Path.{subst}
use gen.Prelude.{◌≡◌, ◌∙◌, ap, sym, arith}
use gen.Errors.{ok}
use gen.Num.{Float, ◌⊕◌, ◌⊗◌, ◌≺◌, ◌≼◌, num}
use gen.Num.Order.{not_le_of_lt, ⊘_pos}
use gen.Num.Exact.{IsExact}
use gen.Num.Algebra.{le_trans, add-le-add, mul-add, quot-nonneg}
use gen.Schemas.{OrderBookLevel, OrderBookSnapshot, MicrostructureMetrics}
use gen.MarketData.Microstructure.{
  compute_vwap, compute_micro_price, compute_microstructure_metrics,
}
use gen.MarketData.Microstructure.Vwap.{AreVolumes, ArePriced, compute_vwap_bounds}

-- The bundle holds the two averages that `compute_vwap` returns.
metrics_vwaps :
    {F : Type 0} ⦃fl : Float F⦄ (prev curr : OrderBookSnapshot F) (quantity : F)
    {m : MicrostructureMetrics F}
    → compute_microstructure_metrics prev curr quantity ≡ ok m
    → (compute_vwap curr.bids quantity ≡ ok m.vwap_bid)
      × (compute_vwap curr.asks quantity ≡ ok m.vwap_ask)
unfolding compute_microstructure_metrics
metrics_vwaps prev curr quantity e = ground arith

module _ {F : Type 0} ⦃fl : Float F⦄ (x : IsExact F) where
  -- A mean of two ordered numbers with weights that add up to one lies between them.
  weighted_between :
      (a b w v : F)
      → a ≼ b
      → num 0 ≼ w
      → num 0 ≼ v
      → w ⊕ v ≡ num 1
      → (a ≼ (a ⊗ w ⊕ b ⊗ v)) × ((a ⊗ w ⊕ b ⊗ v) ≼ b)
  weighted_between a b w v h pw pv e =
      let whole : (c : F) → c ⊗ w ⊕ c ⊗ v ≡ c =
        λ c. sym (mul-add x c w v) ∙ ap (λ t. c ⊗ t) e ∙ x.mul_comm c (num 1) ∙ x.one-mul c in
      (
        subst (λ t. t ≼ (a ⊗ w ⊕ b ⊗ v)) (whole a)
            (add-le-add x (a ⊗ w) (a ⊗ w) (a ⊗ v) (b ⊗ v) (x.le_refl (a ⊗ w))
              (x.mul-le-mul_right a b v pv h)),
        subst (λ t. (a ⊗ w ⊕ b ⊗ v) ≼ t) (whole b)
            (add-le-add x (a ⊗ w) (b ⊗ w) (b ⊗ v) (b ⊗ v) (x.mul-le-mul_right a b w pw h)
              (x.le_refl (b ⊗ v))),
      )

  -- For levels that do not cross, with volumes that are not negative and not both zero, and
  -- quotients exact enough that the two weights add up to one, `compute_micro_price` returns a
  -- price from the bid to the ask.
  pub micro_price_between :
      (bid ask : OrderBookLevel F)
      → num 0 ≼ bid.volume
      → num 0 ≼ ask.volume
      → num 0 ≺ (bid.volume ⊕ ask.volume)
      → bid.price ≼ ask.price
      → fl.quot ask.volume (bid.volume ⊕ ask.volume) ⊕ fl.quot bid.volume (bid.volume ⊕ ask.volume)
        ≡ num 1
      → (m : F) × (compute_micro_price bid ask ≡ ok m) × (bid.price ≼ m) × (m ≼ ask.price)
  unfolding compute_micro_price
  micro_price_between bid ask vb va pos h e =
      let total = bid.volume ⊕ ask.volume in
      let w = fl.quot ask.volume total in
      let v = fl.quot bid.volume total in
      let (low, high) =
        weighted_between bid.price ask.price w v h (quot-nonneg x ask.volume total va pos)
          (quot-nonneg x bid.volume total vb pos) e in
      (
        bid.price ⊗ w ⊕ ask.price ⊗ v,
        rw (
          not_le_of_lt x.ordered (num 0) total pos,
          ⊘_pos x.ordered ask.volume total pos,
          ⊘_pos x.ordered bid.volume total pos,
        ),
        low,
        high,
      )

  -- Where no bid price is above `top` and no ask price below `bottom`, and the book does not cross
  -- (`top <= bottom`), selling a quantity never brings more per unit than buying it costs.
  pub metrics_spread :
      (prev curr : OrderBookSnapshot F) (quantity low top bottom high : F)
      {m : MicrostructureMetrics F}
      → AreVolumes curr.bids
      → AreVolumes curr.asks
      → ArePriced low top curr.bids
      → ArePriced bottom high curr.asks
      → top ≼ bottom
      → compute_microstructure_metrics prev curr quantity ≡ ok m
      → m.vwap_bid ≼ m.vwap_ask
  metrics_spread prev curr quantity low top bottom high {m} vb va pb pa h e =
      let bid =
        compute_vwap_bounds x low top curr.bids quantity vb pb
          (metrics_vwaps prev curr quantity e).0 in
      let ask =
        compute_vwap_bounds x bottom high curr.asks quantity va pa
          (metrics_vwaps prev curr quantity e).1 in
      le_trans x m.vwap_bid top m.vwap_ask bid.1 (le_trans x top bottom m.vwap_ask h ask.0)
