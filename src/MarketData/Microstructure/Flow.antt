-- ===== src/MarketData/Microstructure/Flow.antt =====
-- The order flow imbalance between two snapshots.
use mathlib.Core.Path.{subst}
use gen.Prelude.{false, List, [], ◌∷◌, ◌≡◌, ◌≢◌, refl, inl, inr, Bool-cases, arith}
use gen.Errors.{Result, ok, raised, value_error}
use gen.Num.{Float, ◌⊖◌, ◌=?◌, ◌≺◌, ◌≼◌, num}
use gen.Num.Order.{not_lt_of_le}
use gen.Num.Exact.{IsExact}
use gen.Num.Algebra.{le_trans, le_of_lt, sub-nonneg_iff, sub-le_iff, le_of_add-le-add}
use gen.Schemas.{OrderBookLevel, OrderBookSnapshot}
use gen.MarketData.Microstructure.{bid_flow, ask_flow, compute_order_flow_imbalance}

-- No side of the snapshot is empty.
abbrev pub IsFilled : {F : Type 0} → OrderBookSnapshot F → Type 0
IsFilled s = (s.bids ≢ []) × (s.asks ≢ [])

module _ {F : Type 0} ⦃fl : Float F⦄ where
  -- What one pair of sides contributes; ValueError for an empty one.
  pub flows :
      List (OrderBookLevel F)
      → List (OrderBookLevel F)
      → List (OrderBookLevel F)
      → List (OrderBookLevel F)
      → Result F
  flows (pb ∷ _) (cb ∷ _) (pa ∷ _) (ca ∷ _) = ok (bid_flow pb cb ⊖ ask_flow pa ca)
  flows _ _ _ _ = raised value_error

  ofi-eq-flows :
      (prev curr : OrderBookSnapshot F)
      → compute_order_flow_imbalance prev curr ≡ flows prev.bids curr.bids prev.asks curr.asks
  unfolding compute_order_flow_imbalance flows
  ofi-eq-flows prev curr = ground arith

  module _ (x : IsExact F) where
    neg_nonpos : (a : F) → num 0 ≼ a → fl.neg a ≼ num 0
    neg_nonpos a h =
        le_of_add-le-add x (fl.neg a) (num 0) a
          (rw (x.zero-add a, x.add_comm (fl.neg a) a, x.add-neg a) h)

    eq_of_lt : (a b : F) → a ≺ b → (a =? b) ≡ false
    eq_of_lt a b h = elim (Bool-cases (a =? b)) [
      | inl e ↦
          absurd
            (x.ordered.not-le_of_lt a b h (subst (λ t. t ≼ a) ((x.eq_iff a b).0 e) (x.le_refl a)))
      | inr e ↦ e
    ]

    sub-sign : (a b : F) → b ≼ num 0 → num 0 ≼ a → num 0 ≼ (a ⊖ b)
    sub-sign a b h k = (sub-nonneg_iff x b a).1 (le_trans x b (num 0) a h k)

    sub-nonpos : (a b : F) → a ≼ num 0 → num 0 ≼ b → (a ⊖ b) ≼ num 0
    sub-nonpos a b h k =
        (sub-le_iff x a (num 0) b).1 (rw (x.zero-add b) (le_trans x a (num 0) b h k))

    sub_self : (a : F) → a ⊖ a ≡ num 0
    sub_self a =
        x.le_antisymm (a ⊖ a) (num 0)
          ((sub-le_iff x a (num 0) a).1 (rw (x.zero-add a) (x.le_refl a)))
          ((sub-nonneg_iff x a a).1 (x.le_refl a))

    lt_irrefl : (a : F) → fl.lt a a ≡ false
    lt_irrefl a = not_lt_of_le x.ordered a a (x.le_refl a)

    bid_flow_signs :
        (prev curr : OrderBookLevel F)
        → num 0 ≼ curr.volume
        → (prev.price ≺ curr.price → num 0 ≼ bid_flow prev curr)
          × (curr.price ≺ prev.price → bid_flow prev curr ≼ num 0)
          × (prev ≡ curr → bid_flow prev curr ≡ num 0)
    unfolding bid_flow
    bid_flow_signs prev curr v = (
      λ up. rw up v,
      λ down.
          rw
            (
              not_lt_of_le x.ordered curr.price prev.price (le_of_lt x curr.price prev.price down),
              eq_of_lt curr.price prev.price down,
            )
            (neg_nonpos curr.volume v),
      λ same. rw same (
          rw (lt_irrefl curr.price, (x.eq_iff curr.price curr.price).1 refl)
            (sub_self curr.volume)),
    )

    ask_flow_signs :
        (prev curr : OrderBookLevel F)
        → num 0 ≼ curr.volume
        → (prev.price ≺ curr.price → ask_flow prev curr ≼ num 0)
          × (curr.price ≺ prev.price → num 0 ≼ ask_flow prev curr)
          × (prev ≡ curr → ask_flow prev curr ≡ num 0)
    unfolding ask_flow
    ask_flow_signs prev curr v = (
      λ up. rw up (neg_nonpos curr.volume v),
      λ down.
          rw
            (
              not_lt_of_le x.ordered curr.price prev.price (le_of_lt x curr.price prev.price down),
              eq_of_lt curr.price prev.price down,
            )
            v,
      λ same. rw same (
          rw (lt_irrefl curr.price, (x.eq_iff curr.price curr.price).1 refl)
            (sub_self curr.volume)),
    )

    -- Without rounding, where `compute_order_flow_imbalance` returns a value and the volumes of the
    -- new best levels are not negative: the value is at least zero if both best prices rose, at
    -- most zero if both fell, and zero if both best levels are unchanged.
    pub ofi_pressure :
        (prev curr : OrderBookSnapshot F) (pb cb pa ca : OrderBookLevel F)
        (pbs cbs pas cas : List (OrderBookLevel F)) {ofi : F}
        → prev.bids ≡ pb ∷ pbs
        → curr.bids ≡ cb ∷ cbs
        → prev.asks ≡ pa ∷ pas
        → curr.asks ≡ ca ∷ cas
        → num 0 ≼ cb.volume
        → num 0 ≼ ca.volume
        → compute_order_flow_imbalance prev curr ≡ ok ofi
        → (pb.price ≺ cb.price → pa.price ≺ ca.price → num 0 ≼ ofi)
          × (cb.price ≺ pb.price → ca.price ≺ pa.price → ofi ≼ num 0)
          × (pb ≡ cb → pa ≡ ca → ofi ≡ num 0)
    unfolding flows
    ofi_pressure prev curr pb cb pa ca pbs cbs pas cas {ofi} e1 e2 e3 e4 vb va e =
        let value : bid_flow pb cb ⊖ ask_flow pa ca ≡ ofi =
          ground (arith, ofi-eq-flows prev curr) in
        let b = bid_flow_signs pb cb vb in
        let a = ask_flow_signs pa ca va in
        rw (← value) (
          λ h k. sub-sign (bid_flow pb cb) (ask_flow pa ca) (a.0 k) (b.0 h),
          λ h k. sub-nonpos (bid_flow pb cb) (ask_flow pa ca) (b.1 h) (a.1 k),
          λ h k. rw (b.2 h, a.2 k) (sub_self (num 0)),
        )
