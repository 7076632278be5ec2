-- ===== src/Execution/Alpha/Spread.antt =====
-- What `compute_net_alpha` returns and when it raises.
use mathlib.Core.Path.{subst}
use gen.Prelude.{false, ◌≡◌, sym, ◌⊎◌, inl, inr, Bool-cases, arith}
use gen.Errors.{ok, raised, value_error}
use gen.Num.{Float, ◌⊕◌, ◌⊖◌, ◌⊗◌, ◌≤?◌, ◌≺◌, ◌≼◌, num}
use gen.Num.Order.{IsOrdered, ⊘_pos, lt_of_not_le}
use gen.Num.Exact.{IsExact}
use gen.Num.Algebra.{le_trans, add-nonneg, le-sub_iff, sub-nonneg_iff, quot-nonneg, zero-mul}
use gen.Execution.Alpha.{compute_net_alpha}

module _ {F : Type 0} ⦃fl : Float F⦄ where
  -- A successful call computed the formula of docs/ARCHITECTURE.md section 5 at a positive capital
  -- and a positive cost of the bought unit.
  net_alpha-eq-ok :
      (bid tau_b ask tau_a slippage transfer capital : F) {alpha : F}
      → compute_net_alpha bid tau_b ask tau_a slippage transfer capital ≡ ok alpha
      → let cost = ask ⊗ (num 1 ⊕ tau_a) in
        ((capital ≤? num 0) ≡ false)
        × ((cost ≤? num 0) ≡ false)
        × (fl.quot (bid ⊗ (num 1 ⊖ tau_b) ⊖ cost) cost ⊖ slippage ⊖ fl.quot transfer capital
            ≡ alpha)
  unfolding compute_net_alpha
  net_alpha-eq-ok bid tau_b ask tau_a slippage transfer capital e = ground arith

  -- For a capital and a cost that are numbers, `compute_net_alpha` raises ValueError exactly if one
  -- of them is not positive, and otherwise returns the formula; ZeroDivisionError never comes up.
  pub net_alpha_total :
      (laws : IsOrdered F) (bid tau_b ask tau_a slippage transfer capital : F)
      → let cost = ask ⊗ (num 1 ⊕ tau_a) in
        capital ≼ capital
        → cost ≼ cost
        → ((num 0 ≺ capital)
            × (num 0 ≺ cost)
            × (compute_net_alpha bid tau_b ask tau_a slippage transfer capital
                ≡ ok (
                    fl.quot (bid ⊗ (num 1 ⊖ tau_b) ⊖ cost) cost
                    ⊖ slippage
                    ⊖ fl.quot transfer capital)))
          ⊎ (((capital ≼ num 0) ⊎ (cost ≼ num 0))
              × (compute_net_alpha bid tau_b ask tau_a slippage transfer capital
                  ≡ raised value_error))
  unfolding compute_net_alpha
  net_alpha_total laws bid tau_b ask tau_a slippage transfer capital nc nd =
      let cost = ask ⊗ (num 1 ⊕ tau_a) in
      elim (Bool-cases (capital ≤? num 0)) [
        | inl no_capital ↦ inr (inl no_capital, rw no_capital)
        | inr paid ↦ elim (Bool-cases (cost ≤? num 0)) [
          | inl free ↦ inr (inr free, rw (paid, free))
          | inr priced ↦
              let pos = lt_of_not_le laws capital (num 0) nc laws.zero_num paid in
              let cost_pos = lt_of_not_le laws cost (num 0) nd laws.zero_num priced in
              inl (
                pos,
                cost_pos,
                rw (
                  paid,
                  priced,
                  ⊘_pos laws (bid ⊗ (num 1 ⊖ tau_b) ⊖ cost) cost cost_pos,
                  ⊘_pos laws transfer capital pos,
                ),
              )
        ]
      ]

  -- Without rounding: if the net alpha is not negative, and neither are slippage and transfer cost,
  -- then what a unit brings after the seller's fee covers what it costs with the buyer's fee.
  pub net_alpha_covers :
      (x : IsExact F) (bid tau_b ask tau_a slippage transfer capital : F) {alpha : F}
      → num 0 ≼ slippage
      → num 0 ≼ transfer
      → compute_net_alpha bid tau_b ask tau_a slippage transfer capital ≡ ok alpha
      → num 0 ≼ alpha
      → (ask ⊗ (num 1 ⊕ tau_a)) ≼ (bid ⊗ (num 1 ⊖ tau_b))
  net_alpha_covers x bid tau_b ask tau_a slippage transfer capital ps pt e h =
      let cost = ask ⊗ (num 1 ⊕ tau_a) in
      let proceeds = bid ⊗ (num 1 ⊖ tau_b) in
      let gross = fl.quot (proceeds ⊖ cost) cost in
      let fee = fl.quot transfer capital in
      let (paid, priced, value) = net_alpha-eq-ok bid tau_b ask tau_a slippage transfer capital e in
      let pos : num 0 ≺ capital =
        lt_of_not_le x.ordered capital (num 0) (x.le_refl capital) (x.le_refl (num 0)) paid in
      let cost_pos : num 0 ≺ cost =
        lt_of_not_le x.ordered cost (num 0) (x.le_refl cost) (x.le_refl (num 0)) priced in
      let above_fee : (num 0 ⊕ fee) ≼ (gross ⊖ slippage) =
        (le-sub_iff x (num 0) (gross ⊖ slippage) fee).0 (subst (λ t. num 0 ≼ t) (sym value) h) in
      let fee_nonneg = quot-nonneg x transfer capital pt pos in
      let net : num 0 ≼ (gross ⊖ slippage) =
        le_trans x (num 0) (num 0 ⊕ fee) (gross ⊖ slippage)
          (add-nonneg x (num 0) fee (x.le_refl (num 0)) fee_nonneg) above_fee in
      let gross_nonneg : num 0 ≼ gross =
        le_trans x (num 0) slippage gross ps ((sub-nonneg_iff x slippage gross).0 net) in
      (sub-nonneg_iff x cost proceeds).0 (
        subst (λ t. t ≼ (proceeds ⊖ cost)) (zero-mul x cost)
          ((x.le-quot_iff (proceeds ⊖ cost) cost (num 0) cost_pos).0 gross_nonneg))
