-- ===== src/Execution/Alpha.antt =====
-- backend/execution/alpha.py: the net alpha of a two-leg trade and of a triangular cycle.
pub mod Spread
pub mod Cycle
mod Tests
use gen.Prelude.{◌||◌}
use gen.Errors.{Result, ok, value_error, raise_if, ◌>>=◌}
use gen.Num.{Float, ◌⊕◌, ◌⊖◌, ◌⊗◌, ◌⊘◌, ◌≤?◌, num}

pub record TriangularAlpha (F : Type 0) : Type 0 where
  pub net_alpha : F
  pub bridge_qty : F
  pub target_qty : F

module _ {F : Type 0} ⦃fl : Float F⦄ where
  unfoldable pub compute_net_alpha :
      (vwap_bid_b tau_b vwap_ask_a tau_a slippage_est transfer_cost capital_usd : F) → Result F
  compute_net_alpha vwap_bid_b tau_b vwap_ask_a tau_a slippage_est transfer_cost capital_usd =
      raise_if (capital_usd ≤? num 0) value_error (
        let denom = vwap_ask_a ⊗ (num 1 ⊕ tau_a) in
        raise_if (denom ≤? num 0) value_error do
          gross ← (vwap_bid_b ⊗ (num 1 ⊖ tau_b) ⊖ denom) ⊘ denom
          transfer ← transfer_cost ⊘ capital_usd
          ok (gross ⊖ slippage_est ⊖ transfer))

  unfoldable pub compute_triangular_net_alpha :
      (quote_notional vwap_bridge_quote vwap_target_bridge vwap_target_quote tau : F)
      → Result (TriangularAlpha F)
  compute_triangular_net_alpha quote_notional vwap_bridge_quote vwap_target_bridge vwap_target_quote
        tau =
      raise_if (quote_notional ≤? num 0) value_error (
        raise_if
          ((vwap_bridge_quote ≤? num 0)
            || (vwap_target_bridge ≤? num 0)
            || (vwap_target_quote ≤? num 0))
          value_error
          do
            bridge ← quote_notional ⊘ vwap_bridge_quote
            let bridge_qty = bridge ⊗ (num 1 ⊖ tau)
            target ← bridge_qty ⊘ vwap_target_bridge
            let target_qty = target ⊗ (num 1 ⊖ tau)
            let quote_received = target_qty ⊗ vwap_target_quote ⊗ (num 1 ⊖ tau)
            net_alpha ← (quote_received ⊖ quote_notional) ⊘ quote_notional
            ok (record { net_alpha = net_alpha; bridge_qty = bridge_qty; target_qty = target_qty }))
