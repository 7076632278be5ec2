-- ===== src/Execution/Alpha/Tests.antt =====
-- Runs of the alpha formulas, and their theorems at concrete prices.
use gen.Prelude.{◌≡◌, refl}
use gen.Errors.{ok, raised, value_error}
use gen.Num.{◌⊕◌, ◌⊖◌, ◌⊗◌, ◌≼◌, num}
use gen.Num.Int.{ℤ, pos, int_float, int_arith, ℤ-IsExact}
use gen.Execution.Alpha.{TriangularAlpha, compute_net_alpha, compute_triangular_net_alpha}
use gen.Execution.Alpha.Spread.{net_alpha_covers}
use gen.Execution.Alpha.Cycle.{triangular_needs_mispricing}

abbrev int : ℤ → ℤ
int a = a

-- Bought at 100, sold at 220, without fees: a net alpha of 1 after rounding down.
doubled :
    compute_net_alpha (pos 220) (pos 0) (pos 100) (pos 0) (pos 0) (pos 7) (pos 50) ≡ ok (pos 1)
unfolding compute_net_alpha int_arith
doubled = refl

no_capital :
    compute_net_alpha (pos 220) (pos 0) (pos 100) (pos 0) (pos 0) (pos 7) (pos 0)
    ≡ raised value_error
unfolding compute_net_alpha
no_capital = refl

abbrev cycle : TriangularAlpha ℤ
cycle = record { net_alpha = pos 2; bridge_qty = pos 10; target_qty = pos 5 }

tripled : compute_triangular_net_alpha (pos 100) (pos 10) (pos 2) (pos 60) (pos 0) ≡ ok cycle
unfolding compute_triangular_net_alpha int_arith
tripled = refl

net_alpha_covers_example : (int (pos 100) ⊗ (num 1 ⊕ pos 0)) ≼ (int (pos 220) ⊗ (num 1 ⊖ pos 0))
net_alpha_covers_example =
    net_alpha_covers ℤ-IsExact (pos 220) (pos 0) (pos 100) (pos 0) (pos 0) (pos 7) (pos 50) refl
      refl doubled refl

triangular_needs_mispricing_example :
    let k : ℤ = num 1 ⊖ pos 0 in (int (pos 10) ⊗ pos 2) ≼ (int (pos 60) ⊗ k ⊗ k ⊗ k)
unfolding int_arith
triangular_needs_mispricing_example =
    triangular_needs_mispricing ℤ-IsExact (pos 100) (pos 10) (pos 2) (pos 60) (pos 0) refl tripled
      refl
