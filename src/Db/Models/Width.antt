-- ===== src/Db/Models/Width.antt =====
-- Which triangles the column `symbol` has room for.
use Prim.Native.String.{count, ◌++◌ as concat}
use text.Mathlib.TextLemmas.{length-append}
use gen.Prelude.{◌+◌, ◌*◌, ◌≤◌, ◌≡◌, ◌↔◌, String, arith}
use gen.Execution.Triangular.{TriangleConfig, label}
use gen.Db.Models.{symbol_width}

after_arrow : (s : String) → count (concat "->" s) ≡ 2 + count s
after_arrow s = length-append "->" s

count-label :
    (t : TriangleConfig) → count (label t) ≡ 2 * count t.quote + count t.bridge + count t.target + 6
unfolding label
count-label t =
    let c = concat "->" t.quote in
    let b = concat "->" (concat t.target c) in
    omega (
      arith,
      length-append t.quote (concat "->" (concat t.bridge b)),
      after_arrow (concat t.bridge b),
      length-append t.bridge b,
      after_arrow (concat t.target c),
      length-append t.target c,
      after_arrow t.quote,
    )

-- The label of a triangle, which is stored as the symbol of its executions, is as wide as the column
-- allows exactly where twice the name of the quote asset and the names of the other two have at most
-- fourteen characters together.
pub label_fits_iff :
    (t : TriangleConfig)
    → (count (label t) ≤ symbol_width) ↔ (2 * count t.quote + count t.bridge + count t.target ≤ 14)
label_fits_iff t = (λ h. omega (arith, count-label t), λ h. omega (arith, count-label t))
