-- ===== src/Db/Models/Tests.antt =====
-- Ids that are texts already, and two triangles.
use gen.Prelude.{◌≡◌, ◌≤◌, ◌+◌, ◌*◌, ◌↔◌, refl, false, some, String}
use Prim.Native.String.{count}
use gen.Errors.{ok}
use gen.Execution.Triangular.{TriangleConfig, label}
use gen.Db.Models.{Uuid, text_value, uuid, process_bind_param, process_result_value, symbol_width}
use gen.Db.Models.Guid.{process_result_value-process_bind_param}
use gen.Db.Models.Width.{label_fits_iff}

-- Every text is an id.
abbrev plain : Uuid String
plain = record { to_text = λ u. u; of_text = λ s. ok s; of_text-to_text = λ u. refl }

process_result_value-process_bind_param_example :
    (s : String) × (process_bind_param plain false (text_value "7f") ≡ ok (some s))
    × (process_result_value plain (text_value s) ≡ ok (some "7f"))
    × (process_result_value plain (uuid "7f") ≡ ok (some "7f"))
process_result_value-process_bind_param_example =
    process_result_value-process_bind_param plain false (text_value "7f") "7f" refl

abbrev dogecoin : TriangleConfig
dogecoin = record { exchange = "binance"; quote = "USDT"; bridge = "BTC"; target = "DOGE" }

label_fits_iff_example :
    (count (label dogecoin) ≤ symbol_width) ↔ (2 * count "USDT" + count "BTC" + count "DOGE" ≤ 14)
label_fits_iff_example = label_fits_iff dogecoin
