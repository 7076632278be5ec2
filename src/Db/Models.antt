-- ===== src/Db/Models.antt =====
-- backend/db/models.py: the rows of the tables, and the column type of the ids. SQLAlchemy, the
-- database and the module `uuid` are code outside the repository.
pub mod Guid
pub mod Width
pub mod Tests
use gen.Prelude.{ℕ, Bool, true, false, Option, none, some, String, ◌≡◌}
use gen.Errors.{Result, ok, ◌>>=◌}

pub record Uuid (U : Type 0) : Type 0 where
  pub to_text : U → String
  -- `uuid.UUID(text)`, which raises ValueError
  pub of_text : String → Result U
  -- the documented round trip of the module
  pub of_text-to_text : (u : U) → of_text (to_text u) ≡ ok u

-- What a parameter of the column, or a value that the driver reads, is.
pub data GuidValue (U : Type 0) : Type 0 where
  missing : GuidValue U
  uuid : U → GuidValue U
  text_value : String → GuidValue U

module _ {U : Type 0} (module_uuid : Uuid U) where
  -- `GUID.process_bind_param`, with whether the dialect is that of PostgreSQL
  unfoldable pub process_bind_param : Bool → GuidValue U → Result (Option String)
  process_bind_param postgresql missing = ok none
  process_bind_param postgresql (uuid u) = ok (some (module_uuid.to_text u))
  process_bind_param true (text_value s) = ok (some s)
  process_bind_param false (text_value s) =
      module_uuid.of_text s >>= λ u. ok (some (module_uuid.to_text u))

  -- `GUID.process_result_value`
  unfoldable pub process_result_value : GuidValue U → Result (Option U)
  process_result_value missing = ok none
  process_result_value (uuid u) = ok (some u)
  process_result_value (text_value s) = module_uuid.of_text s >>= λ u. ok (some u)

-- The columns, with an id of type `U`, times of type `T` and amounts of type `F`.
pub record User (U T : Type 0) : Type 0 where
  pub id : U
  pub email : String
  pub created_at : T

pub record ExchangeAccount (U T : Type 0) : Type 0 where
  pub id : U
  pub user_id : Option U
  pub exchange_name : String
  pub encrypted_api_key : String
  pub encrypted_api_secret : String
  pub is_active : Bool
  pub created_at : T

pub record ArbitrageExecution (F U T : Type 0) : Type 0 where
  pub id : U
  pub user_id : Option U
  pub symbol : String
  pub buy_exchange : String
  pub sell_exchange : String
  pub gross_spread_pct : F
  pub net_spread_pct : F
  pub executed_volume_usd : F
  pub realized_pnl_usd : F
  pub ml_confidence_score : F
  pub execution_status : String
  pub executed_at : Option T

-- The column `symbol` of `arbitrage_executions` is `String(20)`.
abbrev pub symbol_width : ℕ
symbol_width = 20
