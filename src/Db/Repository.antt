-- ===== src/Db/Repository.antt =====
-- backend/db/repository.py: what the program does to the tables. A session of SQLAlchemy is code
-- outside the repository: `Session` holds the calls made of it, over a state `C`; a handle `H` is an
-- object that was added to it.
pub mod Users
pub mod Tests
use gen.Prelude.{ℕ, Bool, List, [], ◌∷◌, Option, none, some, String}
use gen.Errors.{Result, ok, raised, multiple_results_found}
use gen.Exec.{Exec, pure, lift, ◌>>=◌, ◌>>◌}
use gen.Num.Int.{ℤ}
use gen.Schemas.{ExecutionStatus, success, partial_fill, hedged, rejected, TradeExecutionResult}
use gen.Db.Models.{User, ExchangeAccount, ArbitrageExecution}

-- An object as the constructor of its class makes it; the id and the time are the database's.
pub data NewRow (F U : Type 0) : Type 0 where
  new_user : (email : String) → NewRow F U
  new_account :
      (user_id : U) → (exchange_name api_key api_secret : String) → (is_active : Bool) → NewRow F U
  new_execution :
      (user_id : U)
      → (symbol buy_exchange sell_exchange : String)
      → (gross_spread_pct net_spread_pct executed_volume_usd realized_pnl_usd
          ml_confidence_score : F)
      → (execution_status : String) → NewRow F U

pub record Session (F U T H C : Type 0) : Type 0 where
  -- `select(User).where(User.email == email)`
  pub users_with : String → Exec C (List (User U T))
  -- the executions of a user, newest first, as many as the limit allows
  pub executions_of : U → ℤ → Exec C (List (ArbitrageExecution F U T))
  pub add : NewRow F U → Exec C H
  pub commit : Exec C (Unit {0})
  pub refresh_user : H → Exec C (User U T)
  pub refresh_account : H → Exec C (ExchangeAccount U T)

-- `result.scalar_one_or_none()`
unfoldable pub scalar_one_or_none : {A : Type 0} → List A → Result (Option A)
scalar_one_or_none [] = ok none
scalar_one_or_none (a ∷ []) = ok (some a)
scalar_one_or_none (a ∷ b ∷ rest) = raised multiple_results_found

-- `status.value`
unfoldable pub status_value : ExecutionStatus → String
status_value success = "SUCCESS"
status_value partial_fill = "PARTIAL_FILL"
status_value hedged = "HEDGED"
status_value rejected = "REJECTED"

module _ {F U T H C : Type 0} (session : Session F U T H C) where
  unfoldable pub create_user : String → Exec C (User U T)
  create_user email = do
    user ← session.add (new_user email)
    session.commit
    session.refresh_user user

  unfoldable pub user_or_new : String → Option (User U T) → Exec C (User U T)
  unfolding create_user
  user_or_new email none = create_user email
  user_or_new email (some user) = pure user

  unfoldable pub get_or_create_user_by_email : String → Exec C (User U T)
  unfolding scalar_one_or_none user_or_new
  get_or_create_user_by_email email = do
    result ← session.users_with email
    user ← lift (scalar_one_or_none result)
    user_or_new email user

  unfoldable pub create_exchange_account :
      U → String → String → String → Bool → Exec C (ExchangeAccount U T)
  create_exchange_account user_id exchange_name api_key api_secret is_active = do
    account ← session.add (new_account user_id exchange_name api_key api_secret is_active)
    session.commit
    session.refresh_account account

  unfoldable pub record_execution : {R : Type 0} → TradeExecutionResult F R → U → Exec C (Unit {0})
  unfolding status_value
  record_execution result user_id = do
    session.add (
        new_execution user_id result.symbol result.buy_exchange result.sell_exchange
          result.gross_spread_pct result.net_spread_pct result.executed_volume_usd
          result.realized_pnl_usd result.ml_confidence_score (status_value result.status))
    session.commit

  unfoldable pub get_recent_executions : U → ℤ → Exec C (List (ArbitrageExecution F U T))
  get_recent_executions user_id limit = session.executions_of user_id limit
