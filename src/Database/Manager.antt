-- ===== src/Database/Manager.antt =====
-- `DatabaseManager` (src/db/database-manager.ts). Opening a database and the two drivers are
-- parameters. `db` and `driverInfo` are set and reset together.
pub mod Guarded
use agent_p.Common.{
  ℕ, String, Option, none, some, Bool, true, false, List, [], length, Result, ok, err, or_else,
}
use agent_p.Database.SqlSafety.{Text, ParameterizedQuery, assert_safe_single_statement}

pub data SqliteDriver : Type 0 where
  better_sqlite3 : SqliteDriver
  sql_js : SqliteDriver

pub record DriverInfo : Type 0 where
  pub driver : SqliteDriver
  pub is_fallback : Bool

-- `DatabaseAdapter`, for the types of values and rows.
pub record Adapter (World V Row : Type 0) : Type 0 where
  pub run : Text → List V → World → Result (Unit {0}) × World
  pub get : Text → List V → World → Result (Option Row) × World
  pub all_rows : Text → List V → World → Result (List Row) × World
  pub exec : Text → World → Result (Unit {0}) × World
  pub close : World → Result (Unit {0}) × World

-- `ensure_parent` is `ensureParentDirectory` for the path, and `open_db` loads a driver and opens the
-- database with it.
pub record Sqlite (World V Row : Type 0) : Type 0 where
  pub ensure_parent : World → Result (Unit {0}) × World
  pub open_db : SqliteDriver → World → Result (Unit {0}) × World
  pub adapter : SqliteDriver → Adapter World V Row

pub record Manager (World : Type 0) : Type 0 where
  pub info : Option DriverInfo
  pub world : World

-- A text with the parameters that are given to it, or a query that has its own.
pub data Statement (V : Type 0) : Type 0 where
  of_text : Text → Option (List V) → Statement V
  of_query : ParameterizedQuery V → Statement V

unfoldable pub statement_text : {V : Type 0} → Statement V → Text
statement_text (of_text sql params) = sql
statement_text (of_query q) = q.text

unfoldable pub statement_params : {V : Type 0} → Statement V → Option (List V)
statement_params (of_text sql params) = params
statement_params (of_query q) = some q.params

count_of : {V : Type 0} → Option (List V) → Option ℕ
count_of none = none
count_of (some vs) = some (length vs)

-- The check of `normalizeStatement`.
unfoldable pub check_statement : {V : Type 0} → Statement V → Result (Unit {0})
unfolding statement_text statement_params count_of assert_safe_single_statement
check_statement s = assert_safe_single_statement (statement_text s) (count_of (statement_params s))

abbrev not_initialized : String
not_initialized = "DatabaseManager is not initialized"

module _ {World V Row : Type 0} (sqlite : Sqlite World V Row) where
  -- A call of the adapter `f`, behind the check of its statement.
  after_normalize :
      {A : Type 0} → Manager World → Result (Unit {0}) → Result A × World → Result A × Manager World
  after_normalize m (err e) (r, w) = (err e, m)
  after_normalize m (ok _) (r, w) = (r, record m { world = w })

  guarded :
      {A : Type 0}
      → (Adapter World V Row → Text → List V → World → Result A × World)
      → Statement V
      → Manager World
      → Option DriverInfo
      → Result A × Manager World
  unfolding after_normalize check_statement statement_text statement_params
  guarded call s m none = (err not_initialized, m)
  guarded call s m (some info) = after_normalize m (check_statement s) (
      call (sqlite.adapter info.driver) (statement_text s) (or_else (statement_params s) [])
        m.world)

  unfoldable pub run : Statement V → Manager World → Result (Unit {0}) × Manager World
  unfolding guarded
  run s m = guarded (λ (a : Adapter World V Row). a.run) s m m.info

  unfoldable pub get_row : Statement V → Manager World → Result (Option Row) × Manager World
  unfolding guarded
  get_row s m = guarded (λ (a : Adapter World V Row). a.get) s m m.info

  unfoldable pub all_rows : Statement V → Manager World → Result (List Row) × Manager World
  unfolding guarded
  all_rows s m = guarded (λ (a : Adapter World V Row). a.all_rows) s m m.info

  with_world : {A : Type 0} → Manager World → Result A × World → Result A × Manager World
  with_world m (r, w) = (r, record m { world = w })

  exec_on : Text → Manager World → Option DriverInfo → Result (Unit {0}) × Manager World
  unfolding with_world
  exec_on sql m none = (err not_initialized, m)
  exec_on sql m (some info) = with_world m ((sqlite.adapter info.driver).exec sql m.world)

  unfoldable pub exec : Text → Manager World → Result (Unit {0}) × Manager World
  unfolding exec_on
  exec sql m = exec_on sql m m.info

  closed : Manager World → Result (Unit {0}) × World → Result (Unit {0}) × Manager World
  closed m (ok _, w) = (ok tt, record { info = none; world = w })
  closed m (err e, w) = (err e, record m { world = w })

  close_on : Manager World → Option DriverInfo → Result (Unit {0}) × Manager World
  unfolding closed
  close_on m none = (ok tt, m)
  close_on m (some info) = closed m ((sqlite.adapter info.driver).close m.world)

  unfoldable pub close : Manager World → Result (Unit {0}) × Manager World
  unfolding close_on
  close m = close_on m m.info

  opened :
      DriverInfo → Manager World → Result (Unit {0}) × World → Result DriverInfo × Manager World
  opened info m (ok _, w) = (ok info, record { info = some info; world = w })
  opened info m (err e, w) = (err e, record m { world = w })

  -- The fallback, if the first driver failed.
  or_fallback : Manager World → Result (Unit {0}) × World → Result DriverInfo × Manager World
  unfolding opened
  or_fallback m (ok _, w) =
      opened (record { driver = better_sqlite3; is_fallback = false }) m (ok tt, w)
  or_fallback m (err e, w) =
      opened (record { driver = sql_js; is_fallback = true }) m (sqlite.open_db sql_js w)

  behind_parent : Manager World → Result (Unit {0}) × World → Result DriverInfo × Manager World
  unfolding or_fallback
  behind_parent m (ok _, w) = or_fallback m (sqlite.open_db better_sqlite3 w)
  behind_parent m (err e, w) = (err e, record m { world = w })

  initialize_on : Manager World → Option DriverInfo → Result DriverInfo × Manager World
  unfolding behind_parent
  initialize_on m (some info) = (ok info, m)
  initialize_on m none = behind_parent m (sqlite.ensure_parent m.world)

  unfoldable pub initialize : Manager World → Result DriverInfo × Manager World
  unfolding initialize_on
  initialize m = initialize_on m m.info

  info_of : Option DriverInfo → Result DriverInfo
  info_of none = err not_initialized
  info_of (some info) = ok info

  unfoldable pub get_driver_info : Manager World → Result DriverInfo
  unfolding info_of
  get_driver_info m = info_of m.info
