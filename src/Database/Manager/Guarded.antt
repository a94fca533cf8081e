-- ===== src/Database/Manager/Guarded.antt =====
-- What the manager lets through to its driver, and how it opens and closes (src/db/database-manager.ts).
use agent_p.Common.{
  ℕ, ◌≡◌, ◌↔◌, refl, sym, ◌⊎◌, inl, inr, String, Option, none, some, true, false, List, [], length,
  Result, ok, err, or_else,
}
use agent_p.Database.SqlSafety.{Text}
use agent_p.Database.SqlSafety.Statements.{IsAccepted, wanted, assert_safe_single_statement_iff}
use agent_p.Database.Manager.{
  DriverInfo, better_sqlite3, sql_js, Adapter, Sqlite, Manager, Statement, statement_text,
  statement_params, count_of, check_statement, after_normalize, not_initialized, guarded, run,
  get_row, all_rows, exec_on, exec, close_on, close, opened, or_fallback, behind_parent,
  initialize_on, initialize, info_of, get_driver_info,
}

-- The number of parameters that come with a statement.
abbrev pub given_count : {V : Type 0} → Option (List V) → ℕ
given_count none = 0
given_count (some vs) = length vs

-- The answer of a call on the manager: the database is open and the statement is accepted with its
-- parameters, and the answer is the driver's; or one of the two is not so, the answer is an error,
-- and nothing has changed.
abbrev pub Guarded :
    {World V Row A : Type 0}
    → Sqlite World V Row
    → (Adapter World V Row → Text → List V → World → Result A × World)
    → Statement V
    → Manager World
    → Result A × Manager World
    → Type 0
Guarded sqlite call s m (r, m2) =
    ((info : DriverInfo) × (m.info ≡ some info)
      × IsAccepted (statement_text s) (given_count (statement_params s))
      × (r
          ≡ (call (sqlite.adapter info.driver) (statement_text s) (or_else (statement_params s) [])
              m.world).0)
      × (m2 ≡ record m {
        world =
            (call (sqlite.adapter info.driver) (statement_text s) (or_else (statement_params s) [])
              m.world).1;
      }))
    ⊎ (((m.info ≡ none) ⊎ (¬ (IsAccepted (statement_text s) (given_count (statement_params s)))))
        × ((e : String) × (r ≡ err e))
        × (m2 ≡ m))

wanted-count_of : {V : Type 0} (p : Option (List V)) → wanted (count_of p) ≡ given_count p
unfolding count_of
wanted-count_of none = refl
wanted-count_of (some vs) = refl

check_statement-accepts :
    {V : Type 0} (s : Statement V)
    → IsAccepted (statement_text s) (given_count (statement_params s))
    → check_statement s ≡ ok tt
unfolding check_statement
check_statement-accepts s given =
    (assert_safe_single_statement_iff (statement_text s) (count_of (statement_params s))).1
      (rw (sym (wanted-count_of (statement_params s))) at given)

module _ {World V Row A : Type 0} (sqlite : Sqlite World V Row)
    (call : Adapter World V Row → Text → List V → World → Result A × World) where
  checked-Guarded :
      (s : Statement V) (m : Manager World) (info : DriverInfo) (c : Result (Unit {0}))
      → m.info ≡ some info
      → check_statement s ≡ c
      → Guarded sqlite call s m (
          after_normalize sqlite m c (
            call
              (sqlite.adapter info.driver)
              (statement_text s)
              (or_else (statement_params s) [])
              m.world))
  unfolding after_normalize check_statement
  checked-Guarded s m info (err e) open_ h =
      inr (inr (λ given. let accepted = check_statement-accepts s given in cc), (e, refl), refl)
  checked-Guarded s m info (ok u) open_ h =
      let accepted =
        (assert_safe_single_statement_iff (statement_text s) (count_of (statement_params s))).0 h in
      inl (info, open_, rw (wanted-count_of (statement_params s)) at accepted, refl, refl)

  guarded-Guarded :
      (s : Statement V) (m : Manager World) (info : Option DriverInfo)
      → m.info ≡ info
      → Guarded sqlite call s m (guarded sqlite call s m info)
  unfolding guarded
  guarded-Guarded s m none e = inr (inl e, (not_initialized, refl), refl)
  guarded-Guarded s m (some info) e = checked-Guarded s m info (check_statement s) e refl

-- A statement reaches the driver by `run`, `get` or `all` only if the database is open and the
-- statement is accepted with its parameters; the driver's answer is then the answer. In every other
-- case the answer is an error, and neither the manager nor the world has changed.
pub run-Guarded :
    {World V Row : Type 0} (sqlite : Sqlite World V Row) (s : Statement V) (m : Manager World)
    → Guarded sqlite (λ (a : Adapter World V Row). a.run) s m (run sqlite s m)
      × Guarded sqlite (λ (a : Adapter World V Row). a.get) s m (get_row sqlite s m)
      × Guarded sqlite (λ (a : Adapter World V Row). a.all_rows) s m (all_rows sqlite s m)
unfolding run get_row all_rows
run-Guarded {World} {V} {Row} sqlite s m = (
  guarded-Guarded sqlite (λ (a : Adapter World V Row). a.run) s m m.info refl,
  guarded-Guarded sqlite (λ (a : Adapter World V Row). a.get) s m m.info refl,
  guarded-Guarded sqlite (λ (a : Adapter World V Row). a.all_rows) s m m.info refl,
)

module _ {World V Row : Type 0} (sqlite : Sqlite World V Row) where
  info_of_iff :
      (i : Option DriverInfo) (info : DriverInfo) → (info_of sqlite i ≡ ok info) ↔ (i ≡ some info)
  unfolding info_of
  info_of_iff none info = ((λ h. cc), λ h. cc)
  info_of_iff (some i) info = ((λ h. cc), λ h. cc)

  -- A driver is reported exactly when one is open, and it is that one.
  pub get_driver_info_iff :
      (m : Manager World) (info : DriverInfo)
      → (get_driver_info sqlite m ≡ ok info) ↔ (m.info ≡ some info)
  unfolding get_driver_info
  get_driver_info_iff m info = info_of_iff m.info info

  -- With no database open a text is not executed, and closing does nothing.
  pub exec-none :
      (sql : Text) (w : World)
      → (exec sqlite sql (record { info = none; world = w })
          ≡ (err not_initialized, record { info = none; world = w }))
        × (close sqlite (record { info = none; world = w })
            ≡ (ok tt, record { info = none; world = w }))
  unfolding exec exec_on close close_on
  exec-none sql w = (refl, refl)

  opened-info :
      (i : DriverInfo) (m : Manager World) (r : Result (Unit {0}) × World) {info : DriverInfo}
      → (opened sqlite i m r).0 ≡ ok info
      → (opened sqlite i m r).1.info ≡ some info
  unfolding opened
  opened-info i m (ok u, w) h = cc
  opened-info i m (err e, w) h = cc

  or_fallback-info :
      (m : Manager World) (r : Result (Unit {0}) × World) {info : DriverInfo}
      → (or_fallback sqlite m r).0 ≡ ok info
      → (or_fallback sqlite m r).1.info ≡ some info
  unfolding or_fallback
  or_fallback-info m (ok u, w) h =
      opened-info (record { driver = better_sqlite3; is_fallback = false }) m (ok tt, w) h
  or_fallback-info m (err e, w) h =
      opened-info (record { driver = sql_js; is_fallback = true }) m (sqlite.open_db sql_js w) h

  behind_parent-info :
      (m : Manager World) (r : Result (Unit {0}) × World) {info : DriverInfo}
      → (behind_parent sqlite m r).0 ≡ ok info
      → (behind_parent sqlite m r).1.info ≡ some info
  unfolding behind_parent
  behind_parent-info m (ok u, w) h = or_fallback-info m (sqlite.open_db better_sqlite3 w) h
  behind_parent-info m (err e, w) h = cc

  initialize_on-info :
      (m : Manager World) (i : Option DriverInfo) {info : DriverInfo}
      → m.info ≡ i
      → (initialize_on sqlite m i).0 ≡ ok info
      → (initialize_on sqlite m i).1.info ≡ some info
  unfolding initialize_on
  initialize_on-info m none e h = behind_parent-info m (sqlite.ensure_parent m.world) h
  initialize_on-info m (some i) e h = cc

  -- The driver that `initialize` answers with is the one that is open afterwards.
  pub initialize-info :
      (m : Manager World) (info : DriverInfo)
      → (initialize sqlite m).0 ≡ ok info
      → (initialize sqlite m).1.info ≡ some info
  unfolding initialize
  initialize-info m info h = initialize_on-info m m.info refl h
