-- ===== src/Database/Migrations.antt =====
-- `runMigrations` (src/db/migration-runner.ts) over a database and a directory of files.
pub mod Fates
pub mod Runs
use Prim.Native.String.{◌++◌ as str_append}
use agent_p.Common.{
  ℕ, String, Option, none, some, Bool, true, false, List, [], ◌∷◌, Result, ok, err, or_else,
  keep_if, ◌==◌, string_eq, if◌then◌else◌,
}

pub record MigrationResult : Type 0 where
  pub applied : List String
  pub skipped : List String

-- The files, with their trimmed contents, do not change during a run. `rows` is the query of
-- `loadApplied`, `insert` the recording of a name and a checksum.
pub record MigrationEnv (World : Type 0) : Type 0 where
  pub migrations_dir : String
  pub directory : Option (List String)
  pub is_sql : String → Bool
  pub sort_names : List String → List String
  pub read_text : String → Result String
  pub sha256 : String → String
  pub now : World → ℕ × World
  pub initialize : World → Result (Unit {0}) × World
  pub ensure_table : World → Result (Unit {0}) × World
  pub rows : World → Result (List (String × String)) × World
  pub exec : String → World → Result (Unit {0}) × World
  pub insert : String → String → ℕ → World → Result (Unit {0}) × World
  pub close : World → Result (Unit {0}) × World

-- One statement after another, up to the first that throws.
pub and_next :
    {World A B : Type 0} → Result A × World → (A → World → Result B × World) → Result B × World
and_next (err e, w) f = (err e, w)
and_next (ok a, w) f = f a w

-- A lookup in the map of the rows, in which a later row replaces an earlier one.
pub recorded : List (String × String) → String → Option String
recorded [] name = none
recorded ((n, c) ∷ rows) name = elim (recorded rows name) [
  | some later ↦ some later
  | none ↦ if n == name then some c else none
]

pub data Fate : Type 0 where
  skip : Fate
  apply_it : Fate
  mismatch : Fate

-- An empty checksum counts as none.
fate_by : Option String → String → Fate
fate_by none checksum = apply_it
fate_by (some c) checksum = if c == "" then apply_it else if c == checksum then skip else mismatch

module _ {World : Type 0} (db : MigrationEnv World) where
  list_from : Option (List String) → Result (List String)
  list_from none = err (str_append "Migrations directory does not exist: " db.migrations_dir)
  list_from (some names) = ok (db.sort_names (keep_if db.is_sql names))

  pub list_migration_files : Result (List String)
  unfolding list_from
  list_migration_files = list_from db.directory

  pub fate_of : List (String × String) → String → String → Fate
  unfolding fate_by recorded
  fate_of rows file text =
      if text == "" then skip else fate_by (recorded rows file) (db.sha256 text)

  -- The body of the inner `try`.
  pub transaction : String → String → World → Result (Unit {0}) × World
  unfolding and_next
  transaction file text w = and_next (db.exec "BEGIN" w) (λ _ w1.
      and_next (db.exec text w1) (λ _ w2.
        let (time, w3) = db.now w2 in
        and_next (db.insert file (db.sha256 text) time w3) (λ _ w4. db.exec "COMMIT" w4)))

  rolled_back : String → String → Result (Unit {0}) × World → Result (Unit {0}) × World
  rolled_back file e (err e2, w) = (err e2, w)
  rolled_back file e (ok _, w) =
      (err (str_append (str_append "Failed to apply migration " file) (str_append ": " e)), w)

  or_rollback : String → Result (Unit {0}) × World → Result (Unit {0}) × World
  unfolding rolled_back
  or_rollback file (ok _, w) = (ok tt, w)
  or_rollback file (err e, w) = rolled_back file e (db.exec "ROLLBACK" w)

  with_skipped : String → Result MigrationResult × World → Result MigrationResult × World
  with_skipped file (ok r, w) = (ok (record r { skipped = file ∷ r.skipped }), w)
  with_skipped file (err e, w) = (err e, w)

  with_applied : String → Result MigrationResult × World → Result MigrationResult × World
  with_applied file (ok r, w) = (ok (record r { applied = file ∷ r.applied }), w)
  with_applied file (err e, w) = (err e, w)

  after_fate :
      Fate
      → String
      → String
      → World
      → (World → Result MigrationResult × World)
      → Result MigrationResult × World
  unfolding with_skipped with_applied and_next or_rollback transaction
  after_fate skip file text w rest = with_skipped file (rest w)
  after_fate mismatch file text w rest = (
    err (
        str_append (str_append "Migration checksum mismatch for " file)
          ". Create a new migration instead of editing applied files."),
    w,
  )
  after_fate apply_it file text w rest =
      and_next (or_rollback file (transaction file text w)) (λ _ w1. with_applied file (rest w1))

  migrate_one :
      List (String × String)
      → String
      → Result String
      → World
      → (World → Result MigrationResult × World)
      → Result MigrationResult × World
  unfolding after_fate fate_of
  migrate_one rows file (err e) w rest = (err e, w)
  migrate_one rows file (ok text) w rest = after_fate (fate_of rows file text) file text w rest

  -- The loop over the files.
  migrate_all : List (String × String) → List String → World → Result MigrationResult × World
  unfolding migrate_one
  migrate_all rows [] w = (ok (record { applied = []; skipped = [] }), w)
  migrate_all rows (file ∷ files) w =
      migrate_one rows file (db.read_text file) w (λ w1. migrate_all rows files w1)

  -- What comes before the loop.
  pub open_rows : World → Result (List (String × String)) × World
  unfolding and_next
  open_rows w =
      and_next (db.initialize w) (λ _ w1. and_next (db.ensure_table w1) (λ _ w2. db.rows w2))

  -- The `finally`: what closing throws replaces the answer.
  after_close : Result MigrationResult → Result (Unit {0}) × World → Result MigrationResult × World
  after_close r (ok _, w) = (r, w)
  after_close r (err e, w) = (err e, w)

  then_closed : Result MigrationResult × World → Result MigrationResult × World
  unfolding after_close
  then_closed (r, w) = after_close r (db.close w)

  run_files : Result (List String) → World → Result MigrationResult × World
  unfolding then_closed and_next open_rows migrate_all
  run_files (err e) w = (err e, w)
  run_files (ok files) w =
      then_closed (and_next (open_rows w) (λ rows w1. migrate_all rows files w1))

  unfoldable pub run_migrations : World → Result MigrationResult × World
  unfolding run_files list_migration_files
  run_migrations w = run_files list_migration_files w
