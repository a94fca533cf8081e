-- ===== src/Database/Migrations/Runs.antt =====
-- What a run of the migrations does when it returns (src/db/migration-runner.ts).
use agent_p.Common.{◌≡◌, refl, ap, ◌↔◌, String, List, [], ◌∷◌, Result, ok, err, string_eq}
use agent_p.Database.Migrations.{
  MigrationResult, MigrationEnv, and_next, Fate, skip, apply_it, mismatch, list_migration_files,
  fate_of, transaction, rolled_back, or_rollback, with_skipped, with_applied, after_fate,
  migrate_one, migrate_all, open_rows, after_close, then_closed, run_files, run_migrations,
}
use agent_p.Database.Migrations.Fates.{
  IsSettled, IsNew, fate_of-IsFate, IsSettled-skip, IsNew-apply_it,
}

module _ {World : Type 0} (db : MigrationEnv World) where
  -- The files taken in order from a world to another: the settled ones are skipped, and each new one
  -- is a transaction that succeeds.
  pub data Ran (rows : List (String × String))
      : List String → List String → List String → World → World → Type 0 where
    ran_all : {w : World} → Ran rows [] [] [] w w
    ran_skipped :
        {file text : String} {files applied skipped : List String} {w w2 : World}
        → db.read_text file ≡ ok text
        → IsSettled db rows file text
        → Ran rows files applied skipped w w2
        → Ran rows (file ∷ files) applied (file ∷ skipped) w w2
    ran_applied :
        {file text : String} {files applied skipped : List String} {w w1 w2 : World}
        → db.read_text file ≡ ok text
        → IsNew db rows file text
        → transaction db file text w ≡ (ok tt, w1)
        → Ran rows files applied skipped w1 w2
        → Ran rows (file ∷ files) (file ∷ applied) skipped w w2

  rolled_back-never :
      (file e : String) (p : Result (Unit {0}) × World) (w : World)
      → ¬ (rolled_back db file e p ≡ (ok tt, w))
  unfolding rolled_back
  rolled_back-never file e (ok u, w1) w h = cc
  rolled_back-never file e (err e2, w1) w h = cc

  or_rollback_iff :
      (file : String) (p : Result (Unit {0}) × World) (w : World)
      → (or_rollback db file p ≡ (ok tt, w)) ↔ (p ≡ (ok tt, w))
  unfolding or_rollback
  or_rollback_iff file (ok u, w1) w = ((λ h. h), λ h. h)
  or_rollback_iff file (err e, w1) w =
      ((λ h. elim (rolled_back-never file e (db.exec "ROLLBACK" w1) w h) [ ]), λ h. cc)

  -- What an answer of the loop says of the files.
  abbrev RanTo :
      List (String × String) → List String → World → Result MigrationResult × World → Type 0
  RanTo rows files w (ok r, w2) = Ran rows files r.applied r.skipped w w2
  RanTo rows files w (err e, w2) = Unit

  with_skipped-RanTo :
      (rows : List (String × String)) {file text : String} (files : List String) (w : World)
      (p : Result MigrationResult × World)
      → db.read_text file ≡ ok text
      → IsSettled db rows file text
      → RanTo rows files w p
      → RanTo rows (file ∷ files) w (with_skipped db file p)
  unfolding with_skipped
  with_skipped-RanTo rows files w (ok r, w2) read settled h = ran_skipped read settled h
  with_skipped-RanTo rows files w (err e, w2) read settled h = tt

  with_applied-RanTo :
      (rows : List (String × String)) {file text : String} (files : List String) (w : World)
      {w1 : World} (p : Result MigrationResult × World)
      → db.read_text file ≡ ok text
      → IsNew db rows file text
      → transaction db file text w ≡ (ok tt, w1)
      → RanTo rows files w1 p
      → RanTo rows (file ∷ files) w (with_applied db file p)
  unfolding with_applied
  with_applied-RanTo rows files w (ok r, w2) read new done h = ran_applied read new done h
  with_applied-RanTo rows files w (err e, w2) read new done h = tt

  and_next-RanTo :
      (rows : List (String × String)) {file text : String} (files : List String) (w : World)
      (p : Result (Unit {0}) × World)
      → or_rollback db file (transaction db file text w) ≡ p
      → db.read_text file ≡ ok text
      → IsNew db rows file text
      → ((w1 : World) → RanTo rows files w1 (migrate_all db rows files w1))
      → RanTo rows
          (file ∷ files)
          w
          (and_next p (λ _ w1. with_applied db file (migrate_all db rows files w1)))
  unfolding and_next
  and_next-RanTo rows files w (err e, w1) done read new rest = tt
  and_next-RanTo rows {file} {text} files w (ok u, w1) done read new rest =
      with_applied-RanTo rows files w (migrate_all db rows files w1) read new
        ((or_rollback_iff file (transaction db file text w) w1).0 done) (rest w1)

  after_fate-RanTo :
      (rows : List (String × String)) {file text : String} (files : List String) (w : World)
      (f : Fate)
      → fate_of db rows file text ≡ f
      → db.read_text file ≡ ok text
      → ((w1 : World) → RanTo rows files w1 (migrate_all db rows files w1))
      → RanTo rows
          (file ∷ files)
          w
          (after_fate db f file text w (λ w1. migrate_all db rows files w1))
  unfolding after_fate
  after_fate-RanTo rows {file} {text} files w skip e read rest =
      with_skipped-RanTo rows files w (migrate_all db rows files w) read
        (fate_of-IsFate db rows file text skip e) (rest w)
  after_fate-RanTo rows files w mismatch e read rest = tt
  after_fate-RanTo rows {file} {text} files w apply_it e read rest =
      and_next-RanTo rows files w (or_rollback db file (transaction db file text w)) refl read
        (fate_of-IsFate db rows file text apply_it e) rest

  migrate_one-RanTo :
      (rows : List (String × String)) (file : String) (files : List String) (w : World)
      (r : Result String)
      → db.read_text file ≡ r
      → ((w1 : World) → RanTo rows files w1 (migrate_all db rows files w1))
      → RanTo rows
          (file ∷ files)
          w
          (migrate_one db rows file r w (λ w1. migrate_all db rows files w1))
  unfolding migrate_one
  migrate_one-RanTo rows file files w (err e) read rest = tt
  migrate_one-RanTo rows file files w (ok text) read rest =
      after_fate-RanTo rows files w (fate_of db rows file text) refl read rest

  migrate_all-RanTo :
      (rows : List (String × String)) (files : List String) (w : World)
      → RanTo rows files w (migrate_all db rows files w)
  unfolding migrate_all
  migrate_all-RanTo rows [] w = ran_all
  migrate_all-RanTo rows (file ∷ files) w =
      migrate_one-RanTo rows file files w (db.read_text file) refl
        (λ w1. migrate_all-RanTo rows files w1)

  Ran-migrate_all :
      {rows : List (String × String)} {files applied skipped : List String} {w w2 : World}
      → Ran rows files applied skipped w w2
      → migrate_all db rows files w ≡ (ok (record { applied = applied; skipped = skipped }), w2)
  unfolding migrate_all migrate_one after_fate with_skipped with_applied and_next or_rollback
  Ran-migrate_all ran_all = refl
  Ran-migrate_all {rows} (ran_skipped {file} {text} read settled ran) =
      rw (read, IsSettled-skip db rows file text settled, Ran-migrate_all ran)
  Ran-migrate_all {rows} (ran_applied {file} {text} read new done ran) =
      rw (read, IsNew-apply_it db rows file text new, done, Ran-migrate_all ran)

  migrate_all_iff :
      (rows : List (String × String)) (files : List String) (w : World) (r : MigrationResult)
      (w2 : World)
      → (migrate_all db rows files w ≡ (ok r, w2)) ↔ Ran rows files r.applied r.skipped w w2
  migrate_all_iff rows files w r w2 =
      ((λ h. rw h at (migrate_all-RanTo rows files w)), Ran-migrate_all)

  -- A run that goes through: the files are listed, the table is read, the files are taken in order,
  -- and the database is closed.
  pub record IsRun (w : World) (r : MigrationResult) (w2 : World) : Type 0 where
    pub files : List String
    pub rows : List (String × String)
    pub opened : World
    pub done : World
    pub lists : list_migration_files db ≡ ok files
    pub opens : open_rows db w ≡ (ok rows, opened)
    pub ran : Ran rows files r.applied r.skipped opened done
    pub closes : db.close done ≡ (ok tt, w2)

  after_close_ok :
      (a : Result MigrationResult) (p : Result (Unit {0}) × World) {r : MigrationResult}
      {w2 : World}
      → after_close db a p ≡ (ok r, w2)
      → (a ≡ ok r) × (p ≡ (ok tt, w2))
  unfolding after_close
  after_close_ok a (ok u, w) h = (cc, cc)
  after_close_ok a (err e, w) h = (cc, cc)

  opened-IsRun :
      (w : World) {r : MigrationResult} {w2 : World} (files : List String)
      (p : Result (List (String × String)) × World)
      → list_migration_files db ≡ ok files
      → open_rows db w ≡ p
      → then_closed db (and_next p (λ rows w1. migrate_all db rows files w1)) ≡ (ok r, w2)
      → IsRun w r w2
  unfolding and_next then_closed
  opened-IsRun w files (err e, w1) lists opens h =
      let failed = (after_close_ok (err e) (db.close w1) h).0 in cc
  opened-IsRun w {r} {w2} files (ok rows, w1) lists opens h =
      let loop = migrate_all db rows files w1 in
      let (returns, closes) = after_close_ok loop.0 (db.close loop.1) h in
      record {
        files = files;
        rows = rows;
        opened = w1;
        done = loop.1;
        lists = lists;
        opens = opens;
        ran = (migrate_all_iff rows files w1 r loop.1).0 (ap (λ a. (a, loop.1)) returns);
        closes = closes;
      }

  run_files-IsRun :
      (w : World) {r : MigrationResult} {w2 : World} (l : Result (List String))
      → list_migration_files db ≡ l
      → run_files db l w ≡ (ok r, w2)
      → IsRun w r w2
  unfolding run_files
  run_files-IsRun w (err e) lists h = cc
  run_files-IsRun w (ok files) lists h = opened-IsRun w files (open_rows db w) lists refl h

  -- A run of the migrations returns a result exactly if the directory could be listed, the database
  -- opened and closed, and the files taken in order: each without text, or with a recorded checksum
  -- that is its own, is skipped, each with text and no recorded checksum is applied by a transaction
  -- that succeeds, and there is no other.
  pub run_migrations_iff :
      (w : World) (r : MigrationResult) (w2 : World)
      → (run_migrations db w ≡ (ok r, w2)) ↔ IsRun w r w2
  unfolding run_migrations run_files then_closed and_next after_close
  run_migrations_iff w r w2 = (
    λ h. run_files-IsRun w (list_migration_files db) refl h,
    λ run. rw (
      run.lists,
      run.opens,
      (migrate_all_iff run.rows run.files run.opened r run.done).1 run.ran,
      run.closes,
    ),
  )
