-- ===== src/Examples/Database.antt =====
-- The theorems on the database layer (src/db) at concrete inputs; statements are UTF-16 code units.
use agent_p.Common.{
  ℕ, ◌||◌, String, ◌==◌, string_eq, if◌then◌else◌, ◌+◌, ◌≡◌, refl, ◌↔◌, inl, inr, arith, some,
  false, List, [], ◌∷◌, ◌++◌, length, ok, All,
}
use agent_p.Database.SqlSafety.{
  Text, starts_with_unit, is_space, trim, strip_quoted_content, count_placeholders, has_comment,
  has_second_statement, assert_safe_single_statement, ParameterizedQuery, join_template, sql_query,
}
use agent_p.Database.SqlSafety.Quotes.{IsQuote, literal, blanks, strip_quoted_content-literal}
use agent_p.Database.SqlSafety.Statements.{
  IsAccepted, assert_safe_single_statement_iff, sql_query_ok,
}
use agent_p.Database.Manager.{
  Adapter, Sqlite, Manager, Statement, of_query, better_sqlite3, run, get_row, all_rows,
}
use agent_p.Database.Migrations.{MigrationEnv, run_migrations}
use agent_p.Database.Migrations.Runs.{IsRun, run_migrations_iff}
use agent_p.Database.Manager.Guarded.{Guarded, run-Guarded}

-- `;-- '`
abbrev hostile : Text
hostile = b';' ∷ b'-' ∷ b'-' ∷ b' ' ∷ b'\'' ∷ []

-- `a = ?`
abbrev test_of_a : Text
test_of_a = b'a' ∷ b' ' ∷ b'=' ∷ b' ' ∷ b'?' ∷ []

assert_safe_single_statement_iff_example :
    (assert_safe_single_statement test_of_a (some 1) ≡ ok tt) ↔ IsAccepted test_of_a 1
assert_safe_single_statement_iff_example = assert_safe_single_statement_iff test_of_a (some 1)

no-IsQuote : All (λ (c : ℕ). ¬ (IsQuote c)) (b'a' ∷ [])
no-IsQuote = ((λ q. elim q [ inl e ↦ omega arith | inr e ↦ omega arith ]), tt)

strip_quoted_content-literal_example :
    strip_quoted_content ((b'a' ∷ []) ++ (literal hostile ++ (b' ' ∷ [])))
    ≡ (b'a' ∷ []) ++ (32 ∷ (blanks hostile ++ 32 ∷ strip_quoted_content (b' ' ∷ [])))
unfolding starts_with_unit
strip_quoted_content-literal_example =
    strip_quoted_content-literal (b'a' ∷ []) hostile (b' ' ∷ []) no-IsQuote refl

-- The strings of the template around one value.
abbrev around : List Text
around = (b'a' ∷ b' ' ∷ b'=' ∷ b' ' ∷ []) ∷ [] ∷ []

abbrev query_of_a : ParameterizedQuery ℕ
query_of_a = record { text = test_of_a; params = 7 ∷ [] }

sql_query_ok_example :
    (length around ≡ length query_of_a.params + 1)
    × (query_of_a ≡ record { text = join_template {V = ℕ} around (7 ∷ []); params = 7 ∷ [] })
    × IsAccepted query_of_a.text 1
unfolding sql_query assert_safe_single_statement join_template trim strip_quoted_content
    count_placeholders has_comment has_second_statement is_space
sql_query_ok_example = sql_query_ok around (7 ∷ []) {q = query_of_a} refl

-- A driver whose world is the list of the statements that reached it.
abbrev recording : Adapter (List Text) ℕ Text
recording = record {
  run = λ sql params w. (ok tt, sql ∷ w);
  get = λ sql params w. (ok (some sql), sql ∷ w);
  all_rows = λ sql params w. (ok (sql ∷ []), sql ∷ w);
  exec = λ sql w. (ok tt, sql ∷ w);
  close = λ w. (ok tt, w);
}

abbrev recording_sqlite : Sqlite (List Text) ℕ Text
recording_sqlite = record {
  ensure_parent = λ w. (ok tt, w);
  open_db = λ d w. (ok tt, w);
  adapter = λ d. recording;
}

abbrev opened_manager : Manager (List Text)
opened_manager = record {
  info = some (record { driver = better_sqlite3; is_fallback = false });
  world = [];
}

abbrev seven : Statement ℕ
seven = of_query query_of_a

run-Guarded_example :
    Guarded recording_sqlite
      (λ (a : Adapter (List Text) ℕ Text). a.run)
      seven
      opened_manager
      (run recording_sqlite seven opened_manager)
    × Guarded recording_sqlite
        (λ (a : Adapter (List Text) ℕ Text). a.get)
        seven
        opened_manager
        (get_row recording_sqlite seven opened_manager)
    × Guarded recording_sqlite
        (λ (a : Adapter (List Text) ℕ Text). a.all_rows)
        seven
        opened_manager
        (all_rows recording_sqlite seven opened_manager)
run-Guarded_example = run-Guarded recording_sqlite seven opened_manager

-- A table in which `a.sql` is recorded, and a world that is the statements so far.
abbrev two_files : MigrationEnv (List String)
two_files = record {
  migrations_dir = "migrations";
  directory = some ("a.sql" ∷ "notes" ∷ "b.sql" ∷ []);
  is_sql = λ name. name == "a.sql" || name == "b.sql";
  sort_names = λ names. names;
  read_text = λ name. ok (if name == "a.sql" then "CREATE a" else "CREATE b");
  sha256 = λ text. if text == "CREATE a" then "sum of a" else "sum of b";
  now = λ w. (5, w);
  initialize = λ w. (ok tt, w);
  ensure_table = λ w. (ok tt, w);
  rows = λ w. (ok (("a.sql", "sum of a") ∷ []), w);
  exec = λ sql w. (ok tt, sql ∷ w);
  insert = λ name checksum time w. (ok tt, name ∷ w);
  close = λ w. (ok tt, w);
}

run_migrations_iff_example :
    (run_migrations two_files [] ≡ (
      ok (record { applied = "b.sql" ∷ []; skipped = "a.sql" ∷ [] }),
      "COMMIT" ∷ "b.sql" ∷ "CREATE b" ∷ "BEGIN" ∷ [],
    ))
    ↔ IsRun two_files []
        (record { applied = "b.sql" ∷ []; skipped = "a.sql" ∷ [] })
        ("COMMIT" ∷ "b.sql" ∷ "CREATE b" ∷ "BEGIN" ∷ [])
run_migrations_iff_example =
    run_migrations_iff two_files [] (record { applied = "b.sql" ∷ []; skipped = "a.sql" ∷ [] })
      ("COMMIT" ∷ "b.sql" ∷ "CREATE b" ∷ "BEGIN" ∷ [])
