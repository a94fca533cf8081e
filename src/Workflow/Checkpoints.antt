-- ===== src/Workflow/Checkpoints.antt =====
-- `FileD3WorkflowCheckpointStore` (src/workflow/checkpoint-store.ts): checkpoints in files, with an
-- index of planning artifacts. The file system, the JSON texts and the schema check are parameters.
pub mod Names
pub mod Index
pub mod Schema
pub mod RoundTrip
pub mod Reuse
pub mod Runs
use agent_p.Common.{
  ℕ, String, Option, none, some, Bool, true, false, not, ◌&&◌, ◌||◌, List, [], ◌∷◌, keep_if,
  includes, length, Result, ok, err, ◌==◌, string_eq, if◌then◌else◌,
}
use agent_p.Workflow.Types.{Plan, Checkpoint}
use agent_p.Workflow.Executor.Env.{Store}
use agent_p.Workflow.Checkpoints.Names.{to_checkpoint_file_name, CacheKeyParts, cache_key_parts}
use agent_p.Workflow.Checkpoints.Schema.{trim_checkpoint}
use agent_p.Workflow.Checkpoints.Index.{IndexEntry, sort_newest, normalize_entries, retention_limit}

-- The two kinds of files below the workflow root.
pub data FilePath : Type 0 where
  checkpoint_file : String → FilePath
  planning_index : FilePath

-- What the store has from outside, for the type `Text` of the contents of files. `read` gives nothing
-- where there is no file or reading throws; `write` also makes the directories. `parse_checkpoint` is
-- `JSON.parse`, none where it throws or the value has not the shape of a checkpoint; `schema_check`
-- makes the other checks of the checkpoint schema, on lengths, ranges and the kinds of artifacts.
-- `parse_index` gives the entries that pass the checks of `readPlanningArtifactIndex`, none if the
-- text is no such index.
pub record Disk (World Text : Type 0) : Type 0 where
  pub read : FilePath → World → Option Text
  pub write : FilePath → Text → World → Result (Unit {0}) × World
  pub trim : String → String
  pub schema_check : Checkpoint → Result (Unit {0})
  pub print_checkpoint : Checkpoint → Text
  pub parse_checkpoint : Text → Option Checkpoint
  pub print_index : List IndexEntry → Text
  pub parse_index : Text → List IndexEntry
  pub stringify_key : CacheKeyParts → String

-- `limit` is `planningArtifactRetentionLimit`.
module _ {World Text : Type 0} (disk : Disk World Text) (limit : ℕ) where
  unfoldable pub cache_key : Plan → String
  unfolding cache_key_parts
  cache_key plan = disk.stringify_key (cache_key_parts plan)

  unfoldable pub file_path : String → FilePath
  file_path session = checkpoint_file (to_checkpoint_file_name session)

  accepted : Checkpoint → Result (Unit {0}) → Option Checkpoint
  unfolding trim_checkpoint
  accepted c (ok _) = some (trim_checkpoint disk.trim c)
  accepted c (err m) = none

  -- `safeParse` on what was parsed.
  validated : Option Checkpoint → Option Checkpoint
  unfolding accepted
  validated none = none
  validated (some c) = accepted c (disk.schema_check c)

  parsed : Option Text → Option Checkpoint
  unfolding validated
  parsed none = none
  parsed (some text) = validated (disk.parse_checkpoint text)

  unfoldable pub load : String → World → Option Checkpoint
  unfolding parsed file_path
  load session w = parsed (disk.read (file_path session) w)

  parsed_index : Option Text → List IndexEntry
  unfolding normalize_entries
  parsed_index none = []
  parsed_index (some text) = normalize_entries limit (disk.parse_index text)

  unfoldable pub read_index : World → List IndexEntry
  unfolding parsed_index
  read_index w = parsed_index (disk.read planning_index w)

  unfoldable pub write_index : List IndexEntry → World → Result (Unit {0}) × World
  unfolding normalize_entries
  write_index entries w =
      disk.write planning_index (disk.print_index (normalize_entries limit entries)) w

  -- The index without the entries of the key whose sessions are stale.
  without_stale : String → List String → List IndexEntry → List IndexEntry
  without_stale key stale =
      keep_if (λ (e : IndexEntry). not (e.cache_key == key) || not (includes stale e.session_id))

  -- What a found checkpoint is worth for the key: it is loaded and has the same key itself.
  fitting : String → Option Checkpoint → Option Checkpoint
  unfolding cache_key
  fitting key none = none
  fitting key (some c) = if cache_key c.plan == key then some c else none

  after_cleanup : Option Checkpoint → Result (Unit {0}) × World → Result (Option Checkpoint) × World
  after_cleanup found (ok _, w) = (ok found, w)
  after_cleanup found (err m, w) = (err m, w)

  clean_up :
      String
      → List String
      → List IndexEntry
      → Option Checkpoint
      → World
      → Result (Option Checkpoint) × World
  unfolding after_cleanup write_index without_stale
  clean_up key stale entries found w =
      after_cleanup found (write_index (without_stale key stale entries) w)

  -- The end of a search that found `c`: the index is written if stale sessions were met.
  found_reusable :
      String
      → List String
      → List IndexEntry
      → Checkpoint
      → World
      → Result (Option Checkpoint) × World
  unfolding clean_up
  found_reusable key [] entries c w = (ok (some c), w)
  found_reusable key (s ∷ stale) entries c w = clean_up key (s ∷ stale) entries (some c) w

  -- The loop over the matches, with the sessions that are stale so far.
  pub search_matches :
      String
      → List IndexEntry
      → List IndexEntry
      → List String
      → World
      → Result (Option Checkpoint) × World
  unfolding found_reusable clean_up fitting load
  search_matches key entries [] stale w = clean_up key stale entries none w
  search_matches key entries (m ∷ ms) stale w = elim (fitting key (load m.session_id w)) [
    | some c ↦ found_reusable key stale entries c w
    | none ↦ search_matches key entries ms (m.session_id ∷ stale) w
  ]

  pub search_from :
      String → List IndexEntry → List IndexEntry → World → Result (Option Checkpoint) × World
  unfolding search_matches
  search_from key entries [] w = (ok none, w)
  search_from key entries (m ∷ ms) w = search_matches key entries (m ∷ ms) [] w

  pub with_key : String → List IndexEntry → List IndexEntry
  with_key key = keep_if (λ (e : IndexEntry). e.cache_key == key)

  unfoldable pub load_reusable : Plan → World → Result (Option Checkpoint) × World
  unfolding search_from cache_key read_index with_key
  load_reusable plan w =
      let key = cache_key plan in
      let entries = read_index w in search_from key entries (sort_newest (with_key key entries)) w

  pub entry_of : Checkpoint → IndexEntry
  unfolding cache_key
  entry_of c = record {
    cache_key = cache_key c.plan;
    session_id = c.session_id;
    updated_at = c.updated_at;
  }

  -- The index with the checkpoint's entry in front, and no other one of its key.
  pub next_entries : Checkpoint → List IndexEntry → List IndexEntry
  unfolding entry_of
  next_entries c entries =
      entry_of c ∷ keep_if (λ (e : IndexEntry). not (e.cache_key == (entry_of c).cache_key)) entries

  after_write : Checkpoint → Result (Unit {0}) × World → Result (Unit {0}) × World
  unfolding write_index next_entries read_index
  after_write c (err m, w) = (err m, w)
  after_write c (ok _, w) = write_index (next_entries c (read_index w)) w

  after_check : Checkpoint → World → Result (Unit {0}) → Result (Unit {0}) × World
  unfolding after_write file_path
  after_check c w (err m) = (err m, w)
  after_check c w (ok _) =
      after_write c (disk.write (file_path c.session_id) (disk.print_checkpoint c) w)

  unfoldable pub save : Checkpoint → World → Result (Unit {0}) × World
  unfolding after_check
  save c w = after_check c w (disk.schema_check c)

  -- The store as the executor takes it.
  unfoldable pub file_store : Store World
  unfolding load load_reusable save
  file_store = record {
    load = λ session w. (ok (load session w), w);
    load_reusable = some load_reusable;
    save = save;
  }

-- A store made with the option `planningArtifactRetentionLimit`, if it is given.
unfoldable pub new_file_store : {World Text : Type 0} → Disk World Text → Option ℕ → Store World
unfolding file_store retention_limit
new_file_store disk given = file_store disk (retention_limit given)
