-- ===== src/Workflow/Checkpoints/RoundTrip.antt =====
-- What a saved checkpoint reads back as, on a file system where a file that was written has its text
-- and the others keep theirs.
use agent_p.Common.{
  ℕ, ◌≡◌, refl, some, Bool, true, false, List, Result, ok, err, ◌==◌, string_eq, if◌then◌else◌,
}
use agent_p.Workflow.Types.{Checkpoint}
use agent_p.Workflow.Checkpoints.{
  FilePath, checkpoint_file, planning_index, Disk, file_path, read_index, write_index, next_entries,
  after_write, after_check, save,
}
use agent_p.Workflow.Checkpoints.Index.{IndexEntry}

unfoldable pub same_path : FilePath → FilePath → Bool
same_path (checkpoint_file a) (checkpoint_file b) = a == b
same_path planning_index planning_index = true
same_path (checkpoint_file a) planning_index = false
same_path planning_index (checkpoint_file b) = false

-- What is relied on of the file system: a successful write leaves the text in its file and the other
-- files alone.
abbrev pub WritesFiles : {World Text : Type 0} → Disk World Text → Type 0
WritesFiles {World} {Text} disk =
    (p q : FilePath) (text : Text) (w w2 : World)
    → disk.write p text w ≡ (ok tt, w2)
    → disk.read q w2 ≡ (if same_path p q then some text else disk.read q w)

-- What is relied on: a successful write leaves the text in its file and the other files alone, and
-- `JSON.parse` gives back what was printed.
pub record IsLawful {World Text : Type 0} (disk : Disk World Text) : Type 0 where
  pub read-write : WritesFiles disk
  pub parse-print : (c : Checkpoint) → disk.parse_checkpoint (disk.print_checkpoint c) ≡ some c
  pub parse-print_index : (es : List IndexEntry) → disk.parse_index (disk.print_index es) ≡ es

module _ {World Text : Type 0} (disk : Disk World Text) (limit : ℕ) where
  -- A save that succeeds is a check, a write of the checkpoint and a write of the index.
  pub record Saved (c : Checkpoint) (w w2 : World) : Type 0 where
    pub between : World
    pub checked : disk.schema_check c ≡ ok tt
    pub wrote :
        disk.write (file_path disk limit c.session_id) (disk.print_checkpoint c) w
        ≡ (ok tt, between)
    pub indexed :
        write_index disk limit (next_entries disk limit c (read_index disk limit between)) between
        ≡ (ok tt, w2)

  after_write-Saved :
      (c : Checkpoint) (w w2 : World) (r : Result (Unit {0}) × World)
      → disk.schema_check c ≡ ok tt
      → disk.write (file_path disk limit c.session_id) (disk.print_checkpoint c) w ≡ r
      → after_write disk limit c r ≡ (ok tt, w2)
      → Saved c w w2
  unfolding after_write
  after_write-Saved c w w2 (ok tt, between) checked wrote h = record {
    between = between;
    checked = checked;
    wrote = wrote;
    indexed = h;
  }
  after_write-Saved c w w2 (err m, between) checked wrote h = cc

  after_check-Saved :
      (c : Checkpoint) (w w2 : World) (r : Result (Unit {0}))
      → disk.schema_check c ≡ r
      → after_check disk limit c w r ≡ (ok tt, w2)
      → Saved c w w2
  unfolding after_check
  after_check-Saved c w w2 (ok tt) checked h =
      after_write-Saved c w w2
        (disk.write (file_path disk limit c.session_id) (disk.print_checkpoint c) w) checked refl h
  after_check-Saved c w w2 (err m) checked h = cc

  pub save-Saved :
      (c : Checkpoint) (w w2 : World) → save disk limit c w ≡ (ok tt, w2) → Saved c w w2
  unfolding save
  save-Saved c w w2 h = after_check-Saved c w w2 (disk.schema_check c) refl h
