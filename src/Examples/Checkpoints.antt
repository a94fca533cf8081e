-- ===== src/Examples/Checkpoints.antt =====
-- The theorems on checkpoint files at concrete inputs (src/workflow/checkpoint-store.ts): a file
-- system that is a list of the files written, with the latest ones in front.
use agent_p.Common.{
  ◌≡◌, refl, String, Option, none, some, List, [], ◌∷◌, ok, err, if◌then◌else◌, string_eq, keep_if,
  includes,
}
use agent_p.Workflow.Types.{Checkpoint, ExecutionRequest}
use agent_p.Workflow.Engine.{make_plan}
use agent_p.Workflow.Executor.Env.{Env}
use agent_p.Workflow.Checkpoints.{
  FilePath, planning_index, Disk, cache_key, load, read_index, load_reusable, save, file_store,
}
use agent_p.Workflow.Checkpoints.Schema.{trim_plan}
use agent_p.Workflow.Checkpoints.Names.{CacheKeyParts}
use agent_p.Workflow.Checkpoints.Index.{IndexEntry, normalize_entries}
use agent_p.Workflow.Checkpoints.Index.Bounds.{IsTidy, normalize_entries-IsTidy}
use agent_p.Workflow.Checkpoints.RoundTrip.{same_path, IsLawful}
use agent_p.Workflow.Checkpoints.Reuse.Found.{Answers, load_reusable_lem}
use agent_p.Examples.{two_phases, checkpoint, request, found, tests, review, verdict}

data FileText : Type 0 where
  of_checkpoint : Checkpoint → FileText
  of_index : List IndexEntry → FileText

abbrev Files : Type 0
Files = List (FilePath × FileText)

read_file : FilePath → Files → Option FileText
unfolding same_path
read_file q [] = none
read_file q ((p, t) ∷ w) = let rest = read_file q w in if same_path p q then some t else rest

abbrev checkpoint_in : FileText → Option Checkpoint
checkpoint_in (of_checkpoint c) = some c
checkpoint_in (of_index es) = none

abbrev entries_in : FileText → List IndexEntry
entries_in (of_checkpoint c) = []
entries_in (of_index es) = es

disk : Disk Files FileText
unfolding read_file
disk = record {
  read = read_file;
  write = λ p t w. (ok tt, (p, t) ∷ w);
  trim = λ s. s;
  schema_check = λ c. ok tt;
  print_checkpoint = of_checkpoint;
  parse_checkpoint = checkpoint_in;
  print_index = of_index;
  parse_index = entries_in;
  stringify_key = λ (k : CacheKeyParts). k.query;
}

disk-IsLawful : IsLawful disk
unfolding disk read_file
disk-IsLawful = record {
  read-write = λ p q t w w2 e. let same : w2 ≡ (p, t) ∷ w = cc in rw same refl;
  parse-print = λ c. refl;
  parse-print_index = λ es. refl;
}

-- The files after the sample checkpoint was saved.
saved : Files
unfolding save disk
saved = (save disk 3 checkpoint []).1

normalize_entries-IsTidy_example : IsTidy 1 (
    normalize_entries 1 (
      record { cache_key = "a"; session_id = "s"; updated_at = 1 }
      ∷ record { cache_key = "a"; session_id = "s"; updated_at = 2 }
      ∷ []))
normalize_entries-IsTidy_example = normalize_entries-IsTidy 1 _

-- The texts of the sample plan are trimmed already.
same_key : cache_key disk 3 (trim_plan disk.trim checkpoint.plan) ≡ cache_key disk 3 checkpoint.plan
unfolding cache_key disk trim_plan make_plan
same_key = refl

-- An index that lists a session whose checkpoint is gone.
stale : Files
stale =
    (
      planning_index,
      of_index (record { cache_key = request.query; session_id = "gone"; updated_at = 4 } ∷ []),
    )
    ∷ []

cleaned : Files
unfolding load_reusable stale disk
cleaned = (load_reusable disk 3 two_phases stale).1

finds_none : load_reusable disk 3 two_phases stale ≡ (ok none, cleaned)
unfolding cleaned load_reusable stale disk read_file read_index cache_key load normalize_entries
    keep_if includes make_plan
finds_none = refl

load_reusable_lem_example :
    Answers disk 3 (cache_key disk 3 two_phases) stale none
    × ((session : String) → load disk 3 session cleaned ≡ load disk 3 session stale)
load_reusable_lem_example =
    load_reusable_lem disk 3 disk-IsLawful.read-write two_phases none stale cleaned finds_none

-- The sample agents with the store on files.
filed_env : Env Files
unfolding disk
filed_env = record {
  clock = λ w. (7, w);
  office = record {
    now = λ w. (7, w);
    handoff_id_of = λ to session query time attempt. "h-sample-1";
  };
  validate = λ h. ok h;
  scout_analyze = λ h w. (ok found, w);
  builder_plan = λ h w. (err "no builder", w);
  tester_plan = λ h w. (ok tests, w);
  reviewer_assess = λ h w. (ok review, w);
  verifier_assess = λ h trust w. (ok verdict, w);
  store = some (file_store disk 3);
}

-- A request to resume.
abbrev to_resume : ExecutionRequest
to_resume = record {
  plan = none;
  resume_session_id = some "session-1";
  continue_on_failure = none;
  use_cache = none;
  reindex = none;
  file_paths = none;
  domains = none;
  verifier_trust_input = none;
}
