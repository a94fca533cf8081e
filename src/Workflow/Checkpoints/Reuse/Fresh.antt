-- ===== src/Workflow/Checkpoints/Reuse/Fresh.antt =====
-- The index after a save, and that the checkpoint just saved is the one that is reused.
use agent_p.Common.{
  ℕ, suc, ◌≡◌, refl, String, Option, some, not, List, ◌∷◌, keep_if, ok, ◌==◌, ==_iff, string_eq,
}
use agent_p.Workflow.Types.{Checkpoint}
use agent_p.Workflow.Checkpoints.{
  Disk, cache_key, load, read_index, entry_of, search_matches, search_from, found_reusable, fitting,
}
use agent_p.Workflow.Checkpoints.Index.{IndexEntry}
use agent_p.Workflow.Checkpoints.Index.Bounds.{rest_of}
use agent_p.Workflow.Checkpoints.RoundTrip.{IsLawful}

module _ {World Text : Type 0} (disk : Disk World Text) (limit : ℕ) (lawful : IsLawful disk) where
  fitting_fits :
      (key : String) (c : Checkpoint) (o : Option Checkpoint)
      → o ≡ some c
      → cache_key disk limit c.plan ≡ key
      → fitting disk limit key o ≡ some c
  unfolding fitting
  fitting_fits key c o loads same =
      rw (loads, (==_iff (cache_key disk limit c.plan) key).1 same) refl

  pub search_from_fits :
      (key : String) (c : Checkpoint) (e : IndexEntry) (entries es : List IndexEntry) (w : World)
      → load disk limit e.session_id w ≡ some c
      → cache_key disk limit c.plan ≡ key
      → search_from disk limit key entries (e ∷ es) w ≡ (ok (some c), w)
  unfolding search_from search_matches found_reusable
  search_from_fits key c e entries es w loads same =
      rw (fitting_fits key c (load disk limit e.session_id w) loads same, search_matches) refl

module _ {World Text : Type 0} (disk : Disk World Text) (n : ℕ) (lawful : IsLawful disk) where
  -- The entries behind the saved one belong to other keys.
  index_behind : Checkpoint → World → List IndexEntry
  index_behind c w = rest_of n (entry_of disk (suc n) c) (
      rest_of n (entry_of disk (suc n) c) (
        keep_if (λ (e : IndexEntry). not (e.cache_key == cache_key disk (suc n) c.plan))
          (read_index disk (suc n) w)))
