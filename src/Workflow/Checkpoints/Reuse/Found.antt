-- ===== src/Workflow/Checkpoints/Reuse/Found.antt =====
-- What `loadReusable` answers, in terms of the whole index, and that it spoils no checkpoint.
use mathlib.Core.List.{Memᴰ}
use agent_p.Common.{
  ℕ, ◌≤◌, ◌≡◌, ap, String, Option, none, some, true, List, [], ◌∷◌, keep_if, keep_if_passes,
  keep_if-All, All-keep_if, All, All-map, All-both, All-self, ok, ◌==◌, ==_iff, string_eq, inl, inr,
}
use agent_p.Workflow.Types.{Plan, Checkpoint}
use agent_p.Workflow.Checkpoints.{
  planning_index, Disk, cache_key, file_path, load, parsed, read_index, write_index, search_from,
  with_key, load_reusable,
}
use agent_p.Workflow.Checkpoints.Index.{IndexEntry, sort_newest}
use agent_p.Workflow.Checkpoints.Index.Bounds.{
  NewestFirst, All-sort_newest, sort_newest-All, sort_newest-NewestFirst,
}
use agent_p.Workflow.Checkpoints.RoundTrip.{WritesFiles, same_path}
use agent_p.Workflow.Checkpoints.Reuse.{
  Fits, Newest, Kept, search_matches-Newest, search_matches-none, search_matches-Kept,
}

module _ {World Text : Type 0} (disk : Disk World Text) (limit : ℕ) where
  -- An entry of the index that has the key.
  abbrev pub Listed : String → World → IndexEntry → Type 0
  Listed key w e = Memᴰ e (read_index disk limit w) × (e.cache_key ≡ key)

  with_key-Listed :
      (key : String) (w : World)
      → All (Listed key w) (with_key disk limit key (read_index disk limit w))
  unfolding with_key
  with_key-Listed key w =
      let es = read_index disk limit w in
      let test = λ (e : IndexEntry). e.cache_key == key in
      All-map (keep_if test es) (λ e k. (k.0, (==_iff e.cache_key key).0 k.1))
        (All-both (λ e. Memᴰ e es) (λ e. test e ≡ true) (keep_if test es)
          (All-keep_if (λ e. Memᴰ e es) test es (All-self es)) (keep_if_passes test es))

  -- What holds of the sorted entries of the key holds of every entry of the index with the key.
  All-of_sorted :
      (P : IndexEntry → Type 0) (key : String) (es : List IndexEntry)
      → All P (sort_newest (with_key disk limit key es))
      → All (λ (e : IndexEntry). e.cache_key ≡ key → P e) es
  unfolding with_key
  All-of_sorted P key es h =
      let test = λ (e : IndexEntry). e.cache_key == key in
      All-map es (λ e k same. k ((==_iff e.cache_key key).1 same))
        (keep_if-All P test es (sort_newest-All P (keep_if test es) h))

  search_from-some :
      (P : IndexEntry → Type 0) (key : String) (entries ms : List IndexEntry) (c : Checkpoint)
      (w w2 : World)
      → All P ms
      → NewestFirst ms
      → search_from disk limit key entries ms w ≡ (ok (some c), w2)
      → Newest disk limit P key w ms c
  unfolding search_from
  search_from-some P key entries [] c w w2 h sorted e = cc
  search_from-some P key entries (m ∷ ms) c w w2 h sorted e =
      search_matches-Newest disk limit P key entries (m ∷ ms) [] c w w2 h sorted e

  search_from-none :
      (key : String) (entries ms : List IndexEntry) (w w2 : World)
      → search_from disk limit key entries ms w ≡ (ok none, w2)
      → All (λ (d : IndexEntry). ¬ (Fits disk limit key w d)) ms
  unfolding search_from
  search_from-none key entries [] w w2 e = tt
  search_from-none key entries (m ∷ ms) w w2 e =
      search_matches-none disk limit key entries (m ∷ ms) [] w w2 e

  search_from-Kept :
      (key : String) (entries ms : List IndexEntry) (x : Option Checkpoint) (w w2 : World)
      → search_from disk limit key entries ms w ≡ (ok x, w2)
      → Kept disk limit w w2
  unfolding search_from
  search_from-Kept key entries [] x w w2 e = inl cc
  search_from-Kept key entries (m ∷ ms) x w w2 e =
      search_matches-Kept disk limit key entries (m ∷ ms) [] x w w2 e

  -- The checkpoint `c` is what a session loads that the index lists under the key, its own plan has
  -- the key, and no other entry with the key that could be used is newer.
  pub record Reused (key : String) (w : World) (c : Checkpoint) : Type 0 where
    pub entry : IndexEntry
    pub listed : Memᴰ entry (read_index disk limit w)
    pub has_key : entry.cache_key ≡ key
    pub loads : load disk limit entry.session_id w ≡ some c
    pub same_key : cache_key disk limit c.plan ≡ key
    pub newest :
        All
          (λ (d : IndexEntry).
            d.cache_key ≡ key → Fits disk limit key w d → d.updated_at ≤ entry.updated_at)
          (read_index disk limit w)

  load_reusable-Reused :
      (plan : Plan) (c : Checkpoint) (w w2 : World)
      → load_reusable disk limit plan w ≡ (ok (some c), w2)
      → Reused (cache_key disk limit plan) w c
  unfolding load_reusable
  load_reusable-Reused plan c w w2 h =
      let key = cache_key disk limit plan in
      let es = read_index disk limit w in
      let found =
        search_from-some (Listed key w) key es (sort_newest (with_key disk limit key es)) c w w2
          (All-sort_newest (Listed key w) (with_key disk limit key es) (with_key-Listed key w))
          (sort_newest-NewestFirst (with_key disk limit key es)) h in
      record {
        entry = found.entry;
        listed = found.listed.0;
        has_key = found.listed.1;
        loads = found.loads;
        same_key = found.same_key;
        newest =
            All-of_sorted
              (λ (d : IndexEntry). Fits disk limit key w d → d.updated_at ≤ found.entry.updated_at)
              key es found.newest;
      }

  load_reusable-none :
      (plan : Plan) (w w2 : World)
      → load_reusable disk limit plan w ≡ (ok none, w2)
      → All
          (λ (d : IndexEntry).
            d.cache_key ≡ cache_key disk limit plan
            → ¬ (Fits disk limit (cache_key disk limit plan) w d))
          (read_index disk limit w)
  unfolding load_reusable
  load_reusable-none plan w w2 h =
      let key = cache_key disk limit plan in
      let es = read_index disk limit w in
      All-of_sorted (λ (d : IndexEntry). ¬ (Fits disk limit key w d)) key es
        (search_from-none key es (sort_newest (with_key disk limit key es)) w w2 h)

  -- The right answer for the key: none only if no entry of the index with the key can be used.
  abbrev pub Answers : String → World → Option Checkpoint → Type 0
  Answers key w (some c) = Reused key w c
  Answers key w none =
      All (λ (d : IndexEntry). d.cache_key ≡ key → ¬ (Fits disk limit key w d))
        (read_index disk limit w)

  load_reusable-Answers :
      (plan : Plan) (x : Option Checkpoint) (w w2 : World)
      → load_reusable disk limit plan w ≡ (ok x, w2)
      → Answers (cache_key disk limit plan) w x
  load_reusable-Answers plan (some c) w w2 h = load_reusable-Reused plan c w w2 h
  load_reusable-Answers plan none w w2 h = load_reusable-none plan w w2 h

module _ {World Text : Type 0} (disk : Disk World Text) (limit : ℕ)
    (writes : WritesFiles disk) where
  load-Kept :
      (session : String) (w w2 : World)
      → Kept disk limit w w2
      → load disk limit session w2 ≡ load disk limit session w
  unfolding load write_index file_path same_path
  load-Kept session w w2 (inl same) = ap (load disk limit session) same
  load-Kept session w w2 (inr (es, wrote)) =
      ap (parsed disk limit) (writes planning_index (file_path disk limit session) _ w w2 wrote)

  -- A search that comes to an end gives the right answer, and every session loads what it did
  -- before. A checkpoint is the answer if a session that the index lists under the plan's cache key
  -- loads it, its own plan has that key, and no entry of the key that loads such a checkpoint is
  -- newer. None is the answer if no entry of the key loads such a checkpoint.
  pub load_reusable_lem :
      (plan : Plan) (x : Option Checkpoint) (w w2 : World)
      → load_reusable disk limit plan w ≡ (ok x, w2)
      → Answers disk limit (cache_key disk limit plan) w x
        × ((session : String) → load disk limit session w2 ≡ load disk limit session w)
  unfolding load_reusable
  load_reusable_lem plan x w w2 h =
      let key = cache_key disk limit plan in
      let es = read_index disk limit w in
      (
        load_reusable-Answers disk limit plan x w w2 h,
        λ session. load-Kept session w w2 (
            search_from-Kept disk limit key es (sort_newest (with_key disk limit key es)) x w w2 h),
      )
