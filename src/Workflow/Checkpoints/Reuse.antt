-- ===== src/Workflow/Checkpoints/Reuse.antt =====
-- `loadReusable`: which checkpoint is found for a plan, when none is, and what a save makes of it.
pub mod Found
pub mod Fresh
use mathlib.Core.List.{Memᴰ}
use agent_p.Common.{
  ℕ, ◌≤◌, ◌≡◌, refl, sym, ap, ◌∙◌, ◌⊎◌, String, Option, none, some, Option-cases, Bool, true, false,
  not, ◌&&◌, ◌||◌, List, [], ◌∷◌, keep_if, keep_if_passes, keep_if-All, All-keep_if, All, All-map,
  All-both, All-self, Result, ok, err, ◌==◌, ==_iff, ==_self, string_eq, Bool-cases, inl, inr,
  if◌then◌else◌, arith,
}
use agent_p.Workflow.Types.{Plan, Checkpoint}
use agent_p.Workflow.Checkpoints.{
  Disk, cache_key, load, parsed, read_index, write_index, fitting, clean_up, after_cleanup,
  found_reusable, search_matches, search_from, with_key, without_stale, load_reusable,
}
use agent_p.Workflow.Checkpoints.Index.{IndexEntry, sort_newest}
use agent_p.Workflow.Checkpoints.Index.Bounds.{
  NewestFirst, All-sort_newest, sort_newest-All, sort_newest-NewestFirst,
}
use agent_p.Workflow.Checkpoints.RoundTrip.{IsLawful, same_path}

module _ {World Text : Type 0} (disk : Disk World Text) (limit : ℕ) where
  -- The entry's session loads a checkpoint whose plan has the key.
  abbrev pub Fits : String → World → IndexEntry → Type 0
  Fits key w e =
      (c : Checkpoint) × (load disk limit e.session_id w ≡ some c)
      × (cache_key disk limit c.plan ≡ key)

  fitting-some :
      (key : String) (c : Checkpoint) (o : Option Checkpoint)
      → fitting disk limit key o ≡ some c
      → (o ≡ some c) × (cache_key disk limit c.plan ≡ key)
  unfolding fitting
  fitting-some key c none h = cc
  fitting-some key c (some d) h = elim (Bool-cases (cache_key disk limit d.plan == key)) [
    | inl e ↦
        let k = rw e at h in
        let same : cache_key disk limit d.plan ≡ key =
          (==_iff (cache_key disk limit d.plan) key).0 e in
        (k, cc)
    | inr e ↦ let k = rw e at h in cc
  ]

  fitting-none :
      (key : String) (c : Checkpoint) (o : Option Checkpoint)
      → fitting disk limit key o ≡ none
      → o ≡ some c
      → ¬ (cache_key disk limit c.plan ≡ key)
  unfolding fitting
  fitting-none key c none h e k = cc
  fitting-none key c (some d) h e k =
      let same : cache_key disk limit d.plan ≡ key = cc in
      let t : cache_key disk limit d.plan == key ≡ true =
        (==_iff (cache_key disk limit d.plan) key).1 same in
      let r = rw t at h in cc

  -- What a call that came to its end has done to the files.
  abbrev pub Kept : World → World → Type 0
  Kept w w2 = (w2 ≡ w) ⊎ ((es : List IndexEntry) × (write_index disk limit es w ≡ (ok tt, w2)))

  after_cleanup_ok :
      (found x : Option Checkpoint) (r : Result (Unit {0}) × World) (w2 : World)
      → after_cleanup disk limit found r ≡ (ok x, w2)
      → (found ≡ x) × (r ≡ (ok tt, w2))
  unfolding after_cleanup
  after_cleanup_ok found x (ok tt, w) w2 h = (cc, cc)
  after_cleanup_ok found x (err m, w) w2 h = cc

  clean_up_ok :
      (key : String) (stale : List String) (entries : List IndexEntry) (found x : Option Checkpoint)
      (w w2 : World)
      → clean_up disk limit key stale entries found w ≡ (ok x, w2)
      → (found ≡ x) × Kept w w2
  unfolding clean_up
  clean_up_ok key stale entries found x w w2 h =
      let (same, wrote) = after_cleanup_ok found x _ w2 h in
      (same, inr (without_stale disk limit key stale entries, wrote))

  found_reusable_ok :
      (key : String) (stale : List String) (entries : List IndexEntry) (c : Checkpoint)
      (x : Option Checkpoint) (w w2 : World)
      → found_reusable disk limit key stale entries c w ≡ (ok x, w2)
      → (some c ≡ x) × Kept w w2
  unfolding found_reusable
  found_reusable_ok key [] entries c x w w2 h = (cc, inl cc)
  found_reusable_ok key (s ∷ stale) entries c x w w2 h =
      clean_up_ok key (s ∷ stale) entries (some c) x w w2 h

  -- The checkpoint `c` belongs to an entry of the list that satisfies `P`, and no entry that fits is
  -- newer.
  pub record Newest (P : IndexEntry → Type 0) (key : String) (w : World) (es : List IndexEntry)
      (c : Checkpoint) : Type 0 where
    pub entry : IndexEntry
    pub listed : P entry
    pub loads : load disk limit entry.session_id w ≡ some c
    pub same_key : cache_key disk limit c.plan ≡ key
    pub newest : All (λ (d : IndexEntry). Fits key w d → d.updated_at ≤ entry.updated_at) es

  pub search_matches-Newest :
      (P : IndexEntry → Type 0) (key : String) (entries ms : List IndexEntry) (stale : List String)
      (c : Checkpoint) (w w2 : World)
      → All P ms
      → NewestFirst ms
      → search_matches disk limit key entries ms stale w ≡ (ok (some c), w2)
      → Newest P key w ms c
  unfolding search_matches
  search_matches-Newest P key entries [] stale c w w2 hs sorted h =
      let (bad, k) = clean_up_ok key stale entries none (some c) w w2 h in cc
  search_matches-Newest P key entries (m ∷ ms) stale c w w2 (p, hs) (above, sorted) h =
      let o = load disk limit m.session_id w in
      elim (Option-cases (fitting disk limit key o)) [
        | inl (d, e) ↦
            let (found, k) =
              found_reusable_ok key stale entries d (some c) w w2 (rw (e, search_matches) at h) in
            let (loads, same) = fitting-some key c o (e ∙ found) in
            record {
              entry = m;
              listed = p;
              loads = loads;
              same_key = same;
              newest = ((λ f. omega arith), All-map ms (λ d le f. le) above);
            }
        | inr e ↦
            let r =
              search_matches-Newest P key entries ms (m.session_id ∷ stale) c w w2 hs sorted
                (rw (e, search_matches) at h) in
            record {
              entry = r.entry;
              listed = r.listed;
              loads = r.loads;
              same_key = r.same_key;
              newest = (
                (λ f. let (x, loaded, has) = f in elim (fitting-none key x o e loaded has) [ ]),
                r.newest,
              );
            }
      ]

  pub search_matches-none :
      (key : String) (entries ms : List IndexEntry) (stale : List String) (w w2 : World)
      → search_matches disk limit key entries ms stale w ≡ (ok none, w2)
      → All (λ (d : IndexEntry). ¬ (Fits key w d)) ms
  unfolding search_matches
  search_matches-none key entries [] stale w w2 h = tt
  search_matches-none key entries (m ∷ ms) stale w w2 h =
      let o = load disk limit m.session_id w in
      elim (Option-cases (fitting disk limit key o)) [
        | inl (d, e) ↦
            let (bad, k) =
              found_reusable_ok key stale entries d none w w2 (rw (e, search_matches) at h) in
            cc
        | inr e ↦ (
          (λ f. let (x, loaded, has) = f in fitting-none key x o e loaded has),
          search_matches-none key entries ms (m.session_id ∷ stale) w w2
              (rw (e, search_matches) at h),
        )
      ]

  pub search_matches-Kept :
      (key : String) (entries ms : List IndexEntry) (stale : List String) (x : Option Checkpoint)
      (w w2 : World)
      → search_matches disk limit key entries ms stale w ≡ (ok x, w2)
      → Kept w w2
  unfolding search_matches
  search_matches-Kept key entries [] stale x w w2 h =
      (clean_up_ok key stale entries none x w w2 h).1
  search_matches-Kept key entries (m ∷ ms) stale x w w2 h =
      elim (Option-cases (fitting disk limit key (load disk limit m.session_id w))) [
        | inl (d, e) ↦
            (found_reusable_ok key stale entries d x w w2 (rw (e, search_matches) at h)).1
        | inr e ↦
            search_matches-Kept key entries ms (m.session_id ∷ stale) x w w2
              (rw (e, search_matches) at h)
      ]
