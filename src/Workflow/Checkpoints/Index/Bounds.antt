-- ===== src/Workflow/Checkpoints/Index/Bounds.antt =====
-- What `normalize_entries` keeps: how many entries, in which order, and for which keys.
use agent_p.Common.{
  ℕ, zero, suc, ◌≤◌, ◌≡◌, refl, String, false, List, [], ◌∷◌, All, All-map, All-take, includes,
  length, take, length-take, leb, string_eq, Bool-cases, inl, inr, arith,
}
use agent_p.Workflow.Checkpoints.Index.{
  IndexEntry, insert_newest, sort_newest, dedupe_key, first_entries, normalize_entries,
}

-- The newest entries come first.
abbrev pub NewestFirst : List IndexEntry → Type 0
NewestFirst [] = Unit
NewestFirst (e ∷ es) = All (λ (d : IndexEntry). d.updated_at ≤ e.updated_at) es × NewestFirst es

-- No two entries have the same key, and none a key of `seen`.
abbrev pub DistinctFrom : List String → List IndexEntry → Type 0
DistinctFrom seen [] = Unit
DistinctFrom seen (e ∷ es) =
    (includes seen (dedupe_key e) ≡ false) × DistinctFrom (dedupe_key e ∷ seen) es

module _ (P : IndexEntry → Type 0) where
  All-insert_newest :
      (e : IndexEntry) (es : List IndexEntry) → P e → All P es → All P (insert_newest e es)
  unfolding insert_newest
  All-insert_newest e [] p h = (p, tt)
  All-insert_newest e (d ∷ ds) p (q, h) = elim (Bool-cases (leb d.updated_at e.updated_at)) [
    | inl b ↦ rw b (p, (q, h))
    | inr b ↦ rw b (q, All-insert_newest e ds p h)
  ]

  pub All-sort_newest : (es : List IndexEntry) → All P es → All P (sort_newest es)
  unfolding sort_newest
  All-sort_newest [] h = tt
  All-sort_newest (e ∷ es) (p, h) = All-insert_newest e (sort_newest es) p (All-sort_newest es h)

  insert_newest-All :
      (e : IndexEntry) (es : List IndexEntry) → All P (insert_newest e es) → P e × All P es
  unfolding insert_newest
  insert_newest-All e [] h = h
  insert_newest-All e (d ∷ ds) h = elim (Bool-cases (leb d.updated_at e.updated_at)) [
    | inl b ↦ rw b at h
    | inr b ↦ let k = rw b at h in let (p, hs) = insert_newest-All e ds k.1 in (p, (k.0, hs))
  ]

  pub sort_newest-All : (es : List IndexEntry) → All P (sort_newest es) → All P es
  unfolding sort_newest
  sort_newest-All [] h = tt
  sort_newest-All (e ∷ es) h =
      let (p, hs) = insert_newest-All e (sort_newest es) h in (p, sort_newest-All es hs)

  All-first_entries :
      (seen : List String) (es : List IndexEntry) → All P es → All P (first_entries seen es)
  unfolding first_entries
  All-first_entries seen [] h = tt
  All-first_entries seen (e ∷ es) (p, h) = elim (Bool-cases (includes seen (dedupe_key e))) [
    | inl b ↦ rw b (All-first_entries seen es h)
    | inr b ↦ rw b (p, All-first_entries (dedupe_key e ∷ seen) es h)
  ]

  pub All-normalize :
      (limit : ℕ) (es : List IndexEntry) → All P es → All P (normalize_entries limit es)
  unfolding normalize_entries
  All-normalize limit es h =
      All-take P limit (first_entries [] (sort_newest es))
        (All-first_entries [] (sort_newest es) (All-sort_newest es h))

insert_newest-NewestFirst :
    (e : IndexEntry) (es : List IndexEntry) → NewestFirst es → NewestFirst (insert_newest e es)
unfolding insert_newest
insert_newest-NewestFirst e [] h = (tt, tt)
insert_newest-NewestFirst e (d ∷ ds) (h, hs) = elim (Bool-cases (leb d.updated_at e.updated_at)) [
  | inl b ↦
      let le : d.updated_at ≤ e.updated_at = ground arith in
      rw b ((le, All-map ds (λ c k. omega arith) h), (h, hs))
  | inr b ↦
      let le : e.updated_at ≤ d.updated_at = ground arith in
      rw b (
        All-insert_newest (λ (c : IndexEntry). c.updated_at ≤ d.updated_at) e ds le h,
        insert_newest-NewestFirst e ds hs,
      )
]

pub sort_newest-NewestFirst : (es : List IndexEntry) → NewestFirst (sort_newest es)
unfolding sort_newest
sort_newest-NewestFirst [] = tt
sort_newest-NewestFirst (e ∷ es) =
    insert_newest-NewestFirst e (sort_newest es) (sort_newest-NewestFirst es)

first_entries-NewestFirst :
    (seen : List String) (es : List IndexEntry)
    → NewestFirst es
    → NewestFirst (first_entries seen es)
unfolding first_entries
first_entries-NewestFirst seen [] h = tt
first_entries-NewestFirst seen (e ∷ es) (h, hs) = elim (Bool-cases (includes seen (dedupe_key e))) [
  | inl b ↦ rw b (first_entries-NewestFirst seen es hs)
  | inr b ↦ rw b (
    All-first_entries (λ (d : IndexEntry). d.updated_at ≤ e.updated_at) (dedupe_key e ∷ seen) es h,
    first_entries-NewestFirst (dedupe_key e ∷ seen) es hs,
  )
]

take-NewestFirst : (n : ℕ) (es : List IndexEntry) → NewestFirst es → NewestFirst (take n es)
take-NewestFirst zero es h = tt
take-NewestFirst (suc n) [] h = tt
take-NewestFirst (suc n) (e ∷ es) (h, hs) =
    (All-take (λ (d : IndexEntry). d.updated_at ≤ e.updated_at) n es h, take-NewestFirst n es hs)

first_entries-DistinctFrom :
    (seen : List String) (es : List IndexEntry) → DistinctFrom seen (first_entries seen es)
unfolding first_entries
first_entries-DistinctFrom seen [] = tt
first_entries-DistinctFrom seen (e ∷ es) = elim (Bool-cases (includes seen (dedupe_key e))) [
  | inl b ↦ rw b (first_entries-DistinctFrom seen es)
  | inr b ↦ rw b (b, first_entries-DistinctFrom (dedupe_key e ∷ seen) es)
]

take-DistinctFrom :
    (n : ℕ) (seen : List String) (es : List IndexEntry)
    → DistinctFrom seen es
    → DistinctFrom seen (take n es)
take-DistinctFrom zero seen es h = tt
take-DistinctFrom (suc n) seen [] h = tt
take-DistinctFrom (suc n) seen (e ∷ es) (h, hs) =
    (h, take-DistinctFrom n (dedupe_key e ∷ seen) es hs)

-- An index that is kept within `limit`: few enough entries, the newest first, with different keys.
pub record IsTidy (limit : ℕ) (es : List IndexEntry) : Type 0 where
  pub few : length es ≤ limit
  pub newest_first : NewestFirst es
  pub distinct : DistinctFrom [] es

-- The entries kept are at most as many as the limit allows, the newest come first, and no two have
-- the same cache key and session.
pub normalize_entries-IsTidy :
    (limit : ℕ) (es : List IndexEntry) → IsTidy limit (normalize_entries limit es)
unfolding normalize_entries
normalize_entries-IsTidy limit es = record {
  few = length-take limit (first_entries [] (sort_newest es));
  newest_first =
      take-NewestFirst limit (first_entries [] (sort_newest es))
        (first_entries-NewestFirst [] (sort_newest es) (sort_newest-NewestFirst es));
  distinct =
      take-DistinctFrom limit [] (first_entries [] (sort_newest es))
        (first_entries-DistinctFrom [] (sort_newest es));
}

-- An entry that is not older than the others stays in front.
insert_front :
    (e : IndexEntry) (es : List IndexEntry)
    → All (λ (d : IndexEntry). d.updated_at ≤ e.updated_at) es
    → insert_newest e es ≡ e ∷ es
unfolding insert_newest
insert_front e [] h = refl
insert_front e (d ∷ ds) (le, h) = ground arith

pub rest_of : ℕ → IndexEntry → List IndexEntry → List IndexEntry
rest_of limit e es = take limit (first_entries (dedupe_key e ∷ []) (sort_newest es))

pub normalize_entries-front :
    (limit : ℕ) (e : IndexEntry) (es : List IndexEntry)
    → All (λ (d : IndexEntry). d.updated_at ≤ e.updated_at) es
    → normalize_entries (suc limit) (e ∷ es) ≡ e ∷ rest_of limit e es
unfolding normalize_entries rest_of includes
normalize_entries-front limit e es h =
    rw
      (insert_front e (sort_newest es)
        (All-sort_newest (λ (d : IndexEntry). d.updated_at ≤ e.updated_at) es h))
      refl

pub All-rest_of :
    (P : IndexEntry → Type 0) (limit : ℕ) (e : IndexEntry) (es : List IndexEntry)
    → All P es
    → All P (rest_of limit e es)
unfolding rest_of
All-rest_of P limit e es h =
    All-take P limit (first_entries (dedupe_key e ∷ []) (sort_newest es))
      (All-first_entries P (dedupe_key e ∷ []) (sort_newest es) (All-sort_newest P es h))
