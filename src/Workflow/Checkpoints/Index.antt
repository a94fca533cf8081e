-- ===== src/Workflow/Checkpoints/Index.antt =====
-- The entries of the index of planning artifacts and `normalizePlanningArtifactEntries`
-- (src/workflow/checkpoint-store.ts).
pub mod Bounds
use Prim.Native.String.{◌++◌ as str_append}
use agent_p.Common.{
  ℕ, zero, suc, String, Bool, Option, or_else, List, [], ◌∷◌, includes, length, take, leb,
  string_eq, if◌then◌else◌,
}

pub record IndexEntry : Type 0 where
  pub cache_key : String
  pub session_id : String
  pub updated_at : ℕ

insert_newest : IndexEntry → List IndexEntry → List IndexEntry
insert_newest e [] = e ∷ []
insert_newest e (d ∷ ds) =
    let rest = insert_newest e ds in if leb d.updated_at e.updated_at then e ∷ d ∷ ds else d ∷ rest

-- `sort((left, right) => right.updatedAt - left.updatedAt)`, which is stable.
unfoldable pub sort_newest : List IndexEntry → List IndexEntry
unfolding insert_newest
sort_newest [] = []
sort_newest (e ∷ es) = insert_newest e (sort_newest es)

unfoldable pub dedupe_key : IndexEntry → String
dedupe_key e = str_append e.cache_key (str_append "::" e.session_id)

-- The first entry for each key, with the keys met so far.
unfoldable pub first_entries : List String → List IndexEntry → List IndexEntry
unfolding dedupe_key
first_entries seen [] = []
first_entries seen (e ∷ es) =
    let again = first_entries seen es in
    let fresh = e ∷ first_entries (dedupe_key e ∷ seen) es in
    if includes seen (dedupe_key e) then again else fresh

unfoldable pub normalize_entries : ℕ → List IndexEntry → List IndexEntry
unfolding first_entries sort_newest
normalize_entries limit es = take limit (first_entries [] (sort_newest es))

-- `Math.max(options.planningArtifactRetentionLimit ?? 200, 1)`, for whole numbers.
unfoldable pub retention_limit : Option ℕ → ℕ
retention_limit given = let n = or_else given 200 in if leb 1 n then n else 1
