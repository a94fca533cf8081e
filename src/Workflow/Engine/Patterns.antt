-- ===== src/Workflow/Engine/Patterns.antt =====
-- `collectPatternCount` of src/workflow/engine.ts: the number of different matches of
-- /[A-Za-z0-9._\/-]+/g in a query, up to case. A text is the list of its code points.
use Prim.Native.Char.{code}
use Prim.Native.String.{String}
use agent_p.Common.{
  ℕ, ◌+◌, ◌≡◌, refl, Bool, true, false, ◌&&◌, ◌||◌, List, [], ◌∷◌, ◌++◌, map, if◌then◌else◌, leb,
  nat_eqb, Eq, decided_by, ◌↔◌, arith, length, dedupe,
}

abbrev pub codes : String → List ℕ
codes String.[] = []
codes (String.◌∷◌ c s) = code c ∷ codes s

abbrev pub codes_eqb : List ℕ → List ℕ → Bool
codes_eqb [] [] = true
codes_eqb (x ∷ xs) (y ∷ ys) = nat_eqb x y && codes_eqb xs ys
codes_eqb _ _ = false

pub codes_eqb_iff : (xs ys : List ℕ) → (codes_eqb xs ys ≡ true) ↔ (xs ≡ ys)
codes_eqb_iff [] [] = ground arith
codes_eqb_iff [] (y ∷ ys) = ground arith
codes_eqb_iff (x ∷ xs) [] = ground arith
codes_eqb_iff (x ∷ xs) (y ∷ ys) = ground (arith, codes_eqb_iff xs ys)

instance abbrev pub codes_eq : Eq (List ℕ)
codes_eq = decided_by codes_eqb codes_eqb_iff

-- One of A-Z, a-z, 0-9, full stop, underscore, slash and hyphen.
is_pattern_char : ℕ → Bool
is_pattern_char c =
    (leb b'A' c && leb c b'Z')
    || (leb b'a' c && leb c b'z')
    || (leb b'0' c && leb c b'9')
    || nat_eqb c b'.'
    || nat_eqb c b'_'
    || nat_eqb c b'/'
    || nat_eqb c b'-'

lower : ℕ → ℕ
lower c = if leb b'A' c && leb c b'Z' then c + 32 else c

flush : List ℕ → List (List ℕ)
flush [] = []
flush (c ∷ cs) = (c ∷ cs) ∷ []

-- The longest runs of pattern characters; `run` is the one that is being read.
runs : List ℕ → List ℕ → List (List ℕ)
unfolding is_pattern_char flush
runs run [] = flush run
runs run (c ∷ cs) =
    let longer = runs (run ++ c ∷ []) cs in
    let ended = flush run ++ runs [] cs in if is_pattern_char c then longer else ended

unfoldable pub collect_pattern_count : String → ℕ
unfolding runs lower dedupe
collect_pattern_count query = length (dedupe (map (map lower) (runs [] (codes query))))

counts_up_to_case : collect_pattern_count "Fix src/Foo.ts, src/foo.TS; fix" ≡ 2
unfolding collect_pattern_count
counts_up_to_case = refl
