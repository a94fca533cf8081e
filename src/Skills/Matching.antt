-- ===== src/Skills/Matching.antt =====
-- How triggers are looked for in a query and in file paths (src/skills/activation.ts). What comes
-- before the removal of control characters, `NFKC` and the removal of ANSI codes, is the parameter
-- `fold`; `lower` and `trim` are parameters too.
pub mod Words
use Prim.Native.Nat.{◌/◌, ◌%◌}
use Prim.Native.Char.{code}
use text.Mathlib.Text.{starts_with}
use agent_p.Common.{
  ℕ, ◌+◌, ◌-◌, String, Bool, true, false, not, ◌&&◌, ◌||◌, List, [], ◌∷◌, any, ltb, leb, nat_eqb,
  ◌==◌, string_eq, if◌then◌else◌,
}
use agent_p.Common.Text.{contains}

is_forbidden_control : ℕ → Bool
is_forbidden_control c =
    leb c 8 || nat_eqb c 11 || nat_eqb c 12 || (leb 14 c && leb c 31) || nat_eqb c 127

strip_control_characters : String → String
unfolding is_forbidden_control
strip_control_characters String.[] = String.[]
strip_control_characters (String.◌∷◌ c s) =
    let rest = strip_control_characters s in
    if is_forbidden_control (code c) then rest else String.◌∷◌ c rest

slashes : String → String
slashes String.[] = String.[]
slashes (String.◌∷◌ c s) =
    let rest = slashes s in
    let other = String.◌∷◌ c rest in
    if nat_eqb (code c) b'\\' then Prim.Native.String.◌++◌ "/" rest else other

-- The UTF-16 code units, over which regular expressions run.
pub units : String → List ℕ
units String.[] = []
units (String.◌∷◌ c s) =
    let rest = units s in
    let over = code c - 0x10000 in
    if ltb (code c) 0x10000
    then code c ∷ rest
    else (0xd800 + over / 1024) ∷ (0xdc00 + over % 1024) ∷ rest

pub is_alphanumeric : ℕ → Bool
is_alphanumeric c = (leb b'a' c && leb c b'z') || (leb b'0' c && leb c b'9')

-- `([^a-z0-9]|$)` at the beginning of the rest.
ends_word : List ℕ → Bool
unfolding is_alphanumeric
ends_word [] = true
ends_word (c ∷ s) = not (is_alphanumeric c)

-- The word begins here, and its end follows.
word_here : List ℕ → List ℕ → Bool
unfolding ends_word
word_here [] s = ends_word s
word_here (c ∷ w) [] = false
word_here (c ∷ w) (d ∷ s) = nat_eqb c d && word_here w s

-- `(^|[^a-z0-9])word([^a-z0-9]|$)`, where `free` says that nothing or such a character stands before.
has_word : Bool → List ℕ → List ℕ → Bool
unfolding word_here is_alphanumeric
has_word free w [] = free && word_here w []
has_word free w (c ∷ s) = (free && word_here w (c ∷ s)) || has_word (not (is_alphanumeric c)) w s

-- What `.` matches.
is_dot : ℕ → Bool
is_dot c = not (nat_eqb c 10 || nat_eqb c 13 || nat_eqb c 0x2028 || nat_eqb c 0x2029)

-- `.*` before what `m` accepts.
after_any : (List ℕ → Bool) → List ℕ → Bool
unfolding is_dot
after_any m [] = m []
after_any m (c ∷ s) = m (c ∷ s) || (is_dot c && after_any m s)

after_one : (List ℕ → Bool) → List ℕ → Bool
unfolding is_dot
after_one m [] = false
after_one m (c ∷ s) = is_dot c && m s

after_unit : ℕ → (List ℕ → Bool) → List ℕ → Bool
after_unit p m [] = false
after_unit p m (c ∷ s) = nat_eqb p c && m s

is_end : List ℕ → Bool
is_end [] = true
is_end (c ∷ s) = false

-- The pattern of `wildcardToRegExp`: `*` is `.*`, `?` is `.`, and the rest is itself.
unfoldable pub wildcard_match : List ℕ → List ℕ → Bool
unfolding after_any after_one after_unit is_end
wildcard_match [] = is_end
wildcard_match (p ∷ ps) =
    let rest = wildcard_match ps in
    if nat_eqb p b'*'
    then after_any rest
    else if nat_eqb p b'?'
    then after_one rest
    else after_unit p rest

-- `s.endsWith(t)`
ends_with : String → String → Bool
ends_with String.[] t = t == String.[]
ends_with (String.◌∷◌ c s) t = String.◌∷◌ c s == t || ends_with s t

pub has_wildcard : String → Bool
unfolding contains
has_wildcard s = contains s "*" || contains s "?"

module _ (fold lower trim : String → String) where
  unfoldable pub normalize_text : String → String
  unfolding strip_control_characters
  normalize_text value = lower (trim (strip_control_characters (fold value)))

  pub normalize_path : String → String
  unfolding normalize_text slashes
  normalize_path value = slashes (normalize_text value)

  -- `query` is normalized already.
  unfoldable pub has_trigger_in_query : String → String → Bool
  unfolding normalize_text contains has_word units
  has_trigger_in_query query trigger =
      let wanted = normalize_text trigger in
      if wanted == ""
      then false
      else if contains wanted " "
      then contains query wanted
      else has_word true (units wanted) (units query)

  path_test : String → String → Bool
  unfolding has_wildcard wildcard_match units ends_with contains
  path_test wanted path =
      if has_wildcard wanted
      then wildcard_match (units wanted) (units path)
      else if starts_with wanted "."
      then ends_with path wanted
      else contains path wanted

  unfoldable pub has_trigger_in_paths : List String → String → Bool
  unfolding normalize_path path_test
  has_trigger_in_paths paths trigger =
      any (λ (p : String). path_test (normalize_path trigger) (normalize_path p)) paths
