-- ===== src/Database/SqlSafety.antt =====
-- `assertSafeSingleStatement` and `sqlQuery` (src/db/sql-safety.ts). A text is the list of its UTF-16
-- code units.
pub mod Quotes
pub mod Statements
use agent_p.Common.{
  ℕ, zero, suc, ◌+◌, String, Option, none, some, Bool, true, false, not, ◌&&◌, ◌||◌, List, [], ◌∷◌,
  ◌++◌, length, any, all, leb, nat_eqb, Result, ok, err, if◌then◌else◌,
}
use agent_p.Common.Text.{show}
use Prim.Native.String.{◌++◌ as str_append}

abbrev pub Text : Type 0
Text = List ℕ

abbrev between : ℕ → ℕ → ℕ → Bool
between low high c = leb low c && leb c high

-- What `\s` matches and `trim` removes.
unfoldable pub is_space : ℕ → Bool
is_space c =
    between 9 13 c
    || nat_eqb c 32
    || nat_eqb c 160
    || nat_eqb c 0x1680
    || between 0x2000 0x200a c
    || between 0x2028 0x2029 c
    || nat_eqb c 0x202f
    || nat_eqb c 0x205f
    || nat_eqb c 0x3000
    || nat_eqb c 0xfeff

trim_start : Text → Text
unfolding is_space
trim_start [] = []
trim_start (c ∷ s) = let rest = trim_start s in if is_space c then rest else c ∷ s

push_trimmed : ℕ → Text → Text
unfolding is_space
push_trimmed c [] = if is_space c then [] else c ∷ []
push_trimmed c (d ∷ s) = c ∷ d ∷ s

trim_end : Text → Text
unfolding push_trimmed
trim_end [] = []
trim_end (c ∷ s) = push_trimmed c (trim_end s)

unfoldable pub trim : Text → Text
unfolding trim_start trim_end
trim s = trim_end (trim_start s)

unfoldable pub starts_with_unit : ℕ → Text → Bool
starts_with_unit q [] = false
starts_with_unit q (c ∷ s) = nat_eqb c q

-- The loop of `stripQuotedContent`, in or out of single and double quotes. A doubled quote is read in
-- two steps: the first one leaves the flag `skip`, on which the second one is passed over.
strip_from : Bool → Bool → Bool → Text → Text
unfolding starts_with_unit
strip_from single double skip [] = []
strip_from single double true (c ∷ s) = strip_from single double false s
strip_from single double false (c ∷ s) =
    let doubled = strip_from single double true s in
    let single_quote = 32 ∷ strip_from (not single) double false s in
    let double_quote = 32 ∷ strip_from single (not double) false s in
    let other = (if single || double then 32 else c) ∷ strip_from single double false s in
    if nat_eqb c b'\'' && not double
    then (if single && starts_with_unit b'\'' s then doubled else single_quote)
    else if nat_eqb c b'"' && not single
    then (if double && starts_with_unit b'"' s then doubled else double_quote)
    else other

unfoldable pub strip_quoted_content : Text → Text
unfolding strip_from
strip_quoted_content s = strip_from false false false s

unfoldable pub count_placeholders : Text → ℕ
count_placeholders [] = 0
count_placeholders (c ∷ s) =
    let rest = count_placeholders s in if nat_eqb c b'?' then suc rest else rest

-- `/--|\/\*/.test(sql)`
unfoldable pub has_comment : Text → Bool
unfolding starts_with_unit
has_comment [] = false
has_comment (c ∷ s) =
    (nat_eqb c b'-' && starts_with_unit b'-' s)
    || (nat_eqb c b'/' && starts_with_unit b'*' s)
    || has_comment s

-- `/;(?!\s*$)/.test(sql)`
unfoldable pub has_second_statement : Text → Bool
unfolding is_space
has_second_statement [] = false
has_second_statement (c ∷ s) = (nat_eqb c b';' && not (all is_space s)) || has_second_statement s

is_empty : Text → Bool
is_empty [] = true
is_empty (c ∷ s) = false

-- The tests on the placeholders, with the number of the parameters if there are any.
check_parameters : ℕ → Option ℕ → Result (Unit {0})
check_parameters n none =
    if nat_eqb n 0 then ok tt else err "SQL parameters are required for placeholder bindings"
check_parameters n (some m) =
    if nat_eqb n m
    then ok tt
    else err (
        str_append "SQL placeholder count (" (
          str_append (show n)
            (str_append ") does not match parameter count (" (str_append (show m) ")"))))

unfoldable pub assert_safe_single_statement : Text → Option ℕ → Result (Unit {0})
unfolding trim is_empty strip_quoted_content has_comment has_second_statement count_placeholders
    check_parameters
assert_safe_single_statement sql params =
    let normalized = trim sql in
    let stripped = strip_quoted_content normalized in
    if is_empty normalized
    then err "SQL statement must be a non-empty string"
    else if any (λ c. nat_eqb c 0) normalized
    then err "SQL statement contains invalid null byte"
    else if has_comment stripped
    then err "SQL comments are not allowed in query statements"
    else if has_second_statement stripped
    then err "Multiple SQL statements are not allowed"
    else check_parameters (count_placeholders stripped) params

pub record ParameterizedQuery {ℓ} (V : Type ℓ) : Type ℓ where
  pub text : Text
  pub params : List V

module _ {V : Type 0} where
  -- The strings of a template with a placeholder for each value between them.
  unfoldable pub join_template : List Text → List V → Text
  join_template [] vs = []
  join_template (s ∷ ss) [] = s ++ join_template ss []
  join_template (s ∷ ss) (v ∷ vs) = s ++ (b'?' ∷ join_template ss vs)

  checked_query : Text → List V → Result (Unit {0}) → Result (ParameterizedQuery V)
  checked_query text values (ok _) = ok (record { text = text; params = values })
  checked_query text values (err m) = err m

  unfoldable pub sql_query : List Text → List V → Result (ParameterizedQuery V)
  unfolding join_template assert_safe_single_statement checked_query
  sql_query strings values =
      if nat_eqb (length strings) (length values + 1)
      then checked_query (join_template strings values) values
          (assert_safe_single_statement (join_template strings values) (some (length values)))
      else err "Invalid SQL template usage"
