-- ===== src/Database/SqlSafety/Statements.antt =====
-- What an accepted statement is like: `assert_safe_single_statement` and `sql_query`.
use agent_p.Common.{
  ◌≢◌, ℕ, ◌+◌, ◌≡◌, refl, ap, ◌↔◌, ◌⊎◌, inl, inr, Option, none, some, true, false, ◌&&◌, List, [],
  ◌∷◌, ◌++◌, length, any, all, nat_eqb, All, Bool-cases, Result, ok, err, arith,
}
use agent_p.Database.SqlSafety.{
  Text, is_space, trim, strip_quoted_content, count_placeholders, has_comment, has_second_statement,
  is_empty, assert_safe_single_statement, ParameterizedQuery, join_template, checked_query,
  sql_query, starts_with_unit,
}

-- Two dashes, or a slash and a star, stand side by side.
abbrev pub OpensComment : Text → Type 0
OpensComment s =
    ((before : Text) × (after : Text) × (s ≡ before ++ (b'-' ∷ b'-' ∷ after)))
    ⊎ ((before : Text) × (after : Text) × (s ≡ before ++ (b'/' ∷ b'*' ∷ after)))

abbrev pub IsBlank : Text → Type 0
IsBlank = All (λ c. is_space c ≡ true)

all-IsBlank : (s : Text) → all is_space s ≡ true → IsBlank s
all-IsBlank [] h = tt
all-IsBlank (c ∷ s) h = (ground arith, all-IsBlank s (ground arith))

blank_all : (s : Text) → IsBlank s → all is_space s ≡ true
blank_all [] h = refl
blank_all (c ∷ s) (h, hs) = ground (arith, blank_all s hs)

-- Every semicolon has nothing but white space behind it.
abbrev pub IsSingle : Text → Type 0
IsSingle s = (before after : Text) → s ≡ before ++ (b';' ∷ after) → IsBlank after

-- A statement that is safe to run with `n` parameters, read without its quoted content.
pub record IsSafe (s : Text) (n : ℕ) : Type 0 where
  pub no_comment : ¬ (OpensComment s)
  pub single : IsSingle s
  pub placeholders : count_placeholders s ≡ n

behind_semicolon :
    (before after : Text)
    → has_second_statement (before ++ (b';' ∷ after)) ≡ false
    → all is_space after ≡ true
unfolding has_second_statement
behind_semicolon [] after h = ground arith
behind_semicolon (c ∷ before) after h = behind_semicolon before after (ground arith)

has_second_statement-IsSingle : (s : Text) → has_second_statement s ≡ false → IsSingle s
has_second_statement-IsSingle s h before after e =
    all-IsBlank after (behind_semicolon before after (rw e at h))

of_single : (s : Text) → IsSingle s → has_second_statement s ≡ false
unfolding has_second_statement
of_single [] h = refl
of_single (c ∷ s) h =
    let rest = of_single s (λ before after e. h (c ∷ before) after (ap (λ t. c ∷ t) e)) in
    elim (Bool-cases (nat_eqb c b';')) [
      | inl e ↦
          let same : c ≡ b';' = ground arith in
          let blank = blank_all s (h [] s (ap (λ k. k ∷ s) same)) in ground (arith, rest, blank)
      | inr e ↦ ground (arith, rest)
    ]

dashes_seen : (before after : Text) → has_comment (before ++ (b'-' ∷ b'-' ∷ after)) ≡ true
unfolding has_comment starts_with_unit
dashes_seen [] after = refl
dashes_seen (c ∷ before) after = ground (arith, dashes_seen before after)

slash_star_seen : (before after : Text) → has_comment (before ++ (b'/' ∷ b'*' ∷ after)) ≡ true
unfolding has_comment starts_with_unit
slash_star_seen [] after = refl
slash_star_seen (c ∷ before) after = ground (arith, slash_star_seen before after)

no_comment_of : (s : Text) → has_comment s ≡ false → ¬ (OpensComment s)
no_comment_of s h (inl (before, after, e)) =
    let seen = dashes_seen before after in let none_seen = rw e at h in cc
no_comment_of s h (inr (before, after, e)) =
    let seen = slash_star_seen before after in let none_seen = rw e at h in cc

opens-cons : (c : ℕ) (s : Text) → OpensComment s → OpensComment (c ∷ s)
opens-cons c s (inl (before, after, e)) = inl (c ∷ before, after, ap (λ t. c ∷ t) e)
opens-cons c s (inr (before, after, e)) = inr (c ∷ before, after, ap (λ t. c ∷ t) e)

first_two :
    (a b c : ℕ) (s : Text)
    → (nat_eqb c a && starts_with_unit b s) ≡ true
    → (after : Text) × (c ∷ s ≡ a ∷ b ∷ after)
unfolding starts_with_unit
first_two a b c [] h = ground arith
first_two a b c (d ∷ s) h = (s, ground arith)

of_no_comment : (s : Text) → ¬ (OpensComment s) → has_comment s ≡ false
unfolding has_comment
of_no_comment [] h = refl
of_no_comment (c ∷ s) h =
    let rest = of_no_comment s (λ o. h (opens-cons c s o)) in
    elim (Bool-cases (nat_eqb c b'-' && starts_with_unit b'-' s)) [
      | inl e ↦ let (after, two) = first_two b'-' b'-' c s e in absurd (h (inl ([], after, two)))
      | inr e ↦ elim (Bool-cases (nat_eqb c b'/' && starts_with_unit b'*' s)) [
        | inl f ↦ let (after, two) = first_two b'/' b'*' c s f in absurd (h (inr ([], after, two)))
        | inr f ↦ rw (e, f) rest
      ]
    ]

-- The tests that `assert_safe_single_statement` makes, all passed.
record Passes (sql : Text) (n : ℕ) : Type 0 where
  filled : is_empty (trim sql) ≡ false
  no_null : any (λ c. nat_eqb c 0) (trim sql) ≡ false
  no_comment : has_comment (strip_quoted_content (trim sql)) ≡ false
  single : has_second_statement (strip_quoted_content (trim sql)) ≡ false
  counted : count_placeholders (strip_quoted_content (trim sql)) ≡ n

-- The number of placeholders that the parameters ask for: none without parameters.
abbrev pub wanted : Option ℕ → ℕ
wanted none = 0
wanted (some n) = n

passed_iff :
    (sql : Text) (params : Option ℕ)
    → (assert_safe_single_statement sql params ≡ ok tt) ↔ Passes sql (wanted params)
unfolding assert_safe_single_statement
passed_iff sql none = ground arith
passed_iff sql (some n) = ground arith

no_null_iff : (s : Text) → (any (λ c. nat_eqb c 0) s ≡ false) ↔ All (λ c. c ≢ 0) s
no_null_iff [] = (λ h. tt, λ h. refl)
no_null_iff (c ∷ s) = (
  λ h. (ground arith, (no_null_iff s).0 (ground arith)),
  λ (k, ks). let rest = (no_null_iff s).1 ks in ground arith,
)

filled_iff : (s : Text) → (is_empty s ≡ false) ↔ (s ≢ [])
unfolding is_empty
filled_iff [] = (λ h. cc, λ h. absurd (h refl))
filled_iff (c ∷ s) = (λ h e. cc, λ h. refl)

-- An accepted statement: it is not blank, has no null, and without its quoted content it is safe.
pub record IsAccepted (sql : Text) (n : ℕ) : Type 0 where
  pub filled : trim sql ≢ []
  pub no_null : All (λ c. c ≢ 0) (trim sql)
  pub safe : IsSafe (strip_quoted_content (trim sql)) n

-- A statement is accepted exactly if, trimmed, it is not empty and has no null character, and
-- without its quoted content it opens no comment, has nothing but white space behind each semicolon,
-- and has as many placeholders as there are parameters, none if no parameters are given.
pub assert_safe_single_statement_iff :
    (sql : Text) (params : Option ℕ)
    → (assert_safe_single_statement sql params ≡ ok tt) ↔ IsAccepted sql (wanted params)
assert_safe_single_statement_iff sql params = (
  λ h.
      let p = (passed_iff sql params).0 h in
      record {
        filled = (filled_iff (trim sql)).0 p.filled;
        no_null = (no_null_iff (trim sql)).0 p.no_null;
        safe = record {
          no_comment = no_comment_of (strip_quoted_content (trim sql)) p.no_comment;
          single = has_second_statement-IsSingle (strip_quoted_content (trim sql)) p.single;
          placeholders = p.counted;
        };
      },
  λ a. (passed_iff sql params).1 (record {
    filled = (filled_iff (trim sql)).1 a.filled;
    no_null = (no_null_iff (trim sql)).1 a.no_null;
    no_comment = of_no_comment (strip_quoted_content (trim sql)) a.safe.no_comment;
    single = of_single (strip_quoted_content (trim sql)) a.safe.single;
    counted = a.safe.placeholders;
  }),
)

checked_query_ok :
    {V : Type 0} (text : Text) (values : List V) (r : Result (Unit {0})) {q : ParameterizedQuery V}
    → checked_query text values r ≡ ok q
    → (r ≡ ok tt) × (q ≡ record { text = text; params = values })
unfolding checked_query
checked_query_ok text values (ok _) h = (refl, ground arith)
checked_query_ok text values (err m) h = ground arith

-- A query that is made from a template has one string more than values, the joined strings as its
-- text and the values as its parameters, and its text is accepted with as many placeholders outside
-- of quotes as there are values.
pub sql_query_ok :
    {V : Type 0} (strings : List Text) (values : List V) {q : ParameterizedQuery V}
    → sql_query strings values ≡ ok q
    → (length strings ≡ length values + 1)
      × (q ≡ record { text = join_template strings values; params = values })
      × IsAccepted q.text (length values)
unfolding sql_query
sql_query_ok strings values {q} h =
    elim (Bool-cases (nat_eqb (length strings) (length values + 1))) [
      | inl e ↦
          let made =
            checked_query_ok (join_template strings values) values
              (assert_safe_single_statement (join_template strings values) (some (length values)))
              (rw e at h) in
          (
            ground arith,
            made.1,
            rw made.1 (
                (assert_safe_single_statement_iff (join_template strings values)
                    (some (length values))).0
                  made.0),
          )
      | inr e ↦ let refused = rw e at h in cc
    ]
