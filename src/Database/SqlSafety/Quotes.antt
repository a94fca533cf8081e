-- ===== src/Database/SqlSafety/Quotes.antt =====
-- What is left of quoted literals: `strip_quoted_content`.
use agent_p.Common.{
  ℕ, ◌≡◌, refl, ap, ◌∙◌, true, false, [], ◌∷◌, ◌++◌, append_assoc, nat_eqb, All, Bool-cases, inl,
  inr, ◌⊎◌, if◌then◌else◌, arith,
}
use agent_p.Database.SqlSafety.{Text, strip_from, strip_quoted_content, starts_with_unit}

-- The text of a string literal: single quotes around, and each one inside doubled.
escape : Text → Text
escape [] = []
escape (c ∷ s) = let rest = escape s in if nat_eqb c b'\'' then b'\'' ∷ b'\'' ∷ rest else c ∷ rest

unfoldable pub literal : Text → Text
unfolding escape
literal s = b'\'' ∷ (escape s ++ b'\'' ∷ [])

-- One space for each character that is no single quote.
pub blanks : Text → Text
blanks [] = []
blanks (c ∷ s) = let rest = blanks s in if nat_eqb c b'\'' then rest else 32 ∷ rest

strip_inside :
    (s rest : Text)
    → starts_with_unit b'\'' rest ≡ false
    → strip_from true false false (escape s ++ b'\'' ∷ rest)
      ≡ blanks s ++ 32 ∷ strip_from false false false rest
unfolding strip_from escape blanks
strip_inside [] rest h = ground arith
strip_inside (c ∷ s) rest h = ground (arith, strip_inside s rest h)

abbrev pub IsQuote : ℕ → Type 0
IsQuote c = (c ≡ b'\'') ⊎ (c ≡ b'"')

plain : (c : ℕ) → ¬ (IsQuote c) → (nat_eqb c b'\'' ≡ false) × (nat_eqb c b'"' ≡ false)
plain c h = elim (Bool-cases (nat_eqb c b'\'')) [
  | inl e ↦ absurd (h (inl (ground arith)))
  | inr e ↦ elim (Bool-cases (nat_eqb c b'"')) [
    | inl f ↦ absurd (h (inr (ground arith)))
    | inr f ↦ (e, f)
  ]
]

strip_outside :
    (s rest : Text)
    → All (λ c. ¬ (IsQuote c)) s
    → strip_from false false false (s ++ rest) ≡ s ++ strip_from false false false rest
unfolding strip_from
strip_outside [] rest h = refl
strip_outside (c ∷ s) rest (h, hs) = ground (arith, strip_outside s rest hs, plain c h)

strip_literal :
    (content after : Text)
    → starts_with_unit b'\'' after ≡ false
    → strip_from false false false (literal content ++ after)
      ≡ 32 ∷ (blanks content ++ 32 ∷ strip_from false false false after)
unfolding strip_from literal
strip_literal content after k =
    ap (λ t. 32 ∷ strip_from true false false t) (append_assoc (escape content) (b'\'' ∷ []) after)
    ∙ ap (λ t. 32 ∷ t) (strip_inside content after k)

-- Behind text with no quotes a string literal is blanked out, whatever its content: nothing of the
-- content is left but spaces, and what follows the literal is read as outside of quotes, if no
-- single quote follows at once.
pub strip_quoted_content-literal :
    (before content after : Text)
    → All (λ c. ¬ (IsQuote c)) before
    → starts_with_unit b'\'' after ≡ false
    → strip_quoted_content (before ++ (literal content ++ after))
      ≡ before ++ (32 ∷ (blanks content ++ 32 ∷ strip_quoted_content after))
unfolding strip_quoted_content literal
strip_quoted_content-literal before content after h k =
    strip_outside before _ h ∙ ap (λ t. before ++ t) (strip_literal content after k)
