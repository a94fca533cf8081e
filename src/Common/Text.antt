-- ===== src/Common/Text.antt =====
-- A whole number as the text that a template literal makes of it, and the search in texts.
use Prim.Native.Nat.{ℕ, zero, suc, ◌/◌, ◌%◌}
use Prim.Native.String.{String, ◌++◌}
use mathlib.Core.Path.{◌≡◌, refl, sym, ap, ◌∙◌}
use mathlib.Core.Logic.{◌↔◌, inl, inr}
use mathlib.Core.Bool.{Bool, true, ◌||◌}
use text.Mathlib.Text.{starts_with}
use text.Mathlib.TextEquality.{starts_with_iff}
use text.Mathlib.TextLemmas.{cons-ne-nil}
use Prim.Native.String.append
use native.Mathlib.Omega.{arith}
use agent_p.Common.Tests.{ltb, Bool-cases, if◌then◌else◌}

digit : ℕ → String
digit zero = "0"
digit (suc zero) = "1"
digit (suc (suc zero)) = "2"
digit (suc (suc (suc zero))) = "3"
digit (suc (suc (suc (suc zero)))) = "4"
digit (suc (suc (suc (suc (suc zero))))) = "5"
digit (suc (suc (suc (suc (suc (suc zero)))))) = "6"
digit (suc (suc (suc (suc (suc (suc (suc zero))))))) = "7"
digit (suc (suc (suc (suc (suc (suc (suc (suc zero)))))))) = "8"
digit _ = "9"

-- A number has fewer digits than its value plus one, which is the fuel.
digits_of : ℕ → ℕ → String
unfolding digit
digits_of zero n = digit n
digits_of (suc fuel) n =
    let longer = digits_of fuel (n / 10) ++ digit (n % 10) in if ltb n 10 then digit n else longer

unfoldable pub show : ℕ → String
unfolding digits_of
show n = digits_of n n

shows_decimal : show 1074 ≡ "1074"
unfolding show
shows_decimal = refl

-- `s.includes(p)`
unfoldable pub contains : String → String → Bool
contains String.[] p = starts_with String.[] p
contains (String.◌∷◌ c s) p = starts_with (String.◌∷◌ c s) p || contains s p

-- The text `p` stands somewhere in `s`.
abbrev pub Occurs : String → String → Type 0
Occurs p s = (a : String) × (b : String) × (s ≡ a ++ (p ++ b))

starts_with-Occurs : (p s : String) → starts_with s p ≡ true → Occurs p s
starts_with-Occurs p s h =
    let at = (starts_with_iff s p).0 h in ("", at.0, sym at.1 ∙ sym (append.nil (p ++ at.0)))

begins : (p s b : String) → s ≡ "" ++ (p ++ b) → starts_with s p ≡ true
begins p s b e = (starts_with_iff s p).1 (b, sym (e ∙ append.nil (p ++ b)))

Occurs-contains : (p s a b : String) → s ≡ a ++ (p ++ b) → contains s p ≡ true
unfolding contains
Occurs-contains p String.[] String.[] b e = begins p String.[] b e
Occurs-contains p (String.◌∷◌ c s) String.[] b e =
    let h = begins p (String.◌∷◌ c s) b e in ground arith
Occurs-contains p String.[] (String.◌∷◌ d a) b e =
    absurd (cons-ne-nil d (a ++ (p ++ b)) (sym (e ∙ append.cons d a (p ++ b))))
Occurs-contains p (String.◌∷◌ c s) (String.◌∷◌ d a) b e =
    let same = e ∙ append.cons d a (p ++ b) in
    let rest : s ≡ a ++ (p ++ b) = cc in let h = Occurs-contains p s a b rest in ground arith

contains-Occurs : (p s : String) → contains s p ≡ true → Occurs p s
unfolding contains
contains-Occurs p String.[] h = starts_with-Occurs p String.[] h
contains-Occurs p (String.◌∷◌ c s) h = elim (Bool-cases (starts_with (String.◌∷◌ c s) p)) [
  | inl e ↦ starts_with-Occurs p (String.◌∷◌ c s) e
  | inr e ↦
      let (a, b, same) = contains-Occurs p s (rw e at h) in
      (String.◌∷◌ c a, b, ap (λ (t : String). String.◌∷◌ c t) same ∙ sym (append.cons c a (p ++ b)))
]

-- The test finds exactly the texts that occur.
pub contains_iff : (s p : String) → (contains s p ≡ true) ↔ Occurs p s
contains_iff s p = (contains-Occurs p s, λ o. Occurs-contains p s o.0 o.1 o.2)
