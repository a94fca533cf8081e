-- ===== src/Common/Lists.antt =====
-- Lists over the native numbers, sets of strings in order of insertion, and predicates on lists.
use Prim.Native.Nat.{ℕ, zero, suc, ◌+◌, ◌≤◌}
use mathlib.Core.Path.{◌≡◌, refl}
use mathlib.Core.Logic.{inl, inr}
use mathlib.Core.Bool.{Bool, true, false, ◌&&◌, ◌||◌}
use mathlib.Core.Option.{Option, none, some}
use mathlib.Core.List.{List, [], ◌∷◌, ◌++◌, Memᴰ}
use native.Mathlib.Omega.{arith}
use agent_p.Common.Tests.{Eq, ◌==◌, ==_iff, if◌then◌else◌, Bool-cases}

module _ {ℓ} {A : Type ℓ} where
  abbrev pub length : List A → ℕ
  length [] = 0
  length (x ∷ xs) = suc (length xs)

  pub length-append : (xs ys : List A) → length (xs ++ ys) ≡ length xs + length ys
  length-append [] ys = omega arith
  length-append (x ∷ xs) ys = omega (arith, length-append xs ys)

  -- `xs.filter(p)`
  unfoldable pub keep_if : (A → Bool) → List A → List A
  keep_if p [] = []
  keep_if p (x ∷ xs) = let rest = keep_if p xs in if p x then x ∷ rest else rest

  -- `xs.find(p)`
  unfoldable pub find : (A → Bool) → List A → Option A
  find p [] = none
  find p (x ∷ xs) = let rest = find p xs in if p x then some x else rest

  -- `xs.some(p)` and `xs.every(p)`
  abbrev pub any : (A → Bool) → List A → Bool
  any p [] = false
  any p (x ∷ xs) = p x || any p xs

  abbrev pub all : (A → Bool) → List A → Bool
  all p [] = true
  all p (x ∷ xs) = p x && all p xs

  -- `xs.slice(0, n)`
  abbrev pub take : ℕ → List A → List A
  take zero xs = []
  take (suc n) [] = []
  take (suc n) (x ∷ xs) = x ∷ take n xs

  pub length-take : (n : ℕ) (xs : List A) → length (take n xs) ≤ n
  length-take zero xs = omega arith
  length-take (suc n) [] = omega arith
  length-take (suc n) (x ∷ xs) = omega (arith, length-take n xs)

  abbrev pub All {κ} : (A → Type κ) → List A → Type κ
  All P [] = Unit
  All P (x ∷ xs) = P x × All P xs

  pub All-map {κ μ} :
      {P : A → Type κ} {Q : A → Type μ} (xs : List A) → ((x : A) → P x → Q x) → All P xs → All Q xs
  All-map [] f h = tt
  All-map (x ∷ xs) f (p, h) = (f x p, All-map xs f h)

  pub All-both {κ μ} :
      (P : A → Type κ) (Q : A → Type μ) (xs : List A)
      → All P xs
      → All Q xs
      → All (λ x. P x × Q x) xs
  All-both P Q [] h k = tt
  All-both P Q (x ∷ xs) (p, h) (q, k) = ((p, q), All-both P Q xs h k)

  pub All-middle {κ} :
      (P : A → Type κ) (xs : List A) (y : A) (ys : List A) → All P (xs ++ y ∷ ys) → P y
  All-middle P [] y ys h = h.0
  All-middle P (x ∷ xs) y ys h = All-middle P xs y ys h.1

  pub All-behind {κ} :
      (P : A → Type κ) (xs : List A) (y : A) (ys : List A) → All P (xs ++ y ∷ ys) → All P ys
  All-behind P [] y ys h = h.1
  All-behind P (x ∷ xs) y ys h = All-behind P xs y ys h.1

  pub All-append {κ} : (P : A → Type κ) (xs ys : List A) → All P xs → All P ys → All P (xs ++ ys)
  All-append P [] ys h k = k
  All-append P (x ∷ xs) ys (p, h) k = (p, All-append P xs ys h k)

  pub All-keep_if {κ} :
      (P : A → Type κ) (p : A → Bool) (xs : List A) → All P xs → All P (keep_if p xs)
  unfolding keep_if
  All-keep_if P p [] h = tt
  All-keep_if P p (x ∷ xs) (q, h) = elim (Bool-cases (p x)) [
    | inl e ↦ rw e (q, All-keep_if P p xs h)
    | inr e ↦ rw e (All-keep_if P p xs h)
  ]

  pub All-take {κ} : (P : A → Type κ) (n : ℕ) (xs : List A) → All P xs → All P (take n xs)
  All-take P zero xs h = tt
  All-take P (suc n) [] h = tt
  All-take P (suc n) (x ∷ xs) (p, h) = (p, All-take P n xs h)

  -- What is kept passes the test.
  pub keep_if_passes : (p : A → Bool) (xs : List A) → All (λ x. p x ≡ true) (keep_if p xs)
  unfolding keep_if
  keep_if_passes p [] = tt
  keep_if_passes p (x ∷ xs) = elim (Bool-cases (p x)) [
    | inl e ↦ rw e (e, keep_if_passes p xs)
    | inr e ↦ rw e (keep_if_passes p xs)
  ]

  pub keep_if_none : (p : A → Bool) (xs : List A) → All (λ x. p x ≡ false) xs → keep_if p xs ≡ []
  unfolding keep_if
  keep_if_none p [] h = refl
  keep_if_none p (x ∷ xs) (e, h) = rw e (keep_if_none p xs h)

  pub keep_if-All {κ} :
      (P : A → Type κ) (p : A → Bool) (xs : List A)
      → All P (keep_if p xs)
      → All (λ x. p x ≡ true → P x) xs
  unfolding keep_if
  keep_if-All P p [] h = tt
  keep_if-All P p (x ∷ xs) h = elim (Bool-cases (p x)) [
    | inl e ↦ let k = rw e at h in ((λ t. k.0), keep_if-All P p xs k.1)
    | inr e ↦ let k = rw e at h in ((λ t. cc), keep_if-All P p xs k)
  ]

  pub any-mem : (p : A → Bool) (xs : List A) → any p xs ≡ true → (x : A) × Memᴰ x xs × (p x ≡ true)
  any-mem p [] h = cc
  any-mem p (x ∷ xs) h = elim (Bool-cases (p x)) [
    | inl e ↦ (x, Memᴰ.head refl, e)
    | inr e ↦ let (y, m, k) = any-mem p xs (rw e at h) in (y, Memᴰ.tail m, k)
  ]

  pub mem-any : (p : A → Bool) (xs : List A) (x : A) → Memᴰ x xs → p x ≡ true → any p xs ≡ true
  mem-any p [] x m h = elim m [ ]
  mem-any p (y ∷ ys) x (Memᴰ.head e) h = let k = rw e at h in ground arith
  mem-any p (y ∷ ys) x (Memᴰ.tail m) h = let k = mem-any p ys x m h in ground arith

  pub All-self : (xs : List A) → All (λ x. Memᴰ x xs) xs
  All-self [] = tt
  All-self (x ∷ xs) = (Memᴰ.head refl, All-map xs (λ y m. Memᴰ.tail m) (All-self xs))

module _ {ℓ} {A : Type ℓ} ⦃e : Eq A⦄ where
  -- `xs.includes(a)`, `new Set(xs).has(a)`
  unfoldable pub includes : List A → A → Bool
  includes [] a = false
  includes (x ∷ xs) a = a == x || includes xs a

  pub includes-mem : (xs : List A) (a : A) → includes xs a ≡ true → Memᴰ a xs
  unfolding includes
  includes-mem (x ∷ xs) a h = elim (Bool-cases (a == x)) [
    | inl same ↦ Memᴰ.head ((==_iff a x).0 same)
    | inr other ↦ Memᴰ.tail (includes-mem xs a (ground arith))
  ]
  includes-mem [] a h = cc

  pub mem-includes : (xs : List A) (a : A) → Memᴰ a xs → includes xs a ≡ true
  unfolding includes
  mem-includes (x ∷ xs) a (Memᴰ.head p) = rw ((==_iff a x).1 p)
  mem-includes (x ∷ xs) a (Memᴰ.tail m) = ground (arith, mem-includes xs a m)
  mem-includes [] a m = elim m [ ]

  -- The rest of a walk of `Array.from(new Set(values))`, with the values met so far.
  unfoldable pub dedupe_after : List A → List A → List A
  unfolding includes
  dedupe_after seen [] = []
  dedupe_after seen (x ∷ xs) =
      let again = dedupe_after seen xs in
      let fresh = x ∷ dedupe_after (x ∷ seen) xs in if includes seen x then again else fresh

  -- `Array.from(new Set(values))`
  unfoldable pub dedupe : List A → List A
  unfolding dedupe_after
  dedupe xs = dedupe_after [] xs
