-- ===== src/Common/Tests.antt =====
-- Boolean tests on numbers, the conditional, equality as an interface, and results.
use Prim.Native.Nat.{ℕ, compare, Ordering}
use Prim.Native.String.{String}
use mathlib.Core.Path.{◌≡◌, refl}
use mathlib.Core.Logic.{◌↔◌, ◌⊎◌, inl, inr}
use mathlib.Core.Bool.{Bool, true, false}
use mathlib.Core.Option.{Option, none, some}
use native.Mathlib.Omega.{arith}
use text.Mathlib.Text.{◌==◌ as str_eq}
use text.Mathlib.TextEquality.{eq_iff}

abbrev pub ltb : ℕ → ℕ → Bool
ltb a b = elim (compare a b) [ Ordering.lt ↦ true | _ ↦ false ]

abbrev pub leb : ℕ → ℕ → Bool
leb a b = elim (compare a b) [ Ordering.gt ↦ false | _ ↦ true ]

abbrev pub nat_eqb : ℕ → ℕ → Bool
nat_eqb a b = elim (compare a b) [ Ordering.eq ↦ true | _ ↦ false ]

pub nat_eqb_iff : (a b : ℕ) → (nat_eqb a b ≡ true) ↔ (a ≡ b)
nat_eqb_iff a b = ground arith

infix 1 if◌then◌else◌
abbrev pub if◌then◌else◌ {ℓ} : {A : Type ℓ} → Bool → A → A → A
if true then x else y = x
if false then x else y = y

pub Bool-cases : (b : Bool) → (b ≡ true) ⊎ (b ≡ false)
Bool-cases true = inl refl
Bool-cases false = inr refl

pub Option-cases {ℓ} : {A : Type ℓ} (o : Option A) → ((a : A) × (o ≡ some a)) ⊎ (o ≡ none)
Option-cases none = inr refl
Option-cases (some a) = inl (a, refl)

-- What holds of both branches holds of the conditional.
pub if_both {ℓ κ} :
    {A : Type ℓ} (P : A → Type κ) (b : Bool) (x y : A) → P x → P y → P (if b then x else y)
if_both P true x y h k = h
if_both P false x y h k = k

-- `a ?? b`, and a field that is spread in only if it is there.
abbrev pub or_else {ℓ} : {A : Type ℓ} → Option A → A → A
or_else none b = b
or_else (some a) b = a

-- `{ ...old, ...(a !== undefined ? { a } : {}) }` at the field `a`.
abbrev pub or_field {ℓ} : {A : Type ℓ} → Option A → Option A → Option A
or_field none old = old
or_field (some a) old = some a

-- A test of equality: it never errs on equal values, and holds of no others.
pub record Eq {ℓ} (T : Type ℓ) : Type ℓ where
  pub same : T → T → Bool
  pub accepts : {x y : T} → x ≡ y → same x y ≡ true
  pub only_accepts : {x y : T} → same x y ≡ true → x ≡ y

-- The interface from a test that decides equality.
abbrev pub decided_by {ℓ} :
    {T : Type ℓ} (test : T → T → Bool) → ((x y : T) → (test x y ≡ true) ↔ (x ≡ y)) → Eq T
decided_by test decides = record {
  same = test;
  accepts = λ {x} {y}. (decides x y).1;
  only_accepts = λ {x} {y}. (decides x y).0;
}

instance abbrev pub string_eq : Eq String
string_eq = decided_by str_eq eq_iff

instance abbrev pub nat_eq : Eq ℕ
nat_eq = decided_by nat_eqb nat_eqb_iff

module _ {ℓ} {T : Type ℓ} ⦃tested : Eq T⦄ where
  -- `===` on strings, numbers and enumerations.
  infix 50 ◌==◌
  abbrev pub ◌==◌ : T → T → Bool
  x == y = tested.same x y

  pub ==_iff : (x y : T) → (x == y ≡ true) ↔ (x ≡ y)
  ==_iff x y = (tested.only_accepts, tested.accepts)

  pub ==_self : (x : T) → x == x ≡ true
  ==_self x = tested.accepts refl

-- A value, or the message of the error that was thrown.
pub data Result {ℓ} (A : Type ℓ) : Type ℓ where
  ok : A → Result A
  err : String → Result A

pub Result-cases {ℓ} :
    {A : Type ℓ} (r : Result A) → ((a : A) × (r ≡ ok a)) ⊎ ((m : String) × (r ≡ err m))
Result-cases (ok a) = inl (a, refl)
Result-cases (err m) = inr (m, refl)
