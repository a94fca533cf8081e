-- ===== src/Common/Sorted.antt =====
-- Stable sorting by a number, as `Array.prototype.sort` with `left.k - right.k` does it, and lists
-- whose numbers strictly rise, which are maps from those numbers.
use Prim.Native.Nat.{ℕ, ◌<◌}
use mathlib.Core.Path.{◌≡◌, refl}
use mathlib.Core.Option.{Option, some}
use mathlib.Core.List.{List, [], ◌∷◌}
use native.Mathlib.Omega.{arith}
use agent_p.Common.Tests.{leb, ltb, nat_eqb, if◌then◌else◌}
use agent_p.Common.Lists.{All, All-map, All-both, find}

module _ {ℓ} {A : Type ℓ} (key : A → ℕ) where
  unfoldable pub insert_by : A → List A → List A
  insert_by x [] = x ∷ []
  insert_by x (y ∷ ys) =
      let rest = insert_by x ys in if leb (key x) (key y) then x ∷ y ∷ ys else y ∷ rest

  unfoldable pub sort_by : List A → List A
  unfolding insert_by
  sort_by [] = []
  sort_by (x ∷ xs) = insert_by x (sort_by xs)

  -- Every element has a larger number than the ones before it.
  abbrev pub Increasing : List A → Type 0
  Increasing [] = Unit
  Increasing (x ∷ []) = Unit
  Increasing (x ∷ y ∷ ys) = (key x < key y) × Increasing (y ∷ ys)

  pub Increasing-tail : (x : A) (xs : List A) → Increasing (x ∷ xs) → Increasing xs
  Increasing-tail x [] h = tt
  Increasing-tail x (y ∷ ys) h = h.1

  -- The elements behind the first have larger numbers.
  pub Increasing-above : (x : A) (xs : List A) → Increasing (x ∷ xs) → All (λ y. key x < key y) xs
  Increasing-above x [] h = tt
  Increasing-above x (y ∷ ys) (lt, h) =
      (lt, All-map ys (λ z k. omega arith) (Increasing-above y ys h))

  pub insert_by_front : (x : A) (xs : List A) → Increasing (x ∷ xs) → insert_by x xs ≡ x ∷ xs
  unfolding insert_by
  insert_by_front x [] h = refl
  insert_by_front x (y ∷ ys) h = ground arith

  -- A list that rises is sorted.
  pub sort_by_of_Increasing : (xs : List A) → Increasing xs → sort_by xs ≡ xs
  unfolding sort_by
  sort_by_of_Increasing [] h = refl
  sort_by_of_Increasing (x ∷ xs) h =
      rw (sort_by_of_Increasing xs (Increasing-tail x xs h)) (insert_by_front x xs h)

  -- The element with the number `n`.
  abbrev pub at_key : ℕ → List A → Option A
  at_key n xs = find (λ x. nat_eqb (key x) n) xs

  -- Put an element at its number, in place of the one that is there.
  unfoldable pub place : A → List A → List A
  place x [] = x ∷ []
  place x (y ∷ ys) =
      let rest = place x ys in
      if nat_eqb (key y) (key x)
      then x ∷ ys
      else if ltb (key x) (key y)
      then x ∷ y ∷ ys
      else y ∷ rest

  pub Increasing-place_after :
      (w x : A) (ys : List A) → key w < key x → Increasing (w ∷ ys) → Increasing (w ∷ place x ys)
  unfolding place
  Increasing-place_after w x [] h k = (h, tt)
  Increasing-place_after w x (y ∷ []) h k = ground (arith, Increasing-place_after y x [])
  Increasing-place_after w x (y ∷ z ∷ zs) h k = ground (arith, Increasing-place_after y x (z ∷ zs))

  pub Increasing-place : (x : A) (xs : List A) → Increasing xs → Increasing (place x xs)
  unfolding place
  Increasing-place x [] h = tt
  Increasing-place x (y ∷ []) h = ground (arith, Increasing-place_after y x [])
  Increasing-place x (y ∷ z ∷ zs) h = ground (arith, Increasing-place_after y x (z ∷ zs))

  -- Looking up after a `place`: a map law.
  pub at_key-place :
      (n : ℕ) (x : A) (xs : List A)
      → Increasing xs
      → at_key n (place x xs) ≡ (if nat_eqb (key x) n then some x else at_key n xs)
  unfolding place find
  at_key-place n x [] h = refl
  at_key-place n x (y ∷ ys) h = ground (arith, at_key-place n x ys (Increasing-tail y ys h))

  -- In a rising list every element is found at its number.
  pub at_key_self : (xs : List A) → Increasing xs → All (λ x. at_key (key x) xs ≡ some x) xs
  unfolding find
  at_key_self [] h = tt
  at_key_self (x ∷ xs) h = (
    ground arith,
    All-map xs (λ y k. ground (arith, k.0, k.1))
        (All-both (λ y. key x < key y) (λ y. at_key (key y) xs ≡ some y) xs
          (Increasing-above x xs h) (at_key_self xs (Increasing-tail x xs h))),
  )
