-- ===== src/Workflow/Results/Ordering.antt =====
-- The results of phases are a map from orders: `upsertPhaseResult` is a `place` in a rising list.
use Prim.Native.Nat.{◌<◌}
use agent_p.Common.{ℕ, ◌≡◌, refl, ◌⊎◌, inl, inr, some, List, [], ◌∷◌, if◌then◌else◌, nat_eqb, arith}
use agent_p.Common.Sorted.{
  Increasing, Increasing-tail, Increasing-place, Increasing-place_after, place, at_key-place,
  sort_by, sort_by_of_Increasing, insert_by, insert_by_front,
}
use agent_p.Workflow.Types.{PhaseResult}
use agent_p.Workflow.Results.{order_of, result_at, replace_or_push, upsert_phase_result}

-- The results stand in the order of the phases, at most one for each order.
abbrev pub InOrder : List PhaseResult → Type 0
InOrder = Increasing order_of

order_cases : (a b : ℕ) → (a < b) ⊎ ((a ≡ b) ⊎ (b < a))
order_cases a b = grind arith

Increasing_replaced :
    (new r : PhaseResult) (rs : List PhaseResult)
    → r.order ≡ new.order
    → InOrder (r ∷ rs)
    → InOrder (new ∷ rs)
Increasing_replaced new r [] e h = tt
Increasing_replaced new r (q ∷ qs) e h = ground arith

place_front :
    (new r : PhaseResult) (rs : List PhaseResult)
    → new.order < r.order
    → InOrder (r ∷ rs)
    → place order_of new rs ≡ new ∷ rs
unfolding place
place_front new r [] e h = refl
place_front new r (q ∷ qs) e h = ground arith

insert_behind :
    (new r : PhaseResult) (rs : List PhaseResult)
    → new.order < r.order
    → InOrder (r ∷ rs)
    → insert_by order_of r (new ∷ rs) ≡ new ∷ r ∷ rs
unfolding insert_by
insert_behind new r rs e h = ground (arith, insert_by_front order_of r rs h)

-- Sorting what `replace_or_push` leaves of a rising list puts the new result in its place.
sort_replaced :
    (new : PhaseResult) (rs : List PhaseResult)
    → InOrder rs
    → sort_by order_of (replace_or_push new rs) ≡ place order_of new rs
unfolding replace_or_push place sort_by
sort_replaced new [] h = refl
sort_replaced new (r ∷ rs) h = elim (order_cases r.order new.order) [
  | inl lt ↦ ground (
    arith,
    sort_replaced new rs (Increasing-tail order_of r rs h),
    insert_by_front order_of r (place order_of new rs)
        (Increasing-place_after order_of r new rs lt h),
  )
  | inr (inl eq) ↦
      ground (arith, sort_by_of_Increasing order_of (new ∷ rs) (Increasing_replaced new r rs eq h))
  | inr (inr gt) ↦ ground (
    arith,
    sort_replaced new rs (Increasing-tail order_of r rs h),
    place_front new r rs gt h,
    insert_behind new r rs gt h,
  )
]

upsert-place :
    (rs : List PhaseResult) (new : PhaseResult)
    → InOrder rs
    → upsert_phase_result rs new ≡ place order_of new rs
unfolding upsert_phase_result
upsert-place rs new h = sort_replaced new rs h

-- Over results that stand in the order of their phases, at most one for each, an upsert leaves such
-- results again, and is the update of a map: at the order of the new result it finds the new
-- result, and at every other order what was there.
pub upsert_phase_result_lem :
    (rs : List PhaseResult) (new : PhaseResult)
    → InOrder rs
    → InOrder (upsert_phase_result rs new)
      × ((n : ℕ)
          → result_at n (upsert_phase_result rs new)
            ≡ (if nat_eqb new.order n then some new else result_at n rs))
upsert_phase_result_lem rs new h =
    rw (upsert-place rs new h)
      (Increasing-place order_of new rs h, λ n. at_key-place order_of n new rs h)
