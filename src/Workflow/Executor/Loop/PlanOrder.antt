-- ===== src/Workflow/Executor/Loop/PlanOrder.antt =====
-- Phases whose orders rise, results outside of them, and where the loop stops.
use Prim.Native.Nat.{◌<◌}
use agent_p.Common.{
  ℕ, ◌≡◌, refl, ap, ◌∙◌, ◌⊎◌, inl, inr, String, some, true, false, List, [], ◌∷◌, ◌++◌, nat_eqb,
  nat_eq, includes, All, All-behind, arith,
}
use agent_p.Common.Sorted.{Increasing, Increasing-above}
use agent_p.Workflow.Types.{PhasePlan, PhaseResult}
use agent_p.Workflow.Results.{result_at, completed_result, is_completed}
use agent_p.Workflow.Results.Progress.{IsDone, orders}
use agent_p.Workflow.Executor.State.{Run, Outcome, next, stop, thrown}
use agent_p.Workflow.Executor.Loop.Rounds.{Writes}

-- The orders of the phases rise, as in the sorted copy that the loop walks over.
abbrev pub InPlanOrder : List PhasePlan → Type 0
InPlanOrder = Increasing (λ (p : PhasePlan). p.order)

-- Outside the orders of the phases `ps` both results are the same.
abbrev pub SameOutside : List PhasePlan → List PhaseResult → List PhaseResult → Type 0
SameOutside ps rs rs' = (k : ℕ) → includes (orders ps) k ≡ false → result_at k rs' ≡ result_at k rs

pub Outcome-cases :
    {World : Type 0} (o : Outcome World)
    → ((t : Run World) × (o ≡ next t))
      ⊎ (((t : Run World) × (o ≡ stop t)) ⊎ ((m : String) × (t : Run World) × (o ≡ thrown m t)))
Outcome-cases (next t) = inl (t, refl)
Outcome-cases (stop t) = inr (inl (t, refl))
Outcome-cases (thrown m t) = inr (inr (m, t, refl))

above_excludes :
    (n : ℕ) (ps : List PhasePlan)
    → All (λ (q : PhasePlan). n < q.order) ps
    → includes (orders ps) n ≡ false
unfolding includes
above_excludes n [] h = refl
above_excludes n (p ∷ ps) h = ground (arith, above_excludes n ps h.1)

pub later_excludes :
    (p : PhasePlan) (ps : List PhasePlan)
    → InPlanOrder (p ∷ ps)
    → includes (orders ps) p.order ≡ false
later_excludes p ps h =
    above_excludes p.order ps (Increasing-above (λ (q : PhasePlan). q.order) p ps h)

pub SameOutside-cons :
    (p : PhasePlan) (ps : List PhasePlan) (rs rs' rs'' : List PhaseResult)
    → Writes p.order rs rs'
    → SameOutside ps rs' rs''
    → SameOutside (p ∷ ps) rs rs''
unfolding includes
SameOutside-cons p ps rs rs' rs'' w f k out = f k (ground arith) ∙ w.others k (ground arith)

pub next_injective : {World : Type 0} (s t : Run World) → next s ≡ next t → s ≡ t
next_injective s t h = cc

pub stop_injective : {World : Type 0} (s t : Run World) → stop s ≡ stop t → s ≡ t
stop_injective s t h = cc

-- The loop over `ps` was left at the phase `failed`, with the results `rs'`.
pub record StopsAt (ps : List PhasePlan) (rs rs' : List PhaseResult) : Type 0 where
  pub done : List PhasePlan
  pub failed : PhasePlan
  pub later : List PhasePlan
  pub split : ps ≡ done ++ failed ∷ later
  pub all_done : All (IsDone rs') done
  pub result : PhaseResult
  pub found : result_at failed.order rs' ≡ some result
  pub not_done : is_completed result.status ≡ false
  pub untouched : All (λ q. result_at q.order rs' ≡ result_at q.order rs) later

-- Results that differ at the order `n` alone agree at the phases of larger orders.
agree_above :
    (n : ℕ) (rs rs' : List PhaseResult) (ps : List PhasePlan)
    → Writes n rs rs'
    → All (λ (q : PhasePlan). n < q.order) ps
    → All (λ q. result_at q.order rs' ≡ result_at q.order rs) ps
agree_above n rs rs' [] w h = tt
agree_above n rs rs' (p ∷ ps) w (lt, h) =
    (w.others p.order (ground arith), agree_above n rs rs' ps w h)

pub StopsAt-here :
    (p : PhasePlan) (ps : List PhasePlan) (rs rs' : List PhaseResult)
    → Writes p.order rs rs'
    → InPlanOrder (p ∷ ps)
    → completed_result (result_at p.order rs') ≡ false
    → StopsAt (p ∷ ps) rs rs'
StopsAt-here p ps rs rs' w inc f = record {
  done = [];
  failed = p;
  later = ps;
  split = refl;
  all_done = tt;
  result = w.written.0;
  found = w.written.1;
  not_done = rw w.written.1 at f;
  untouched =
      agree_above p.order rs rs' ps w (Increasing-above (λ (q : PhasePlan). q.order) p ps inc);
}

agree_trans :
    (rs rs' rs'' : List PhaseResult) (ps : List PhasePlan)
    → All (λ q. result_at q.order rs' ≡ result_at q.order rs) ps
    → All (λ q. result_at q.order rs'' ≡ result_at q.order rs') ps
    → All (λ q. result_at q.order rs'' ≡ result_at q.order rs) ps
agree_trans rs rs' rs'' [] h k = tt
agree_trans rs rs' rs'' (p ∷ ps) h k = (k.0 ∙ h.0, agree_trans rs rs' rs'' ps h.1 k.1)

pub StopsAt-cons :
    (p : PhasePlan) (ps : List PhasePlan) (rs rs' rs'' : List PhaseResult)
    → Writes p.order rs rs'
    → InPlanOrder (p ∷ ps)
    → completed_result (result_at p.order rs'') ≡ true
    → StopsAt ps rs' rs''
    → StopsAt (p ∷ ps) rs rs''
StopsAt-cons p ps rs rs' rs'' w inc here at =
    let above = Increasing-above (λ (q : PhasePlan). q.order) p ps inc in
    let behind =
      All-behind (λ (q : PhasePlan). p.order < q.order) at.done at.failed at.later
        (rw at.split at above) in
    record {
      done = p ∷ at.done;
      failed = at.failed;
      later = at.later;
      split = ap (λ l. p ∷ l) at.split;
      all_done = (here, at.all_done);
      result = at.result;
      found = at.found;
      not_done = at.not_done;
      untouched =
          agree_trans rs rs' rs'' at.later (agree_above p.order rs rs' at.later w behind)
            at.untouched;
    }

pub not_head :
    (p : PhasePlan) (ps : List PhasePlan) (k : ℕ)
    → includes (orders (p ∷ ps)) k ≡ false
    → nat_eqb p.order k ≡ false
unfolding includes
not_head p ps k h = ground arith
