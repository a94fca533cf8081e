-- ===== src/Agents/Handoffs/Path.antt =====
-- The chain of handoffs of a quality path.
use agent_p.Common.{
  ◌≡◌, refl, Option, none, some, Bool, true, String, List, [], ◌∷◌, ◌++◌, arith, or_else, or_field,
  if◌then◌else◌, All,
}
use agent_p.Agents.Types.{AgentRole, tester, reviewer, verifier, Handoff, PlanningRequest}
use agent_p.Agents.Handoffs.{Office, compose_stages, compose_quality_path}

-- Each handoff is the child of the one before it, and the first is the child of `parent`.
abbrev pub Chained : Option String → List Handoff → Type 0
Chained parent [] = Unit
Chained parent (h ∷ hs) = (h.parent_handoff_id ≡ parent) × Chained (some h.handoff_id) hs

abbrev pub roles : List Handoff → List AgentRole
roles [] = []
roles (h ∷ hs) = h.to ∷ roles hs

abbrev only : Bool → AgentRole → List AgentRole
only b r = if b then r ∷ [] else []

or_field_self : (parent : Option String) → or_field parent parent ≡ parent
or_field_self none = refl
or_field_self (some p) = refl

stages_lem :
    {World : Type 0} (office : Office World) (r : PlanningRequest) (t v c : Bool) (w : World)
    → let hs = (compose_stages office r t v c w).0 in
      (roles hs ≡ only t tester ++ (only v reviewer ++ only c verifier))
      × Chained r.parent_handoff_id hs
unfolding compose_stages
stages_lem office r true true true w = ground (arith, or_field_self r.parent_handoff_id)
stages_lem office r _ _ _ w = ground (arith, or_field_self r.parent_handoff_id)

stages_one_id :
    {World : Type 0} (office : Office World) (r : PlanningRequest) (t v c : Bool) (w : World)
    {name : String}
    → r.handoff_id ≡ some name
    → All (λ h. h.handoff_id ≡ name) (compose_stages office r t v c w).0
unfolding compose_stages
stages_one_id office r true true true w h = ground arith
stages_one_id office r _ _ _ w h = ground arith

-- The handoffs of a quality path go to the tester, the reviewer and the verifier, in this order and
-- without those that the policy leaves out; the first is a child of the request's parent, and each
-- other one a child of the one before it.
pub compose_quality_path_lem :
    {World : Type 0} (office : Office World) (r : PlanningRequest) (t v c : Option Bool) (w : World)
    → let hs = (compose_quality_path office r t v c w).0 in
      (roles hs
        ≡ only (or_else t true) tester
          ++ (only (or_else v true) reviewer ++ only (or_else c true) verifier))
      × Chained r.parent_handoff_id hs
unfolding compose_quality_path
compose_quality_path_lem office r t v c w =
    stages_lem office r (or_else t true) (or_else v true) (or_else c true) w

-- Where the request names a handoff id, every handoff of the path has that id.
pub compose_quality_path-one_id :
    {World : Type 0} (office : Office World) (r : PlanningRequest) (t v c : Option Bool) (w : World)
    {name : String}
    → r.handoff_id ≡ some name
    → All (λ h. h.handoff_id ≡ name) (compose_quality_path office r t v c w).0
unfolding compose_quality_path
compose_quality_path-one_id office r t v c w h =
    stages_one_id office r (or_else t true) (or_else v true) (or_else c true) w h
