-- ===== src/Hooks/Policy/Permission.antt =====
-- What `evaluatePreToolUse` decides (src/hooks/policy.ts), against a table of rules.
use mathlib.Core.List.{Memᴰ}
use Prim.Native.Nat.{◌/◌}
use agent_p.Common.{
  ℕ, ◌≤◌, ◌≡◌, refl, sym, ◌∙◌, ◌↔◌, ◌⊎◌, inl, inr, String, Option, none, some, Bool, true, false,
  ◌&&◌, List, leb, ◌==◌, ==_iff, string_eq, any-mem, mem-any, if◌then◌else◌, arith,
}
use agent_p.Agents.Quality.Types.{one}
use agent_p.Hooks.Types.{
  HookMode, enforce, dry_run, PermissionDecision, PreToolUsePayload, PreToolUseContext,
}
use agent_p.Hooks.Policy.Config.{PolicyConfig}
use agent_p.Hooks.Policy.{
  ScopedPolicy, risk_score, is_found, find_pattern_match, matches_risky_tool, is_risky_tool,
  searchable_input, pre_blocked, pre_escalated, default_decision, pre_unblocked, pre_decided,
  resolve_scoped_policy, evaluate_pre_tool_use,
}
use agent_p.Hooks.Policy.Blocking.{Matched, is_found_iff}

-- A threshold is reached: it is 0, or there is a signal and it is at most a half, or there are both
-- and it is at most one.
abbrev pub Reached : ℕ → Type 0 → Type 0 → Type 0
Reached t A B = (t ≡ 0) ⊎ ((A ⊎ B) × (t ≤ one / 2)) ⊎ (A × B × (t ≤ one))

reached_iff :
    (t : ℕ) (A B : Type 0) (a b : Bool)
    → (a ≡ true) ↔ A
    → (b ≡ true) ↔ B
    → (leb t (risk_score a b) ≡ true) ↔ Reached t A B
unfolding risk_score
reached_iff t A B true true p q = (
  λ h. inr (inr (p.0 refl, q.0 refl, ground arith)),
  λ r. elim r [
    | inl e ↦ ground arith
    | inr (inl (s, le)) ↦ ground arith
    | inr (inr (a, b, le)) ↦ ground arith
  ],
)
reached_iff t A B true false p q = (
  λ h. inr (inl (inl (p.0 refl), ground arith)),
  λ r. elim r [
    | inl e ↦ ground arith
    | inr (inl (s, le)) ↦ ground arith
    | inr (inr (a, b, le)) ↦ let bad = q.1 b in cc
  ],
)
reached_iff t A B false true p q = (
  λ h. inr (inl (inr (q.0 refl), ground arith)),
  λ r. elim r [
    | inl e ↦ ground arith
    | inr (inl (s, le)) ↦ ground arith
    | inr (inr (a, b, le)) ↦ let bad = p.1 a in cc
  ],
)
reached_iff t A B false false p q = (
  λ h. inl (ground arith),
  λ r. elim r [
    | inl e ↦ ground arith
    | inr (inl (inl a, le)) ↦ let bad = p.1 a in cc
    | inr (inl (inr b, le)) ↦ let bad = q.1 b in cc
    | inr (inr (a, b, le)) ↦ let bad = p.1 a in cc
  ],
)

module _ (lower : String → String) where
  -- The tool is risky by an override, or without one by its name among the risky tools, whatever the
  -- case of the letters.
  abbrev pub RiskyTool : ScopedPolicy → String → Type 0
  RiskyTool s tool =
      (s.risky_override ≡ some true)
      ⊎ ((s.risky_override ≡ none)
          × ((r : String) × Memᴰ r s.policy.risky_tools × (lower r ≡ lower tool)))

  matches_iff :
      (tool : String) (risky_tools : List String)
      → (matches_risky_tool lower tool risky_tools ≡ true)
        ↔ ((r : String) × Memᴰ r risky_tools × (lower r ≡ lower tool))
  unfolding matches_risky_tool
  matches_iff tool risky_tools =
      let test = λ (r : String). lower r == lower tool in
      (
        λ h.
            let (r, m, e) = any-mem test risky_tools h in
            (r, m, (==_iff (lower r) (lower tool)).0 e),
        λ found.
            let (r, m, e) = found in
            mem-any test risky_tools r m ((==_iff (lower r) (lower tool)).1 e),
      )

  is_risky_tool_iff :
      (s : ScopedPolicy) (tool : String) (o : Option Bool)
      → s.risky_override ≡ o
      → (is_risky_tool lower s tool ≡ true) ↔ RiskyTool s tool
  unfolding is_risky_tool
  is_risky_tool_iff s tool (some true) e = (λ h. inl e, λ r. simp e refl)
  is_risky_tool_iff s tool (some false) e =
      (λ h. let k : false ≡ true = simp e at h in cc, λ r. elim r [ inl t ↦ cc | inr (t, m) ↦ cc ])
  is_risky_tool_iff s tool none e =
      let named = matches_iff tool s.policy.risky_tools in
      (
        λ h. inr (e, named.0 (simp e at h)),
        λ r. elim r [ inl t ↦ cc | inr (t, m) ↦ simp e (named.1 m) ],
      )

-- The decision `d`, where `B` says that a blocked pattern occurs, `R` that the use is to be
-- escalated, and the default is `default`.
pub data Rules (B R : Type 0) (default : PermissionDecision) (mode : HookMode)
    (d : PermissionDecision) : Type 0 where
  is_blocked : B → mode ≡ enforce → d ≡ PermissionDecision.deny → Rules B R default mode d
  would_block : B → mode ≡ dry_run → d ≡ PermissionDecision.allow → Rules B R default mode d
  is_escalated :
      ¬ B → R → mode ≡ enforce → d ≡ PermissionDecision.escalate → Rules B R default mode d
  would_escalate :
      ¬ B → R → mode ≡ dry_run → d ≡ PermissionDecision.allow → Rules B R default mode d
  by_default : ¬ B → ¬ R → d ≡ default → Rules B R default mode d

blocked_as : HookMode → PermissionDecision
blocked_as enforce = PermissionDecision.deny
blocked_as dry_run = PermissionDecision.allow

escalated_as : HookMode → PermissionDecision
escalated_as enforce = PermissionDecision.escalate
escalated_as dry_run = PermissionDecision.allow

decision_by : Bool → Bool → PermissionDecision → HookMode → PermissionDecision
decision_by true t default mode = blocked_as mode
decision_by false true default mode = escalated_as mode
decision_by false false default mode = default

decision_by-Rules :
    (B R : Type 0) (default : PermissionDecision) (mode : HookMode) (b t : Bool)
    → (b ≡ true) ↔ B
    → (t ≡ true) ↔ R
    → Rules B R default mode (decision_by b t default mode)
unfolding decision_by blocked_as escalated_as
decision_by-Rules B R default enforce true t p q = is_blocked (p.0 refl) refl refl
decision_by-Rules B R default dry_run true t p q = would_block (p.0 refl) refl refl
decision_by-Rules B R default enforce false true p q =
    is_escalated (λ b. let k = p.1 b in cc) (q.0 refl) refl refl
decision_by-Rules B R default dry_run false true p q =
    would_escalate (λ b. let k = p.1 b in cc) (q.0 refl) refl refl
decision_by-Rules B R default mode false false p q =
    by_default (λ b. let k = p.1 b in cc) (λ r. let k = q.1 r in cc) refl

not_true : (B : Type 0) (b : Bool) → (b ≡ true) ↔ B → ¬ B → b ≡ false
not_true B true p nb = absurd (nb (p.0 refl))
not_true B false p nb = refl

-- The rules leave no choice.
Rules-decision_by :
    (B R : Type 0) (default : PermissionDecision) (mode : HookMode) (b t : Bool)
    {d : PermissionDecision}
    → (b ≡ true) ↔ B
    → (t ≡ true) ↔ R
    → Rules B R default mode d
    → decision_by b t default mode ≡ d
unfolding decision_by blocked_as escalated_as
Rules-decision_by B R default mode b t p q (is_blocked y m x) = rw (p.1 y, m, x) refl
Rules-decision_by B R default mode b t p q (would_block y m x) = rw (p.1 y, m, x) refl
Rules-decision_by B R default mode b t p q (is_escalated n r m x) =
    rw (not_true B b p n, q.1 r, m, x) refl
Rules-decision_by B R default mode b t p q (would_escalate n r m x) =
    rw (not_true B b p n, q.1 r, m, x) refl
Rules-decision_by B R default mode b t p q (by_default n k x) =
    rw (not_true B b p n, not_true R t q k, x) refl

unblocked_by :
    (tool : String) (o : Option String) (default : PermissionDecision) (mode : HookMode) (t : Bool)
    → (if t then pre_escalated mode tool o else default_decision default).decision
      ≡ decision_by false t default mode
unfolding decision_by escalated_as pre_escalated default_decision
unblocked_by tool o default enforce true = refl
unblocked_by tool o default dry_run true = refl
unblocked_by tool o PermissionDecision.allow mode false = refl
unblocked_by tool o PermissionDecision.deny mode false = refl
unblocked_by tool o PermissionDecision.escalate mode false = refl

module _ (lower trim : String → String) (c : PolicyConfig) (payload : PreToolUsePayload)
    (context : PreToolUseContext) where
  pub scoped : ScopedPolicy
  scoped = resolve_scoped_policy lower trim c payload.tool_name

  -- A blocked pattern occurs in the tool's name or input.
  abbrev pub Blocked : Type 0
  Blocked = Matched lower (searchable_input payload) context.blocked_patterns

  -- The policy for the tool is strict, and the threshold is reached by the two signals: that the
  -- tool is risky, and that a sensitive pattern occurs.
  abbrev pub Escalated : Type 0
  Escalated =
      (scoped.policy.strict_mode ≡ true)
      × Reached scoped.policy.escalation_threshold (RiskyTool lower scoped payload.tool_name)
          (Matched lower (searchable_input payload) scoped.policy.sensitive_patterns)

  escalation_test : Bool
  escalation_test =
      scoped.policy.strict_mode
      && leb scoped.policy.escalation_threshold (
          risk_score (is_risky_tool lower scoped payload.tool_name) (
            is_found (
              find_pattern_match lower (searchable_input payload)
                scoped.policy.sensitive_patterns)))

  escalation_test_iff : (escalation_test ≡ true) ↔ Escalated
  unfolding escalation_test
  escalation_test_iff =
      let reached =
        reached_iff scoped.policy.escalation_threshold (RiskyTool lower scoped payload.tool_name)
          (Matched lower (searchable_input payload) scoped.policy.sensitive_patterns) _ _
          (is_risky_tool_iff lower scoped payload.tool_name scoped.risky_override refl)
          (is_found_iff lower (searchable_input payload) scoped.policy.sensitive_patterns) in
      (
        λ h. (ground arith, reached.0 (ground arith)),
        λ e. let k = reached.1 e.1 in let strict = e.0 in ground arith,
      )

  pre_decided_by :
      (mode : HookMode) (found : Option String)
      → (pre_decided lower scoped payload mode found).decision
        ≡ decision_by (is_found found) escalation_test scoped.policy.pre_tool_use_default mode
  unfolding pre_decided pre_unblocked pre_blocked decision_by blocked_as escalation_test is_found
  pre_decided_by enforce (some p) = refl
  pre_decided_by dry_run (some p) = refl
  pre_decided_by mode none =
      unblocked_by payload.tool_name
        (find_pattern_match lower (searchable_input payload) scoped.policy.sensitive_patterns)
        scoped.policy.pre_tool_use_default mode _

  -- The engine decides `d` exactly if the rules give `d`: a blocked pattern is denied, an escalation
  -- only follows where no blocked pattern occurs, the default only where neither is the case, and in
  -- a dry run the first two allow the use.
  pub evaluate_pre_tool_use_iff :
      (d : PermissionDecision)
      → ((evaluate_pre_tool_use lower trim c payload context).decision ≡ d)
        ↔ Rules Blocked Escalated scoped.policy.pre_tool_use_default context.mode d
  unfolding evaluate_pre_tool_use scoped
  evaluate_pre_tool_use_iff d =
      let found = find_pattern_match lower (searchable_input payload) context.blocked_patterns in
      let blocked = is_found_iff lower (searchable_input payload) context.blocked_patterns in
      let default = scoped.policy.pre_tool_use_default in
      let same = pre_decided_by context.mode found in
      (
        λ h.
            let is_d = sym same ∙ h in
            rw is_d at (
              decision_by-Rules Blocked Escalated default context.mode (is_found found)
                escalation_test blocked escalation_test_iff),
        λ rules.
            same
            ∙ Rules-decision_by Blocked Escalated default context.mode (is_found found)
                escalation_test blocked escalation_test_iff rules,
      )
