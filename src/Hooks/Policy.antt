-- ===== src/Hooks/Policy.antt =====
-- `HookPolicyEngine` (src/hooks/policy.ts). Lower-casing and trimming are parameters, and a
-- configuration is one that has passed the schema. Thresholds and risk scores are in units of
-- 2 ^ -1074.
pub mod Config
pub mod Blocking
pub mod Permission
pub mod Responses
use Prim.Native.String.{◌++◌ as str_append}
use Prim.Native.Nat.{◌/◌}
use agent_p.Common.{
  ℕ, ◌*◌, ◌+◌, String, Option, none, some, Bool, true, false, ◌&&◌, ◌||◌, List, [], ◌∷◌, any,
  or_else, leb, ◌==◌, string_eq, if◌then◌else◌,
}
use agent_p.Common.Text.{contains}
use agent_p.Agents.Quality.Types.{one}
use agent_p.Hooks.Types.{
  HookMode, enforce, dry_run, PermissionDecision, BlockDecision, HookReasonCode, PreToolUsePayload,
  PreToolUseContext, PostToolUsePayload, PostToolUseContext, StopPayload, StopContext,
  NotificationPayload,
}
use agent_p.Hooks.Types.HookReasonCode.{policy_block, no_action}
use agent_p.Hooks.Policy.Config.{
  ToolCategory, ScopeOverride, Policy, PolicyConfig, tool_category, category_name,
}

pub record PolicyDecision (D : Type 0) : Type 0 where
  pub decision : D
  pub reason : Option String
  pub reason_code : Option HookReasonCode
  pub context_additions : Option String

abbrev decide : {D : Type 0} → D → PolicyDecision D
decide d = record { decision = d; reason = none; reason_code = none; context_additions = none }

abbrev decide_because : {D : Type 0} → D → String → HookReasonCode → PolicyDecision D
decide_because d why code = record {
  decision = d;
  reason = some why;
  reason_code = some code;
  context_additions = none;
}

quoted : String → String → String
quoted start name = str_append start (str_append name "'.")

-- An entry of a normalized record: of those with the same key the last one counts.
last_at : String → List (String × ScopeOverride) → Option ScopeOverride
last_at key [] = none
last_at key ((k, o) ∷ es) = elim (last_at key es) [
  | some later ↦ some later
  | none ↦ if k == key then some o else none
]

risky_of : Option ScopeOverride → Option Bool
risky_of none = none
risky_of (some o) = o.risky

-- `a ?? b` where both may be missing.
first_of {ℓ} : {A : Type ℓ} → Option A → Option A → Option A
first_of none b = b
first_of (some a) b = some a

unfoldable pub is_found : Option String → Bool
is_found none = false
is_found (some p) = true

to_number : Bool → ℕ
to_number true = 1
to_number false = 0

-- Half the number of signals, of which there are at most two.
unfoldable pub risk_score : Bool → Bool → ℕ
unfolding to_number
risk_score a b = (to_number a + to_number b) * (one / 2)

abbrev apply_fields : Policy → ScopeOverride → Policy
apply_fields p o = record p {
  strict_mode = or_else o.strict_mode p.strict_mode;
  escalation_threshold = or_else o.escalation_threshold p.escalation_threshold;
  sensitive_patterns = or_else o.sensitive_patterns p.sensitive_patterns;
  pre_tool_use_default = or_else o.pre_tool_use_default p.pre_tool_use_default;
  post_tool_use_default = or_else o.post_tool_use_default p.post_tool_use_default;
  stop_default = or_else o.stop_default p.stop_default;
}

unfoldable pub apply_override : Policy → Option ScopeOverride → Policy
apply_override p none = p
apply_override p (some o) = apply_fields p o

pub record ScopedPolicy : Type 0 where
  pub policy : Policy
  pub risky_override : Option Bool

-- The text that the patterns are looked for in.
unfoldable pub searchable_input : PreToolUsePayload → String
searchable_input payload = str_append payload.tool_name (str_append "\n" payload.tool_input)

escalate_reason : String → Option String → String
unfolding quoted
escalate_reason tool (some p) = quoted "Escalated by strict policy due to sensitive pattern '" p
escalate_reason tool none = quoted "Escalated by strict policy for risky tool '" tool

default_decision : PermissionDecision → PolicyDecision PermissionDecision
default_decision PermissionDecision.allow = decide PermissionDecision.allow
default_decision d =
    decide_because d "Applied configured default pre-tool policy decision" no_action

pre_blocked : HookMode → String → PolicyDecision PermissionDecision
unfolding quoted
pre_blocked enforce p =
    decide_because PermissionDecision.deny (str_append "Blocked by policy pattern: " p) policy_block
pre_blocked dry_run p = record {
  decision = PermissionDecision.allow;
  reason = none;
  reason_code = some no_action;
  context_additions = some (quoted "Dry-run: would block due to pattern '" p);
}

pre_escalated : HookMode → String → Option String → PolicyDecision PermissionDecision
unfolding escalate_reason
pre_escalated enforce tool found =
    decide_because PermissionDecision.escalate (escalate_reason tool found) policy_block
pre_escalated dry_run tool found = record {
  decision = PermissionDecision.allow;
  reason = none;
  reason_code = some no_action;
  context_additions =
      some "Dry-run: strict policy would escalate this tool use for manual approval.";
}

module _ (lower : String → String) where
  unfoldable pub find_pattern_match : String → List String → Option String
  find_pattern_match searchable [] = none
  find_pattern_match searchable (p ∷ ps) =
      let rest = find_pattern_match searchable ps in
      if contains (lower searchable) (lower p) then some p else rest

  matches_risky_tool : String → List String → Bool
  matches_risky_tool tool risky_tools = any (λ (r : String). lower r == lower tool) risky_tools

  unfoldable pub is_risky_tool : ScopedPolicy → String → Bool
  unfolding matches_risky_tool
  is_risky_tool s tool = or_else s.risky_override (matches_risky_tool tool s.policy.risky_tools)

  -- What is decided where no blocked pattern was found.
  pre_unblocked :
      ScopedPolicy
      → PreToolUsePayload
      → HookMode
      → Option String
      → PolicyDecision PermissionDecision
  unfolding is_risky_tool is_found risk_score pre_escalated default_decision
  pre_unblocked s payload mode found =
      if s.policy.strict_mode
        && leb s.policy.escalation_threshold
            (risk_score (is_risky_tool s payload.tool_name) (is_found found))
      then pre_escalated mode payload.tool_name found
      else default_decision s.policy.pre_tool_use_default

  pre_decided :
      ScopedPolicy
      → PreToolUsePayload
      → HookMode
      → Option String
      → PolicyDecision PermissionDecision
  unfolding pre_blocked pre_unblocked searchable_input find_pattern_match
  pre_decided s payload mode (some p) = pre_blocked mode p
  pre_decided s payload mode none =
      pre_unblocked s payload mode
        (find_pattern_match (searchable_input payload) s.policy.sensitive_patterns)

module _ (lower trim : String → String) where
  unfoldable pub normalize_overrides : List (String × ScopeOverride) → List (String × ScopeOverride)
  normalize_overrides [] = []
  normalize_overrides ((k, o) ∷ es) = (lower (trim k), o) ∷ normalize_overrides es

  unfoldable pub tool_override : PolicyConfig → String → Option ScopeOverride
  unfolding last_at normalize_overrides
  tool_override c tool = last_at (lower (trim tool)) (normalize_overrides c.tool_overrides)

  override_at : PolicyConfig → Option String → Option ScopeOverride
  unfolding last_at normalize_overrides
  override_at c none = none
  override_at c (some name) = last_at name (normalize_overrides c.category_overrides)

  unfoldable pub category_override : PolicyConfig → String → Option ScopeOverride
  unfolding override_at tool_category category_name
  category_override c tool = override_at c (category_name (tool_category (lower (trim tool))))

  unfoldable pub resolve_scoped_policy : PolicyConfig → String → ScopedPolicy
  unfolding apply_override tool_override category_override risky_of first_of
  resolve_scoped_policy c tool = record {
    policy =
        apply_override (apply_override c.base (category_override c tool)) (tool_override c tool);
    risky_override =
        first_of (risky_of (tool_override c tool)) (risky_of (category_override c tool));
  }

  unfoldable pub evaluate_pre_tool_use :
      PolicyConfig → PreToolUsePayload → PreToolUseContext → PolicyDecision PermissionDecision
  unfolding pre_decided resolve_scoped_policy searchable_input find_pattern_match
  evaluate_pre_tool_use c payload context =
      pre_decided lower (resolve_scoped_policy c payload.tool_name) payload context.mode
        (find_pattern_match lower (searchable_input payload) context.blocked_patterns)
