-- ===== src/Hooks/Calls.antt =====
-- What the `execute` methods of the hooks share (src/hooks/pre-tool-use.ts and its siblings): the
-- checks before the decision and `withAudit` behind it. The clock and the schemas are parameters, and
-- the audit sink is the one in memory.
pub mod Checked
use agent_p.Common.{ℕ, ◌-◌, String, Option, none, some, Bool, List, Result, ok, err, or_else}
use agent_p.Hooks.Types.{
  HookPlatform, HookStatus, HookReasonCode, PermissionDecision, BlockDecision,
}
use agent_p.Hooks.Json.{Json}
use agent_p.Hooks.Audit.{HookName, HookAuditConfig, HookAuditEvent, LogInput, log}
use agent_p.Hooks.Policy.Config.{PolicyInput, PolicyConfig, resolve_config}

pub record AuditInput : Type 0 where
  pub enabled : Option Bool
  pub redact_sensitive : Option Bool
  pub max_preview_chars : Option ℕ

-- The options of a call.
pub record Runtime : Type 0 where
  pub policy : Option PolicyInput
  pub audit : Option AuditInput
  pub platform : Option HookPlatform

-- `check_policy` makes the checks of `hookPolicyConfigSchema` before its transformation, and
-- `parse_audit` is `hookAuditConfigSchema.parse`.
pub record HookEnv (World : Type 0) : Type 0 where
  pub now : World → ℕ × World
  pub lower : String → String
  pub trim : String → String
  pub sensitive : String → Bool
  pub stringify : Json → List ℕ
  pub check_event : HookAuditEvent → Result (Unit {0})
  pub check_policy : PolicyInput → Result PolicyInput
  pub parse_audit : AuditInput → Result HookAuditConfig
  pub max_entries : ℕ

no_policy : PolicyInput
no_policy = record {
  profile = none;
  strict_mode = none;
  escalation_threshold = none;
  risky_tools = none;
  sensitive_patterns = none;
  pre_tool_use_default = none;
  post_tool_use_default = none;
  stop_default = none;
  category_overrides = none;
  tool_overrides = none;
}

no_audit : AuditInput
no_audit = record { enabled = none; redact_sensitive = none; max_preview_chars = none }

abbrev pub permission_text : PermissionDecision → String
permission_text PermissionDecision.allow = "allow"
permission_text PermissionDecision.deny = "deny"
permission_text PermissionDecision.escalate = "escalate"

abbrev pub block_text : BlockDecision → String
block_text BlockDecision.pass = "allow"
block_text BlockDecision.block = "block"

-- What a call has once everything that it was given is checked.
pub record Prepared (P C : Type 0) : Type 0 where
  pub started_at : ℕ
  pub payload : P
  pub context : C
  pub platform : HookPlatform
  pub policy : PolicyConfig
  pub audit : HookAuditConfig

-- What a call comes to: its result or the error, the world, and the events in the sink.
abbrev pub Answer : Type 0 → Type 0 → Type 0
Answer World R = Result R × World × List HookAuditEvent

module _ {World : Type 0} (env : HookEnv World) where
  time_or_now : Option ℕ → World → ℕ × World
  time_or_now (some t) w = (t, w)
  time_or_now none w = env.now w

  pub policy_of : Runtime → Result PolicyConfig
  unfolding no_policy resolve_config
  policy_of runtime = elim (env.check_policy (or_else runtime.policy no_policy)) [
    | ok input ↦ ok (resolve_config input)
    | err m ↦ err m
  ]

  pub audit_of : Runtime → Result HookAuditConfig
  unfolding no_audit
  audit_of runtime = env.parse_audit (or_else runtime.audit no_audit)

  -- The first error counts.
  all_checked :
      {P C : Type 0}
      → ℕ
      → P
      → HookPlatform
      → Result C
      → Result PolicyConfig
      → Result HookAuditConfig
      → Result (Prepared P C)
  all_checked started p platform (err m) policy audit = err m
  all_checked started p platform (ok c) (err m) audit = err m
  all_checked started p platform (ok c) (ok policy) (err m) = err m
  all_checked started p platform (ok c) (ok policy) (ok audit) = ok (record {
    started_at = started;
    payload = p;
    context = c;
    platform = platform;
    policy = policy;
    audit = audit;
  })

  prepare_payload :
      {P C : Type 0}
      → Runtime
      → Option ℕ
      → (ℕ → Result C)
      → ℕ
      → Result P
      → World
      → Result (Prepared P C) × World
  unfolding time_or_now all_checked policy_of audit_of
  prepare_payload runtime given context started (err m) w = (err m, w)
  prepare_payload runtime given context started (ok p) w =
      let (t, w') = time_or_now given w in
      (
        all_checked started p (or_else runtime.platform HookPlatform.neutral) (context t)
            (policy_of runtime) (audit_of runtime),
        w',
      )

  -- The beginning of a call: `payload` is what its schema makes of the payload, and `context` what
  -- its schema makes of the context at a timestamp, which is the time if none is given.
  unfoldable pub prepare :
      {P C : Type 0}
      → Runtime
      → Result P
      → Option ℕ
      → (ℕ → Result C)
      → World
      → Result (Prepared P C) × World
  unfolding prepare_payload
  prepare runtime payload given context w =
      let (started, w') = env.now w in prepare_payload runtime given context started payload w'

  after_log :
      {R : Type 0} → R → World → List HookAuditEvent → Result (List HookAuditEvent) → Answer World R
  after_log r w events (ok logged) = (ok r, w, logged)
  after_log r w events (err m) = (err m, w, events)

  -- `withAudit`: `entry` is what is logged of a result, for a latency.
  unfoldable pub with_audit :
      {R : Type 0}
      → ℕ
      → (R → ℕ → LogInput)
      → Result R
      → World
      → List HookAuditEvent
      → Answer World R
  unfolding after_log log
  with_audit started entry (err m) w events = (err m, w, events)
  with_audit started entry (ok r) w events =
      let (finished, w') = env.now w in
      after_log r w' events (
        log env.sensitive env.stringify env.trim env.check_event env.max_entries
          (entry r (finished - started)) events)
