-- ===== src/Hooks/PreToolUse.antt =====
-- `PreToolUseHook` (src/hooks/pre-tool-use.ts).
pub mod Outcome
use agent_p.Common.{
  [], or_else, ℕ, String, Option, none, some, Bool, true, false, List, map, Result, ok, err,
  if◌then◌else◌,
}
use agent_p.Hooks.Types.{
  HookMode, HookStatus, HookReasonCode, PermissionDecision, PreToolUsePayload, PreToolUseContext,
  PreToolUseResult,
}
use agent_p.Hooks.Json.{Json}
use agent_p.Hooks.Audit.{trim_option, HookName, HookAuditEvent, LogInput}
use agent_p.Hooks.Policy.{PolicyDecision, evaluate_pre_tool_use}
use agent_p.Hooks.Calls.{HookEnv, Runtime, Prepared, Answer, permission_text, prepare, with_audit}

-- A context as it is given.
pub record PreToolUseContextInput : Type 0 where
  pub enabled : Option Bool
  pub timestamp : Option ℕ
  pub mode : Option HookMode
  pub blocked_patterns : Option (List String)

-- The checks that the schemas of payload, context and result make besides their trimming and their
-- defaults, and the two first as JSON.
pub record PreToolUseSchemas : Type 0 where
  pub check_payload : PreToolUsePayload → Result (Unit {0})
  pub check_context : PreToolUseContextInput → ℕ → Result (Unit {0})
  pub check_result : PreToolUseResult → Result (Unit {0})
  pub payload_json : PreToolUsePayload → Json
  pub context_json : PreToolUseContext → Json

abbrev text_of : Option PermissionDecision → Option String
text_of none = none
text_of (some d) = some (permission_text d)

unfoldable pub skipped_pre_tool_use : PreToolUsePayload → PreToolUseContext → PreToolUseResult
skipped_pre_tool_use p c = record {
  status = HookStatus.skipped;
  session_id = p.session_id;
  timestamp = c.timestamp;
  tool_name = p.tool_name;
  decision = none;
  reason = some "hook_disabled";
  reason_code = some HookReasonCode.hook_disabled;
  context_additions = none;
  tool_use_id = p.tool_use_id;
}

unfoldable pub executed_pre_tool_use :
    PreToolUsePayload → PreToolUseContext → PolicyDecision PermissionDecision → PreToolUseResult
executed_pre_tool_use p c d = record {
  status = HookStatus.executed;
  session_id = p.session_id;
  timestamp = c.timestamp;
  tool_name = p.tool_name;
  decision = some d.decision;
  reason = d.reason;
  reason_code = d.reason_code;
  context_additions = d.context_additions;
  tool_use_id = p.tool_use_id;
}

module _ {World : Type 0} (env : HookEnv World) (schemas : PreToolUseSchemas) where
  -- What `preToolUseHookPayloadSchema` makes of a payload that it accepts.
  unfoldable pub trim_payload : PreToolUsePayload → PreToolUsePayload
  unfolding trim_option
  trim_payload p = record p {
    tool_name = env.trim p.tool_name;
    tool_use_id = trim_option env.trim p.tool_use_id;
  }

  -- What `preToolUseHookContextSchema` makes of a context that it accepts.
  unfoldable pub complete_context : PreToolUseContextInput → ℕ → PreToolUseContext
  complete_context c timestamp = record {
    enabled = or_else c.enabled true;
    timestamp = timestamp;
    mode = or_else c.mode HookMode.enforce;
    blocked_patterns = map env.trim (or_else c.blocked_patterns []);
  }

  unfoldable pub parse_payload : PreToolUsePayload → Result PreToolUsePayload
  unfolding trim_payload
  parse_payload p = elim (schemas.check_payload p) [ ok _ ↦ ok (trim_payload p) | err m ↦ err m ]

  unfoldable pub parse_context : PreToolUseContextInput → ℕ → Result PreToolUseContext
  unfolding complete_context
  parse_context c timestamp = elim (schemas.check_context c timestamp) [
    | ok _ ↦ ok (complete_context c timestamp)
    | err m ↦ err m
  ]

  unfoldable pub pre_tool_use_entry :
      Prepared PreToolUsePayload PreToolUseContext → PreToolUseResult → ℕ → LogInput
  pre_tool_use_entry s r latency = record {
    hook = HookName.pre_tool_use;
    session_id = r.session_id;
    platform = s.platform;
    status = r.status;
    timestamp = r.timestamp;
    latency_ms = latency;
    decision = text_of r.decision;
    reason_code = r.reason_code;
    reason = r.reason;
    payload = schemas.payload_json s.payload;
    context = schemas.context_json s.context;
    config = s.audit;
  }

  -- The result before its schema.
  unfoldable pub pre_tool_use_result :
      Prepared PreToolUsePayload PreToolUseContext → PreToolUseResult
  unfolding skipped_pre_tool_use executed_pre_tool_use evaluate_pre_tool_use
  pre_tool_use_result s =
      if s.context.enabled
      then executed_pre_tool_use s.payload s.context
          (evaluate_pre_tool_use env.lower env.trim s.policy s.payload s.context)
      else skipped_pre_tool_use s.payload s.context

  -- What `preToolUseHookResultSchema` makes of a result that it accepts.
  unfoldable pub trim_pre_tool_use : PreToolUseResult → PreToolUseResult
  unfolding trim_option
  trim_pre_tool_use r = record r {
    tool_name = env.trim r.tool_name;
    context_additions = trim_option env.trim r.context_additions;
    tool_use_id = trim_option env.trim r.tool_use_id;
  }

  parse_checked : PreToolUseResult → Result (Unit {0}) → Result PreToolUseResult
  unfolding trim_pre_tool_use
  parse_checked r (ok _) = ok (trim_pre_tool_use r)
  parse_checked r (err m) = err m

  -- `preToolUseHookResultSchema.parse`
  unfoldable pub parse_pre_tool_use : PreToolUseResult → Result PreToolUseResult
  unfolding parse_checked
  parse_pre_tool_use r = parse_checked r (schemas.check_result r)

  decide_pre_tool_use :
      Result (Prepared PreToolUsePayload PreToolUseContext) × World
      → List HookAuditEvent
      → Answer World PreToolUseResult
  unfolding with_audit pre_tool_use_result pre_tool_use_entry parse_pre_tool_use
  decide_pre_tool_use (err m, w) events = (err m, w, events)
  decide_pre_tool_use (ok s, w) events =
      with_audit env s.started_at (pre_tool_use_entry s)
        (parse_pre_tool_use (pre_tool_use_result s)) w events

  unfoldable pub execute_pre_tool_use :
      PreToolUsePayload
      → PreToolUseContextInput
      → Runtime
      → World
      → List HookAuditEvent
      → Answer World PreToolUseResult
  unfolding decide_pre_tool_use prepare parse_payload parse_context
  execute_pre_tool_use payload context runtime w events =
      decide_pre_tool_use
        (prepare env runtime (parse_payload payload) context.timestamp (parse_context context) w)
        events
