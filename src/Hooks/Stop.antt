-- ===== src/Hooks/Stop.antt =====
-- `StopHook` (src/hooks/stop.ts).
use agent_p.Common.{ℕ, ◌≡◌, String, Option, none, some, Bool, List, Result, ok, err, if◌then◌else◌}
use agent_p.Hooks.Types.{HookStatus, HookReasonCode, BlockDecision, StopPayload, StopContext}
use agent_p.Hooks.Json.{Json}
use agent_p.Hooks.Audit.{HookName, HookAuditEvent, LogInput}
use agent_p.Hooks.Policy.{PolicyDecision}
use agent_p.Hooks.Policy.Responses.{evaluate_stop}
use agent_p.Hooks.Calls.Checked.{with_audit-Audited}
use agent_p.Hooks.Calls.{HookEnv, Runtime, Prepared, Answer, block_text, prepare, with_audit}

pub record StopResult : Type 0 where
  pub status : HookStatus
  pub session_id : String
  pub timestamp : ℕ
  pub stop_hook_active : Bool
  pub decision : Option BlockDecision
  pub reason : Option String
  pub reason_code : Option HookReasonCode
  pub context_additions : Option String

-- A context as it is given.
pub record StopContextInput : Type 0 where
  pub enabled : Option Bool
  pub timestamp : Option ℕ
  pub completion_signal : Option String

-- The schemas of payload, context and result, and the two first as JSON.
pub record StopSchemas : Type 0 where
  pub parse_payload : StopPayload → Result StopPayload
  pub parse_context : StopContextInput → ℕ → Result StopContext
  pub parse_result : StopResult → Result StopResult
  pub payload_json : StopPayload → Json
  pub context_json : StopContext → Json

abbrev text_of : Option BlockDecision → Option String
text_of none = none
text_of (some d) = some (block_text d)

skipped_stop : StopPayload → StopContext → StopResult
skipped_stop p c = record {
  status = HookStatus.skipped;
  session_id = p.session_id;
  timestamp = c.timestamp;
  stop_hook_active = p.stop_hook_active;
  decision = none;
  reason = some "hook_disabled";
  reason_code = some HookReasonCode.hook_disabled;
  context_additions = none;
}

executed_stop : StopPayload → StopContext → PolicyDecision BlockDecision → StopResult
executed_stop p c d = record {
  status = HookStatus.executed;
  session_id = p.session_id;
  timestamp = c.timestamp;
  stop_hook_active = p.stop_hook_active;
  decision = some d.decision;
  reason = d.reason;
  reason_code = d.reason_code;
  context_additions = d.context_additions;
}

module _ {World : Type 0} (env : HookEnv World) (schemas : StopSchemas) where
  stop_entry : Prepared StopPayload StopContext → StopResult → ℕ → LogInput
  stop_entry s r latency = record {
    hook = HookName.stop;
    session_id = r.session_id;
    platform = s.platform;
    status = r.status;
    timestamp = r.timestamp;
    latency_ms = latency;
    decision = text_of r.decision;
    reason_code = r.reason_code;
    reason = r.reason;
    payload = schemas.payload_json s.payload;
    context = schemas.context_json s.context;
    config = s.audit;
  }

  -- The result before its schema.
  stop_result : Prepared StopPayload StopContext → StopResult
  unfolding skipped_stop executed_stop evaluate_stop
  stop_result s =
      if s.context.enabled
      then executed_stop s.payload s.context (evaluate_stop env.lower s.policy s.payload s.context)
      else skipped_stop s.payload s.context

  decide_stop :
      Result (Prepared StopPayload StopContext) × World
      → List HookAuditEvent
      → Answer World StopResult
  unfolding with_audit stop_result stop_entry
  decide_stop (err m, w) events = (err m, w, events)
  decide_stop (ok s, w) events =
      with_audit env s.started_at (stop_entry s) (schemas.parse_result (stop_result s)) w events

  execute_stop :
      StopPayload
      → StopContextInput
      → Runtime
      → World
      → List HookAuditEvent
      → Answer World StopResult
  unfolding decide_stop prepare
  execute_stop payload context runtime w events =
      decide_stop
        (prepare env runtime (schemas.parse_payload payload) context.timestamp
          (schemas.parse_context context) w)
        events

  decide_stop-err :
      (p : Result (Prepared StopPayload StopContext) × World) (m : String) (w : World)
      (events events2 : List HookAuditEvent)
      → decide_stop p events ≡ (err m, w, events2)
      → events2 ≡ events
  unfolding decide_stop
  decide_stop-err (err n, v) m w events events2 h = cc
  decide_stop-err (ok s, v) m w events events2 h =
      with_audit-Audited env (stop_entry s) s.started_at (schemas.parse_result (stop_result s)) v w
        events events2 (err m) h

  -- A call that throws leaves the events of the audit log as they were.
  execute_stop-err :
      (payload : StopPayload) (context : StopContextInput) (runtime : Runtime) (m : String)
      (w w2 : World) (events events2 : List HookAuditEvent)
      → execute_stop payload context runtime w events ≡ (err m, w2, events2)
      → events2 ≡ events
  unfolding execute_stop
  execute_stop-err payload context runtime m w w2 events events2 h =
      decide_stop-err
        (prepare env runtime (schemas.parse_payload payload) context.timestamp
          (schemas.parse_context context) w)
        m w2 events events2 h
