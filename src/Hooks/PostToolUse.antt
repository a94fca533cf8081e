-- ===== src/Hooks/PostToolUse.antt =====
-- `PostToolUseHook` (src/hooks/post-tool-use.ts). The recorders of telemetry and of what is learned
-- are parameters that may be missing.
use agent_p.Common.{
  ℕ, ◌-◌, ◌≡◌, refl, ◌⊎◌, inl, inr, String, Option, none, some, Option-cases, Bool, List, Result,
  ok, err, if◌then◌else◌,
}
use agent_p.Hooks.Types.{
  HookPlatform, HookStatus, HookReasonCode, BlockDecision, PostToolUsePayload, PostToolUseContext,
}
use agent_p.Hooks.Json.{Json}
use agent_p.Hooks.Audit.{HookName, HookAuditEvent, LogInput, log}
use agent_p.Hooks.Policy.{PolicyDecision}
use agent_p.Hooks.Policy.Responses.{evaluate_post_tool_use}
use agent_p.Hooks.Calls.{HookEnv, Runtime, Prepared, Answer, block_text, prepare}

pub record PostToolUseResult : Type 0 where
  pub status : HookStatus
  pub session_id : String
  pub timestamp : ℕ
  pub tool_name : String
  pub decision : Option BlockDecision
  pub reason : Option String
  pub reason_code : Option HookReasonCode
  pub context_additions : Option String
  pub tool_use_id : Option String

-- A context as it is given.
pub record PostToolUseContextInput : Type 0 where
  pub enabled : Option Bool
  pub timestamp : Option ℕ
  pub block_patterns : Option (List String)

-- The schemas of payload, context and result, the two first as JSON, and the recorders.
pub record PostToolUseOutside (World : Type 0) : Type 0 where
  pub parse_payload : PostToolUsePayload → Result PostToolUsePayload
  pub parse_context : PostToolUseContextInput → ℕ → Result PostToolUseContext
  pub parse_result : PostToolUseResult → Result PostToolUseResult
  pub payload_json : PostToolUsePayload → Json
  pub context_json : PostToolUseContext → Json
  pub telemetry : Option (
      PostToolUsePayload → PostToolUseResult → ℕ → HookPlatform → World → Result (Unit {0}) × World)
  pub self_learning :
      Option (PostToolUsePayload → PostToolUseResult → World → Result (Unit {0}) × World)

abbrev text_of : Option BlockDecision → Option String
text_of none = none
text_of (some d) = some (block_text d)

skipped_post_tool_use : PostToolUsePayload → PostToolUseContext → PostToolUseResult
skipped_post_tool_use p c = record {
  status = HookStatus.skipped;
  session_id = p.session_id;
  timestamp = c.timestamp;
  tool_name = p.tool_name;
  decision = none;
  reason = some "hook_disabled";
  reason_code = some HookReasonCode.hook_disabled;
  context_additions = none;
  tool_use_id = p.tool_use_id;
}

executed_post_tool_use :
    PostToolUsePayload → PostToolUseContext → PolicyDecision BlockDecision → PostToolUseResult
executed_post_tool_use p c d = record {
  status = HookStatus.executed;
  session_id = p.session_id;
  timestamp = c.timestamp;
  tool_name = p.tool_name;
  decision = some d.decision;
  reason = d.reason;
  reason_code = d.reason_code;
  context_additions = d.context_additions;
  tool_use_id = p.tool_use_id;
}

-- A recorder that threw ends the call with its error.
after_record :
    {World R : Type 0} → R → List HookAuditEvent → Result (Unit {0}) × World → Answer World R
after_record r events (ok _, w) = (ok r, w, events)
after_record r events (err m, w) = (err m, w, events)

after_record-events :
    {World R : Type 0} (r : R) (events : List HookAuditEvent) (x : Result (Unit {0}) × World)
    → (after_record r events x).2 ≡ events
unfolding after_record
after_record-events r events (ok u, w) = refl
after_record-events r events (err m, w) = refl

module _ {World : Type 0} (env : HookEnv World) (outside : PostToolUseOutside World) where
  post_tool_use_entry :
      Prepared PostToolUsePayload PostToolUseContext → PostToolUseResult → ℕ → LogInput
  post_tool_use_entry s r latency = record {
    hook = HookName.post_tool_use;
    session_id = r.session_id;
    platform = s.platform;
    status = r.status;
    timestamp = r.timestamp;
    latency_ms = latency;
    decision = text_of r.decision;
    reason_code = r.reason_code;
    reason = r.reason;
    payload = outside.payload_json s.payload;
    context = outside.context_json s.context;
    config = s.audit;
  }

  -- The result before its schema.
  post_tool_use_result : Prepared PostToolUsePayload PostToolUseContext → PostToolUseResult
  unfolding skipped_post_tool_use executed_post_tool_use evaluate_post_tool_use
  post_tool_use_result s =
      if s.context.enabled
      then executed_post_tool_use s.payload s.context
          (evaluate_post_tool_use env.lower env.trim s.policy s.payload s.context)
      else skipped_post_tool_use s.payload s.context

  record_learning :
      Prepared PostToolUsePayload PostToolUseContext
      → PostToolUseResult
      → List HookAuditEvent
      → Result (Unit {0}) × World
      → Answer World PostToolUseResult
  unfolding after_record
  record_learning s r events (err m, w) = (err m, w, events)
  record_learning s r events (ok _, w) = elim outside.self_learning [
    | none ↦ (ok r, w, events)
    | some recorder ↦ after_record r events (recorder s.payload r w)
  ]

  record_telemetry :
      Prepared PostToolUsePayload PostToolUseContext
      → PostToolUseResult
      → ℕ
      → World
      → Result (Unit {0}) × World
  record_telemetry s r latency w = elim outside.telemetry [
    | none ↦ (ok tt, w)
    | some recorder ↦ recorder s.payload r latency s.platform w
  ]

  after_post_log :
      Prepared PostToolUsePayload PostToolUseContext
      → PostToolUseResult
      → ℕ
      → World
      → List HookAuditEvent
      → Result (List HookAuditEvent)
      → Answer World PostToolUseResult
  unfolding record_learning record_telemetry
  after_post_log s r latency w events (err m) = (err m, w, events)
  after_post_log s r latency w events (ok logged) =
      record_learning s r logged (record_telemetry s r latency w)

  -- `withAudit` with the recorders behind the log.
  audit_post_tool_use :
      Prepared PostToolUsePayload PostToolUseContext
      → Result PostToolUseResult
      → World
      → List HookAuditEvent
      → Answer World PostToolUseResult
  unfolding after_post_log post_tool_use_entry log
  audit_post_tool_use s (err m) w events = (err m, w, events)
  audit_post_tool_use s (ok r) w events =
      let (finished, w') = env.now w in
      after_post_log s r (finished - s.started_at) w' events (
        log env.sensitive env.stringify env.trim env.check_event env.max_entries
          (post_tool_use_entry s r (finished - s.started_at)) events)

  decide_post_tool_use :
      Result (Prepared PostToolUsePayload PostToolUseContext) × World
      → List HookAuditEvent
      → Answer World PostToolUseResult
  unfolding audit_post_tool_use post_tool_use_result
  decide_post_tool_use (err m, w) events = (err m, w, events)
  decide_post_tool_use (ok s, w) events =
      audit_post_tool_use s (outside.parse_result (post_tool_use_result s)) w events

  execute_post_tool_use :
      PostToolUsePayload
      → PostToolUseContextInput
      → Runtime
      → World
      → List HookAuditEvent
      → Answer World PostToolUseResult
  unfolding decide_post_tool_use prepare
  execute_post_tool_use payload context runtime w events =
      decide_post_tool_use
        (prepare env runtime (outside.parse_payload payload) context.timestamp
          (outside.parse_context context) w)
        events

  record_learning-events :
      (s : Prepared PostToolUsePayload PostToolUseContext) (r : PostToolUseResult)
      (events : List HookAuditEvent) (recorded : Result (Unit {0}) × World)
      → (record_learning s r events recorded).2 ≡ events
  unfolding record_learning
  record_learning-events s r events (err m, w) = refl
  record_learning-events s r events (ok u, w) = elim (Option-cases outside.self_learning) [
    | inl (recorder, e) ↦
        rw (e, record_learning) (after_record-events r events (recorder s.payload r w))
    | inr e ↦ rw (e, record_learning) refl
  ]

  -- The events after a call are those before, or those of one call of the log.
  Logs : List HookAuditEvent → List HookAuditEvent → Type 0
  Logs events events2 =
      (events2 ≡ events)
      ⊎ ((i : LogInput) × (log env.sensitive env.stringify env.trim env.check_event env.max_entries
              i events
            ≡ ok events2))

  after_post_log-Logs :
      (s : Prepared PostToolUsePayload PostToolUseContext) (r : PostToolUseResult) (latency : ℕ)
      (w : World) (events : List HookAuditEvent) (logged : Result (List HookAuditEvent))
      → log env.sensitive env.stringify env.trim env.check_event env.max_entries
          (post_tool_use_entry s r latency)
          events
        ≡ logged
      → Logs events (after_post_log s r latency w events logged).2
  unfolding after_post_log Logs
  after_post_log-Logs s r latency w events (err m) e = inl refl
  after_post_log-Logs s r latency w events (ok l) e =
      let kept = record_learning-events s r l (record_telemetry s r latency w) in
      inr (post_tool_use_entry s r latency, rw kept e)

  audit_post_tool_use-Logs :
      (s : Prepared PostToolUsePayload PostToolUseContext) (made : Result PostToolUseResult)
      (w : World) (events : List HookAuditEvent)
      → Logs events (audit_post_tool_use s made w events).2
  unfolding audit_post_tool_use Logs
  audit_post_tool_use-Logs s (err m) w events = inl refl
  audit_post_tool_use-Logs s (ok r) w events =
      let (finished, w') = env.now w in
      after_post_log-Logs s r (finished - s.started_at) w' events _ refl

  decide_post_tool_use-Logs :
      (p : Result (Prepared PostToolUsePayload PostToolUseContext) × World)
      (events : List HookAuditEvent)
      → Logs events (decide_post_tool_use p events).2
  unfolding decide_post_tool_use Logs
  decide_post_tool_use-Logs (err m, w) events = inl refl
  decide_post_tool_use-Logs (ok s, w) events = audit_post_tool_use-Logs s _ w events

  -- A call logs at most once, and what a recorder does, throw included, does not change the log.
  execute_post_tool_use-Logs :
      (payload : PostToolUsePayload) (context : PostToolUseContextInput) (runtime : Runtime)
      (w : World) (events : List HookAuditEvent)
      → Logs events (execute_post_tool_use payload context runtime w events).2
  unfolding execute_post_tool_use
  execute_post_tool_use-Logs payload context runtime w events =
      decide_post_tool_use-Logs
        (prepare env runtime (outside.parse_payload payload) context.timestamp
          (outside.parse_context context) w)
        events
