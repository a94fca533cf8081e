-- ===== src/Hooks/Notification.antt =====
-- `NotificationHook` (src/hooks/notification.ts).
use agent_p.Common.{ℕ, ◌≡◌, String, Option, none, some, Bool, List, Result, ok, err, if◌then◌else◌}
use agent_p.Hooks.Types.{HookStatus, HookReasonCode, NotificationPayload}
use agent_p.Hooks.Json.{Json}
use agent_p.Hooks.Audit.{HookName, HookAuditEvent, LogInput}
use agent_p.Hooks.Policy.Responses.{NotificationDecision, evaluate_notification}
use agent_p.Hooks.Calls.Checked.{with_audit-Audited}
use agent_p.Hooks.Calls.{HookEnv, Runtime, Prepared, Answer, prepare, with_audit}

pub record NotificationContext : Type 0 where
  pub enabled : Bool
  pub timestamp : ℕ

pub record NotificationResult : Type 0 where
  pub status : HookStatus
  pub session_id : String
  pub timestamp : ℕ
  pub notification_type : String
  pub message : String
  pub title : Option String
  pub reason_code : Option HookReasonCode

-- A context as it is given.
pub record NotificationContextInput : Type 0 where
  pub enabled : Option Bool
  pub timestamp : Option ℕ

-- The schemas of payload, context and result, and the two first as JSON.
pub record NotificationSchemas : Type 0 where
  pub parse_payload : NotificationPayload → Result NotificationPayload
  pub parse_context : NotificationContextInput → ℕ → Result NotificationContext
  pub parse_result : NotificationResult → Result NotificationResult
  pub payload_json : NotificationPayload → Json
  pub context_json : NotificationContext → Json

notified :
    HookStatus
    → Option HookReasonCode
    → NotificationPayload
    → NotificationContext
    → NotificationResult
notified status code p c = record {
  status = status;
  session_id = p.session_id;
  timestamp = c.timestamp;
  notification_type = p.notification_type;
  message = p.message;
  title = p.title;
  reason_code = code;
}

module _ {World : Type 0} (env : HookEnv World) (schemas : NotificationSchemas) where
  -- No decision and no reason are logged.
  notification_entry :
      Prepared NotificationPayload NotificationContext → NotificationResult → ℕ → LogInput
  notification_entry s r latency = record {
    hook = HookName.notification;
    session_id = r.session_id;
    platform = s.platform;
    status = r.status;
    timestamp = r.timestamp;
    latency_ms = latency;
    decision = none;
    reason_code = r.reason_code;
    reason = none;
    payload = schemas.payload_json s.payload;
    context = schemas.context_json s.context;
    config = s.audit;
  }

  decided_notification :
      Prepared NotificationPayload NotificationContext → NotificationDecision → NotificationResult
  unfolding notified
  decided_notification s d =
      if d.is_allowed
      then notified HookStatus.executed none s.payload s.context
      else notified HookStatus.skipped d.reason_code s.payload s.context

  -- The result before its schema.
  notification_result : Prepared NotificationPayload NotificationContext → NotificationResult
  unfolding notified decided_notification evaluate_notification
  notification_result s =
      if s.context.enabled
      then decided_notification s (evaluate_notification env.lower s.policy s.payload)
      else notified HookStatus.skipped (some HookReasonCode.hook_disabled) s.payload s.context

  decide_notification :
      Result (Prepared NotificationPayload NotificationContext) × World
      → List HookAuditEvent
      → Answer World NotificationResult
  unfolding with_audit notification_result notification_entry
  decide_notification (err m, w) events = (err m, w, events)
  decide_notification (ok s, w) events =
      with_audit env s.started_at (notification_entry s)
        (schemas.parse_result (notification_result s)) w events

  execute_notification :
      NotificationPayload
      → NotificationContextInput
      → Runtime
      → World
      → List HookAuditEvent
      → Answer World NotificationResult
  unfolding decide_notification prepare
  execute_notification payload context runtime w events =
      decide_notification
        (prepare env runtime (schemas.parse_payload payload) context.timestamp
          (schemas.parse_context context) w)
        events

  decide_notification-err :
      (p : Result (Prepared NotificationPayload NotificationContext) × World) (m : String)
      (w : World) (events events2 : List HookAuditEvent)
      → decide_notification p events ≡ (err m, w, events2)
      → events2 ≡ events
  unfolding decide_notification
  decide_notification-err (err n, v) m w events events2 h = cc
  decide_notification-err (ok s, v) m w events events2 h =
      with_audit-Audited env (notification_entry s) s.started_at
        (schemas.parse_result (notification_result s)) v w events events2 (err m) h

  -- A call that throws leaves the events of the audit log as they were.
  execute_notification-err :
      (payload : NotificationPayload) (context : NotificationContextInput) (runtime : Runtime)
      (m : String) (w w2 : World) (events events2 : List HookAuditEvent)
      → execute_notification payload context runtime w events ≡ (err m, w2, events2)
      → events2 ≡ events
  unfolding execute_notification
  execute_notification-err payload context runtime m w w2 events events2 h =
      decide_notification-err
        (prepare env runtime (schemas.parse_payload payload) context.timestamp
          (schemas.parse_context context) w)
        m w2 events events2 h
