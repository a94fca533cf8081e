-- ===== src/Hooks/Audit.antt =====
-- `HookAuditLogger` over `InMemoryHookAuditSink` (src/hooks/audit.ts). The pattern of sensitive keys,
-- the printing of JSON as UTF-16 code units, trimming, and the checks that the schema of an event
-- makes besides its trimming are parameters.
pub mod Redaction
use agent_p.Common.{
  ℕ, zero, suc, ◌-◌, String, Option, none, some, Bool, true, false, List, [], ◌∷◌, ◌++◌, Result, ok,
  err, length, take, ltb, leb, ◌==◌, string_eq, if◌then◌else◌,
}
use agent_p.Hooks.Types.{HookStatus, HookPlatform, HookReasonCode}
use agent_p.Hooks.Json.{
  Json, plain, text, array, object, Elements, no_element, element, Members, no_member, member,
}

pub data HookName : Type 0 where
  session_start : HookName
  pre_tool_use : HookName
  post_tool_use : HookName
  stop : HookName
  notification : HookName

pub record HookAuditConfig : Type 0 where
  pub enabled : Bool
  pub redact_sensitive : Bool
  pub max_preview_chars : ℕ

pub record HookAuditEvent : Type 0 where
  pub hook : HookName
  pub session_id : String
  pub platform : HookPlatform
  pub status : HookStatus
  pub timestamp : ℕ
  pub latency_ms : ℕ
  pub decision : Option String
  pub reason_code : Option HookReasonCode
  pub reason : Option String
  pub payload_preview : List ℕ
  pub context_preview : List ℕ

pub record LogInput : Type 0 where
  pub hook : HookName
  pub session_id : String
  pub platform : HookPlatform
  pub status : HookStatus
  pub timestamp : ℕ
  pub latency_ms : ℕ
  pub decision : Option String
  pub reason_code : Option HookReasonCode
  pub reason : Option String
  pub payload : Json
  pub context : Json
  pub config : HookAuditConfig

-- `xs.splice(0, n)` leaves the elements behind the first `n`.
abbrev pub drop {ℓ} : {A : Type ℓ} → ℕ → List A → List A
drop zero xs = xs
drop (suc n) [] = []
drop (suc n) (x ∷ xs) = drop n xs

-- `InMemoryHookAuditSink.write`, on the events in the sink.
unfoldable pub write : ℕ → HookAuditEvent → List HookAuditEvent → List HookAuditEvent
write max_entries event events =
    let pushed = events ++ event ∷ [] in
    if ltb max_entries (length pushed) then drop (length pushed - max_entries) pushed else pushed

unfoldable mutual
  pub redact_unknown : (String → Bool) → Json → Json
  redact_unknown sensitive (plain t) = plain t
  redact_unknown sensitive (text t) = text t
  redact_unknown sensitive (array es) = array (redact_elements sensitive es)
  redact_unknown sensitive (object ms) = object (redact_members sensitive ms)

  redact_elements : (String → Bool) → Elements → Elements
  redact_elements sensitive no_element = no_element
  redact_elements sensitive (element v es) =
      element (redact_unknown sensitive v) (redact_elements sensitive es)

  -- An assignment to the key `__proto__` makes no member of its own.
  redact_members : (String → Bool) → Members → Members
  redact_members sensitive no_member = no_member
  redact_members sensitive (member key v ms) =
      let rest = redact_members sensitive ms in
      let inner = redact_unknown sensitive v in
      if key == "__proto__"
      then rest
      else member key (if sensitive key then text "[REDACTED]" else inner) rest

-- The three points behind a preview that was cut.
points : List ℕ
points = b'.' ∷ b'.' ∷ b'.' ∷ []

unfoldable pub trim_option : (String → String) → Option String → Option String
trim_option trim none = none
trim_option trim (some t) = some (trim t)

-- What `hookAuditEventSchema` makes of an event that it accepts.
unfoldable pub trim_event : (String → String) → HookAuditEvent → HookAuditEvent
unfolding trim_option
trim_event trim e = record e {
  session_id = trim e.session_id;
  decision = trim_option trim e.decision;
  reason = trim_option trim e.reason;
}

module _ (sensitive : String → Bool) (stringify : Json → List ℕ) (trim : String → String)
    (check_event : HookAuditEvent → Result (Unit {0})) where
  unfoldable pub stringify_preview : Json → ℕ → List ℕ
  unfolding points
  stringify_preview value max_chars =
      let printed = stringify value in
      if leb (length printed) max_chars then printed else take max_chars printed ++ points

  redact_if : Bool → Json → Json
  unfolding redact_unknown
  redact_if b value = if b then redact_unknown sensitive value else value

  audit_event : LogInput → HookAuditEvent
  unfolding stringify_preview redact_if
  audit_event i = record {
    hook = i.hook;
    session_id = i.session_id;
    platform = i.platform;
    status = i.status;
    timestamp = i.timestamp;
    latency_ms = i.latency_ms;
    decision = i.decision;
    reason_code = i.reason_code;
    reason = i.reason;
    payload_preview =
        stringify_preview (redact_if i.config.redact_sensitive i.payload)
          i.config.max_preview_chars;
    context_preview =
        stringify_preview (redact_if i.config.redact_sensitive i.context)
          i.config.max_preview_chars;
  }

  -- The event is parsed, with the outcome of its checks, and written.
  written :
      ℕ → HookAuditEvent → List HookAuditEvent → Result (Unit {0}) → Result (List HookAuditEvent)
  unfolding write trim_event
  written max_entries e events (ok _) = ok (write max_entries (trim_event trim e) events)
  written max_entries e events (err m) = err m

  -- The events in the sink after the call, if it does not throw.
  unfoldable pub log : ℕ → LogInput → List HookAuditEvent → Result (List HookAuditEvent)
  unfolding written audit_event
  log max_entries i events =
      if i.config.enabled
      then written max_entries (audit_event i) events (check_event (audit_event i))
      else ok events
