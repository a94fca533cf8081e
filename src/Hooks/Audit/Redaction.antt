-- ===== src/Hooks/Audit/Redaction.antt =====
-- What the audit log writes: no values of sensitive keys, in a sink of bounded size
-- (src/hooks/audit.ts).
use agent_p.Common.{
  ℕ, zero, suc, ◌+◌, ◌-◌, ◌≤◌, ◌≡◌, refl, sym, ap, ◌∙◌, String, Bool, true, false, List, [], ◌∷◌,
  ◌++◌, Result, ok, err, Bool-cases, inl, inr, length, length-append, ltb, ◌==◌, string_eq,
  if◌then◌else◌, arith,
}
use agent_p.Hooks.Json.{
  Json, plain, text, array, object, Elements, no_element, element, Members, no_member, member,
}
use agent_p.Hooks.Audit.{
  trim_option, trim_event, HookAuditEvent, LogInput, drop, write, redact_unknown, redact_elements,
  redact_members, stringify_preview, redact_if, audit_event, written, log,
}

mutual
  -- Wherever an object has a sensitive key, its value is the text `[REDACTED]`.
  pub data IsHidden (sensitive : String → Bool) : Json → Type 0 where
    hidden_plain : (t : String) → IsHidden sensitive (plain t)
    hidden_text : (t : String) → IsHidden sensitive (text t)
    hidden_array : {es : Elements} → AreHidden sensitive es → IsHidden sensitive (array es)
    hidden_object : {ms : Members} → MembersHidden sensitive ms → IsHidden sensitive (object ms)

  pub data AreHidden (sensitive : String → Bool) : Elements → Type 0 where
    none_left : AreHidden sensitive no_element
    and_element :
        {v : Json} {es : Elements}
        → IsHidden sensitive v
        → AreHidden sensitive es
        → AreHidden sensitive (element v es)

  pub data MembersHidden (sensitive : String → Bool) : Members → Type 0 where
    no_more : MembersHidden sensitive no_member
    and_member :
        {key : String} {v : Json} {ms : Members}
        → (sensitive key ≡ true → v ≡ text "[REDACTED]")
        → IsHidden sensitive v
        → MembersHidden sensitive ms
        → MembersHidden sensitive (member key v ms)

IsHidden-value :
    (sensitive : String → Bool) (b : Bool) (v : Json)
    → IsHidden sensitive v
    → IsHidden sensitive (if b then text "[REDACTED]" else v)
IsHidden-value sensitive true v h = hidden_text "[REDACTED]"
IsHidden-value sensitive false v h = h

mutual
  unfolding redact_unknown

  pub redact_unknown-IsHidden :
      (sensitive : String → Bool) (v : Json) → IsHidden sensitive (redact_unknown sensitive v)
  redact_unknown-IsHidden sensitive (plain t) = hidden_plain t
  redact_unknown-IsHidden sensitive (text t) = hidden_text t
  redact_unknown-IsHidden sensitive (array es) = hidden_array (redact_elements-Hidden sensitive es)
  redact_unknown-IsHidden sensitive (object ms) = hidden_object (redact_members-Hidden sensitive ms)

  redact_elements-Hidden :
      (sensitive : String → Bool) (es : Elements)
      → AreHidden sensitive (redact_elements sensitive es)
  redact_elements-Hidden sensitive no_element = none_left
  redact_elements-Hidden sensitive (element v es) =
      and_element (redact_unknown-IsHidden sensitive v) (redact_elements-Hidden sensitive es)

  redact_members-Hidden :
      (sensitive : String → Bool) (ms : Members)
      → MembersHidden sensitive (redact_members sensitive ms)
  redact_members-Hidden sensitive no_member = no_more
  redact_members-Hidden sensitive (member key v ms) =
      let rest = redact_members-Hidden sensitive ms in
      let inner = redact_unknown-IsHidden sensitive v in
      elim (Bool-cases (key == "__proto__")) [
        | inl e ↦ rw e rest
        | inr e ↦
            rw e
              (and_member (λ h. rw h refl) (IsHidden-value sensitive (sensitive key) _ inner) rest)
      ]

-- The events that are left stand at the end of the ones before, and are few enough.
drop_end :
    (k : ℕ) (before : List HookAuditEvent) (e : HookAuditEvent)
    → k ≤ length before
    → (gone : List HookAuditEvent) × (kept : List HookAuditEvent) × (before ≡ gone ++ kept)
      × (drop k (before ++ e ∷ []) ≡ kept ++ e ∷ [])
      × (length kept + k ≡ length before)
drop_end zero before e h = ([], before, refl, refl, omega arith)
drop_end (suc k) [] e h = absurd (omega arith)
drop_end (suc k) (x ∷ xs) e h =
    let (gone, kept, split, left, count) = drop_end k xs e (omega arith) in
    (x ∷ gone, kept, ap (λ (ys : List HookAuditEvent). x ∷ ys) split, left, omega arith)

-- What `write` leaves in a sink with room for one event at least.
write_lem :
    (n : ℕ) (e : HookAuditEvent) (events : List HookAuditEvent)
    → (gone : List HookAuditEvent) × (kept : List HookAuditEvent) × (events ≡ gone ++ kept)
      × (write (suc n) e events ≡ kept ++ e ∷ [])
      × (length kept ≤ n)
unfolding write
write_lem n e events =
    let all = events ++ e ∷ [] in
    let count : length all ≡ length events + 1 = length-append events (e ∷ []) in
    elim (Bool-cases (ltb (suc n) (length all))) [
      | inl big ↦
          let le : length all - suc n ≤ length events = ground arith in
          let (gone, kept, split, left, counted) = drop_end (length all - suc n) events e le in
          (gone, kept, split, rw big left, ground arith)
      | inr small ↦ ([], events, refl, rw small refl, ground arith)
    ]

-- What a call of `log` has done: the event that the schema makes stands behind as many of the
-- events before as the sink has room for, and the previews are those of the redacted payload and
-- context, which hide what stands at sensitive keys.
pub record Logged (sensitive : String → Bool) (stringify : Json → List ℕ) (trim : String → String)
    (check_event : HookAuditEvent → Result (Unit {0})) (n : ℕ) (i : LogInput)
    (events events2 : List HookAuditEvent) : Type 0 where
  pub stored : HookAuditEvent
  pub gone : List HookAuditEvent
  pub kept : List HookAuditEvent
  pub before : events ≡ gone ++ kept
  pub after : events2 ≡ kept ++ stored ∷ []
  pub room : length kept ≤ n
  pub payload_preview :
      stored.payload_preview
      ≡ stringify_preview sensitive stringify trim check_event
          (redact_unknown sensitive i.payload)
          i.config.max_preview_chars
  pub context_preview :
      stored.context_preview
      ≡ stringify_preview sensitive stringify trim check_event
          (redact_unknown sensitive i.context)
          i.config.max_preview_chars
  pub payload_hidden : IsHidden sensitive (redact_unknown sensitive i.payload)
  pub context_hidden : IsHidden sensitive (redact_unknown sensitive i.context)
  pub hook : stored.hook ≡ i.hook
  pub status : stored.status ≡ i.status
  pub session : stored.session_id ≡ trim i.session_id
  pub decision : stored.decision ≡ trim_option trim i.decision

module _ (sensitive : String → Bool) (stringify : Json → List ℕ) (trim : String → String)
    (check_event : HookAuditEvent → Result (Unit {0})) where
  written-Logged :
      (n : ℕ) (i : LogInput) (events events2 : List HookAuditEvent) (r : Result (Unit {0}))
      → i.config.redact_sensitive ≡ true
      → check_event (audit_event sensitive stringify trim check_event i) ≡ r
      → written sensitive stringify trim check_event
          (suc n)
          (audit_event sensitive stringify trim check_event i)
          events
          r
        ≡ ok events2
      → Logged sensitive stringify trim check_event n i events events2
  unfolding written audit_event redact_if trim_event
  written-Logged n i events events2 (err m) redacts checked h = cc
  written-Logged n i events events2 (ok u) redacts checked h =
      let e = trim_event trim (audit_event sensitive stringify trim check_event i) in
      let (gone, kept, split, left, room) = write_lem n e events in
      let same : write (suc n) e events ≡ events2 = cc in
      record {
        stored = e;
        gone = gone;
        kept = kept;
        before = split;
        after = sym same ∙ left;
        room = room;
        payload_preview = simp redacts refl;
        context_preview = simp redacts refl;
        payload_hidden = redact_unknown-IsHidden sensitive i.payload;
        context_hidden = redact_unknown-IsHidden sensitive i.context;
        hook = refl;
        status = refl;
        session = refl;
        decision = refl;
      }

  -- With auditing and redaction on, and a sink with room for an event, a call that does not throw
  -- puts one event behind the latest of the events before, in all not more than the sink has room
  -- for. The event has the hook, the status and, trimmed, the session and the decision of the call, and its
  -- previews are those of the redacted payload and context, in which every sensitive key, at any depth, has `[REDACTED]` as its
  -- value.
  pub log-Logged :
      (n : ℕ) (i : LogInput) (events events2 : List HookAuditEvent)
      → i.config.enabled ≡ true
      → i.config.redact_sensitive ≡ true
      → log sensitive stringify trim check_event (suc n) i events ≡ ok events2
      → Logged sensitive stringify trim check_event n i events events2
  unfolding log
  log-Logged n i events events2 enabled redacts h =
      written-Logged n i events events2 _ redacts refl (simp enabled at h)
