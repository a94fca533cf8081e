-- ===== src/Hooks/Calls/Checked.antt =====
-- What a call that began has checked, and what `withAudit` logs.
use agent_p.Common.{ℕ, ◌≡◌, refl, Option, List, Result, ok, err, or_else}
use agent_p.Hooks.Types.{HookPlatform}
use agent_p.Hooks.Audit.{HookAuditConfig, HookAuditEvent, LogInput, log}
use agent_p.Hooks.Policy.Config.{PolicyConfig}
use agent_p.Hooks.Calls.{
  HookEnv, Runtime, Prepared, policy_of, audit_of, time_or_now, all_checked, prepare_payload,
  prepare, after_log, with_audit,
}

module _ {World P C : Type 0} (env : HookEnv World) (runtime : Runtime)
    (context : ℕ → Result C) where
  -- Payload, context, policy and audit configuration are what their schemas made of what was given.
  pub record Checked (payload : Result P) (s : Prepared P C) : Type 0 where
    pub is_payload : payload ≡ ok s.payload
    pub time : ℕ
    pub is_context : context time ≡ ok s.context
    pub is_policy : policy_of env runtime ≡ ok s.policy
    pub is_audit : audit_of env runtime ≡ ok s.audit

  all_checked-Checked :
      (t started : ℕ) (p : P) (platform : HookPlatform) (c : Result C)
      (policy : Result PolicyConfig) (audit : Result HookAuditConfig) (s : Prepared P C)
      → context t ≡ c
      → policy_of env runtime ≡ policy
      → audit_of env runtime ≡ audit
      → all_checked env started p platform c policy audit ≡ ok s
      → Checked (ok p) s
  unfolding all_checked
  all_checked-Checked t started p platform (err m) policy audit s ec ep ea h = cc
  all_checked-Checked t started p platform (ok c) (err m) audit s ec ep ea h = cc
  all_checked-Checked t started p platform (ok c) (ok q) (err m) s ec ep ea h = cc
  all_checked-Checked t started p platform (ok c) (ok q) (ok a) s ec ep ea h = record {
    is_payload = cc;
    time = t;
    is_context = cc;
    is_policy = cc;
    is_audit = cc;
  }

  prepare_payload-Checked :
      (given : Option ℕ) (started : ℕ) (payload : Result P) (s : Prepared P C) (w w2 : World)
      → prepare_payload env runtime given context started payload w ≡ (ok s, w2)
      → Checked payload s
  unfolding prepare_payload
  prepare_payload-Checked given started (err m) s w w2 h = cc
  prepare_payload-Checked given started (ok p) s w w2 h =
      let t = (time_or_now env given w).0 in
      let platform = or_else runtime.platform HookPlatform.neutral in
      all_checked-Checked t started p platform (context t) (policy_of env runtime)
        (audit_of env runtime) s refl refl refl cc

  -- What a call that began has was checked by the schemas.
  pub prepare-Checked :
      (payload : Result P) (given : Option ℕ) (s : Prepared P C) (w w2 : World)
      → prepare env runtime payload given context w ≡ (ok s, w2)
      → Checked payload s
  unfolding prepare
  prepare-Checked payload given s w w2 h = prepare_payload-Checked given _ payload s _ w2 h

module _ {World R : Type 0} (env : HookEnv World) (entry : R → ℕ → LogInput) where
  -- What `withAudit` did: it returned the result and logged it, or it threw and logged nothing.
  abbrev pub Audited : Result R → List HookAuditEvent → Result R → List HookAuditEvent → Type 0
  Audited made events (ok r) events2 =
      (made ≡ ok r)
      × ((latency : ℕ) × (log env.sensitive env.stringify env.trim env.check_event env.max_entries
              (entry r latency) events
            ≡ ok events2))
  Audited made events (err m) events2 = events2 ≡ events

  after_log-Audited :
      (r : R) (made : Result R) (latency : ℕ) (w w2 : World) (events events2 : List HookAuditEvent)
      (logged : Result (List HookAuditEvent)) (x : Result R)
      → made ≡ ok r
      → log env.sensitive env.stringify env.trim env.check_event env.max_entries
          (entry r latency)
          events
        ≡ logged
      → after_log env r w events logged ≡ (x, w2, events2)
      → Audited made events x events2
  unfolding after_log
  after_log-Audited r made latency w w2 events events2 (ok l) (ok x) e k h = (cc, (latency, cc))
  after_log-Audited r made latency w w2 events events2 (ok l) (err m) e k h = cc
  after_log-Audited r made latency w w2 events events2 (err n) (ok x) e k h = cc
  after_log-Audited r made latency w w2 events events2 (err n) (err m) e k h = cc

  pub with_audit-Audited :
      (started : ℕ) (made : Result R) (w w2 : World) (events events2 : List HookAuditEvent)
      (x : Result R)
      → with_audit env started entry made w events ≡ (x, w2, events2)
      → Audited made events x events2
  unfolding with_audit
  with_audit-Audited started (err n) w w2 events events2 (ok x) h = cc
  with_audit-Audited started (err n) w w2 events events2 (err m) h = cc
  with_audit-Audited started (ok r) w w2 events events2 x h =
      after_log-Audited r (ok r) _ _ w2 events events2 _ x refl refl h
