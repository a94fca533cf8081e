-- ===== src/Hooks/PreToolUse/Outcome.antt =====
-- What `PreToolUseHook.execute` comes to (src/hooks/pre-tool-use.ts).
use agent_p.Common.{ℕ, ◌≡◌, refl, ap, ◌∙◌, none, some, true, false, List, Result, ok, err}
use agent_p.Hooks.Types.{PreToolUsePayload, PreToolUseContext, PreToolUseResult}
use agent_p.Hooks.Audit.{HookAuditEvent, log}
use agent_p.Hooks.Policy.{evaluate_pre_tool_use}
use agent_p.Hooks.Calls.{HookEnv, Runtime, Prepared, prepare}
use agent_p.Hooks.Calls.Checked.{Checked, prepare-Checked, with_audit-Audited}
use agent_p.Hooks.PreToolUse.{
  parse_payload, parse_context, PreToolUseContextInput, PreToolUseSchemas, skipped_pre_tool_use,
  executed_pre_tool_use, pre_tool_use_entry, trim_pre_tool_use, parse_checked, parse_pre_tool_use,
  pre_tool_use_result, decide_pre_tool_use, execute_pre_tool_use,
}

module _ {World : Type 0} (env : HookEnv World) (schemas : PreToolUseSchemas)
    (given : PreToolUsePayload) (context : PreToolUseContextInput) (runtime : Runtime) where
  parse_checked_ok :
      (made r : PreToolUseResult) (c : Result (Unit {0}))
      → parse_checked env schemas made c ≡ ok r
      → r ≡ trim_pre_tool_use env schemas made
  unfolding parse_checked
  parse_checked_ok made r (ok u) h = cc
  parse_checked_ok made r (err m) h = cc

  -- The hook returned `r`: it is, trimmed by its schema, what was made from what the schemas made of
  -- payload, context and options, with the engine's decision, or with none if the hook is disabled;
  -- and it was handed to the audit log, which is as before if auditing is off.
  pub record Returned (r : PreToolUseResult) (events events2 : List HookAuditEvent) : Type 0 where
    pub prepared : Prepared PreToolUsePayload PreToolUseContext
    pub checked :
        Checked env runtime
          (parse_context env schemas context)
          (parse_payload env schemas given)
          prepared
    pub is_made : r ≡ trim_pre_tool_use env schemas (pre_tool_use_result env schemas prepared)
    pub decision_if_enabled :
        prepared.context.enabled ≡ true
        → r.decision
          ≡ some
              (evaluate_pre_tool_use env.lower env.trim prepared.policy prepared.payload
                prepared.context).decision
    pub none_if_disabled : prepared.context.enabled ≡ false → r.decision ≡ none
    pub latency : ℕ
    pub logged :
        log env.sensitive env.stringify env.trim env.check_event env.max_entries
          (pre_tool_use_entry env schemas prepared r latency)
          events
        ≡ ok events2
    pub unaudited : prepared.audit.enabled ≡ false → events2 ≡ events

  abbrev pub Outcome : Result PreToolUseResult → List HookAuditEvent → List HookAuditEvent → Type 0
  Outcome (ok r) events events2 = Returned r events events2
  Outcome (err m) events events2 = events2 ≡ events

  decide_pre_tool_use-Outcome :
      (w w2 w3 : World) (events events2 : List HookAuditEvent)
      (p : Result (Prepared PreToolUsePayload PreToolUseContext)) (x : Result PreToolUseResult)
      → prepare env runtime
          (parse_payload env schemas given)
          context.timestamp
          (parse_context env schemas context)
          w
        ≡ (p, w2)
      → decide_pre_tool_use env schemas (p, w2) events ≡ (x, w3, events2)
      → Outcome x events events2
  unfolding decide_pre_tool_use pre_tool_use_result skipped_pre_tool_use executed_pre_tool_use
      parse_pre_tool_use trim_pre_tool_use pre_tool_use_entry log
  decide_pre_tool_use-Outcome w w2 w3 events events2 (err n) (ok r) e h = cc
  decide_pre_tool_use-Outcome w w2 w3 events events2 (err n) (err m) e h = cc
  decide_pre_tool_use-Outcome w w2 w3 events events2 (ok s) (err m) e h =
      with_audit-Audited env (pre_tool_use_entry env schemas s) s.started_at _ w2 w3 events events2
        (err m) h
  decide_pre_tool_use-Outcome w w2 w3 events events2 (ok s) (ok r) e h =
      let (parsed, (late, logged)) =
        with_audit-Audited env (pre_tool_use_entry env schemas s) s.started_at _ w2 w3 events
          events2 (ok r) h in
      let made = pre_tool_use_result env schemas s in
      let is_made : r ≡ trim_pre_tool_use env schemas made =
        parse_checked_ok made r (schemas.check_result made) parsed in
      record {
        prepared = s;
        checked =
            prepare-Checked env runtime (parse_context env schemas context)
              (parse_payload env schemas given) context.timestamp s w w2 e;
        is_made = is_made;
        decision_if_enabled = λ t. ap (λ (x : PreToolUseResult). x.decision) is_made ∙ simp t refl;
        none_if_disabled = λ f. ap (λ (x : PreToolUseResult). x.decision) is_made ∙ simp f refl;
        latency = late;
        logged = logged;
        unaudited = λ off. let l = simp off at logged in cc;
      }

  -- The result of a call that returns has the decision of the policy engine on the checked payload,
  -- context and policy, or none if the hook is disabled; the call has handed that result to the audit
  -- log, which it left as it was if auditing is off. A call that throws has left the events of the
  -- audit log as they were.
  pub execute_pre_tool_use-Outcome :
      (w w2 : World) (events events2 : List HookAuditEvent) (x : Result PreToolUseResult)
      → execute_pre_tool_use env schemas given context runtime w events ≡ (x, w2, events2)
      → Outcome x events events2
  unfolding execute_pre_tool_use
  execute_pre_tool_use-Outcome w w2 events events2 x h =
      let p =
        prepare env runtime (parse_payload env schemas given) context.timestamp
          (parse_context env schemas context) w in
      decide_pre_tool_use-Outcome w p.1 w2 events events2 p.0 x refl h
