-- ===== src/Hooks/Policy/Responses/Blocks.antt =====
-- When a response or a stop is blocked (src/hooks/policy.ts).
use agent_p.Common.{◌≡◌, refl, ◌↔◌, ◌⊎◌, inl, inr, String, Option, none, some, true, Bool-cases}
use agent_p.Common.Text.{Occurs, contains_iff}
use agent_p.Hooks.Types.{
  BlockDecision, PostToolUsePayload, PostToolUseContext, StopPayload, StopContext,
}
use agent_p.Hooks.Policy.Config.{PolicyConfig}
use agent_p.Hooks.Policy.{ScopedPolicy, find_pattern_match, resolve_scoped_policy}
use agent_p.Hooks.Policy.Blocking.{Matched, find_pattern_match-Matched, find_pattern_match-none}
use agent_p.Hooks.Policy.Responses.{
  block_by_default, post_default, post_sensitive, response_text, post_decided,
  evaluate_post_tool_use, has_signal, stop_default_decision, signal_missing, stop_decided,
  evaluate_stop,
}

block_by_default_iff :
    (d : BlockDecision) (why : String)
    → ((block_by_default d why).decision ≡ BlockDecision.block) ↔ (d ≡ BlockDecision.block)
unfolding block_by_default
block_by_default_iff BlockDecision.pass why = (λ h. h, λ h. h)
block_by_default_iff BlockDecision.block why = (λ h. h, λ h. h)

-- What makes a response blocked, for the policy `s` of the tool.
abbrev pub Offends :
    (String → String) → ScopedPolicy → PostToolUsePayload → PostToolUseContext → Type 0
Offends lower s payload context =
    Matched lower (response_text payload) context.block_patterns
    ⊎ ((s.policy.strict_mode ≡ true)
        × Matched lower (response_text payload) s.policy.sensitive_patterns)
    ⊎ (s.policy.post_tool_use_default ≡ BlockDecision.block)

module _ (lower : String → String) (s : ScopedPolicy) (payload : PostToolUsePayload)
    (context : PostToolUseContext) where
  post_sensitive_iff :
      (o : Option String)
      → find_pattern_match lower (response_text payload) s.policy.sensitive_patterns ≡ o
      → ((post_sensitive s o).decision ≡ BlockDecision.block) ↔ (
          Matched lower (response_text payload) s.policy.sensitive_patterns
          ⊎ (s.policy.post_tool_use_default ≡ BlockDecision.block))
  unfolding post_sensitive post_default
  post_sensitive_iff (some p) e = (λ h. inl (find_pattern_match-Matched lower _ _ p e), λ h. refl)
  post_sensitive_iff none e =
      let by =
        block_by_default_iff s.policy.post_tool_use_default
          "Blocked by configured default post-tool policy decision" in
      (
        λ h. inr (by.0 h),
        λ h. elim h [ inl m ↦ absurd (find_pattern_match-none lower _ _ e m) | inr d ↦ by.1 d ],
      )

  post_decided_iff :
      (o : Option String)
      → find_pattern_match lower (response_text payload) context.block_patterns ≡ o
      → ((post_decided lower s payload o).decision ≡ BlockDecision.block)
        ↔ Offends lower s payload context
  unfolding post_decided post_default
  post_decided_iff (some p) e = (λ h. inl (find_pattern_match-Matched lower _ _ p e), λ h. refl)
  post_decided_iff none e =
      let found = find_pattern_match lower (response_text payload) s.policy.sensitive_patterns in
      let sensitive = post_sensitive_iff found refl in
      let by =
        block_by_default_iff s.policy.post_tool_use_default
          "Blocked by configured default post-tool policy decision" in
      elim (Bool-cases s.policy.strict_mode) [
        | inl strict ↦ (
          λ h. elim (sensitive.0 (simp strict at h)) [
            | inl m ↦ inr (inl (strict, m))
            | inr d ↦ inr (inr d)
          ],
          λ o.
              let why : Matched lower (response_text payload) s.policy.sensitive_patterns
                  ⊎ (s.policy.post_tool_use_default ≡ BlockDecision.block) =
                elim o [
                  | inl m ↦ absurd (find_pattern_match-none lower _ _ e m)
                  | inr (inl (t, m)) ↦ inl m
                  | inr (inr d) ↦ inr d
                ] in
              simp strict (sensitive.1 why),
        )
        | inr lax ↦ (
          λ h. inr (inr (by.0 (simp lax at h))),
          λ o.
              let why : s.policy.post_tool_use_default ≡ BlockDecision.block = elim o [
                | inl m ↦ absurd (find_pattern_match-none lower _ _ e m)
                | inr (inl (t, m)) ↦ cc
                | inr (inr d) ↦ d
              ] in
              simp lax (by.1 why),
        )
      ]

-- A tool's response is blocked exactly if a pattern of the context occurs in it, or the policy for
-- the tool is strict and one of its sensitive patterns occurs, or its default is to block.
pub evaluate_post_tool_use_iff :
    (lower trim : String → String) (c : PolicyConfig) (payload : PostToolUsePayload)
    (context : PostToolUseContext)
    → ((evaluate_post_tool_use lower trim c payload context).decision ≡ BlockDecision.block)
      ↔ Offends lower (resolve_scoped_policy lower trim c payload.tool_name) payload context
unfolding evaluate_post_tool_use
evaluate_post_tool_use_iff lower trim c payload context =
    post_decided_iff lower (resolve_scoped_policy lower trim c payload.tool_name) payload context
      (find_pattern_match lower (response_text payload) context.block_patterns) refl

module _ (lower : String → String) where
  -- The signal occurs in the last message, whatever the case of the letters, if one is asked for.
  abbrev pub Signalled : Option String → Option String → Type 0
  Signalled none message = Unit
  Signalled (some signal) message =
      (m : String) × (message ≡ some m) × Occurs (lower signal) (lower m)

  has_signal_iff :
      (message : Option String) (signal : String)
      → (has_signal lower message signal ≡ true) ↔ Signalled (some signal) message
  unfolding has_signal
  has_signal_iff none signal = (λ h. cc, λ h. let (m, e, o) = h in cc)
  has_signal_iff (some m) signal =
      let found = contains_iff (lower m) (lower signal) in
      (
        λ h. (m, refl, found.0 h),
        λ h. let (n, e, o) = h in let same : n ≡ m = cc in found.1 (rw same at o),
      )

  passes_default_iff :
      (c : PolicyConfig)
      → ((stop_default_decision lower c).decision ≡ BlockDecision.pass)
        ↔ (c.base.stop_default ≡ BlockDecision.pass)
  unfolding stop_default_decision
  passes_default_iff c = passes c.base.stop_default
    where
      passes :
          (d : BlockDecision)
          → ((block_by_default d "Blocked by configured default stop policy decision").decision
              ≡ BlockDecision.pass)
            ↔ (d ≡ BlockDecision.pass)
      passes BlockDecision.pass = (λ h. h, λ h. h)
      passes BlockDecision.block = (λ h. h, λ h. h)

  stop_decided_iff :
      (c : PolicyConfig) (payload : StopPayload) (signal : Option String)
      → ((stop_decided lower c payload signal).decision ≡ BlockDecision.pass) ↔ (
          Signalled signal payload.last_assistant_message
          × (c.base.stop_default ≡ BlockDecision.pass))
  unfolding stop_decided signal_missing
  stop_decided_iff c payload none =
      (λ h. (tt, (passes_default_iff c).0 h), λ h. (passes_default_iff c).1 h.1)
  stop_decided_iff c payload (some signal) =
      let has = has_signal_iff payload.last_assistant_message signal in
      elim (Bool-cases (has_signal lower payload.last_assistant_message signal)) [
        | inl e ↦ (
          λ h. (has.0 e, (passes_default_iff c).0 (simp e at h)),
          λ h. simp e ((passes_default_iff c).1 h.1),
        )
        | inr e ↦ (
          λ h.
              let k : BlockDecision.block ≡ BlockDecision.pass = simp (e, signal_missing) at h in
              cc,
          λ h. let t = has.1 h.0 in cc,
        )
      ]

  -- A stop is let through exactly if the stop hook is active already, or the completion signal, if
  -- one is asked for, occurs in the last message and the configured default is to allow.
  pub evaluate_stop_iff :
      (c : PolicyConfig) (payload : StopPayload) (context : StopContext)
      → ((evaluate_stop lower c payload context).decision ≡ BlockDecision.pass) ↔ (
          (payload.stop_hook_active ≡ true)
          ⊎ (Signalled context.completion_signal payload.last_assistant_message
              × (c.base.stop_default ≡ BlockDecision.pass)))
  unfolding evaluate_stop
  evaluate_stop_iff c payload context =
      let decided = stop_decided_iff c payload context.completion_signal in
      elim (Bool-cases payload.stop_hook_active) [
        | inl e ↦ (λ h. inl e, λ h. simp e refl)
        | inr e ↦ (
          λ h. inr (decided.0 (simp e at h)),
          λ h. elim h [ inl t ↦ cc | inr k ↦ simp e (decided.1 k) ],
        )
      ]
