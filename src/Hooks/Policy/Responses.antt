-- ===== src/Hooks/Policy/Responses.antt =====
-- `evaluatePostToolUse`, `evaluateStop` and `evaluateNotification` (src/hooks/policy.ts).
pub mod Blocks
use Prim.Native.String.{◌++◌ as str_append}
use agent_p.Common.{String, Option, none, some, Bool, true, false, or_else, if◌then◌else◌}
use agent_p.Common.Text.{contains}
use agent_p.Hooks.Types.{
  BlockDecision, HookReasonCode, PostToolUsePayload, PostToolUseContext, StopPayload, StopContext,
  NotificationPayload,
}
use agent_p.Hooks.Types.HookReasonCode.{policy_block}
use agent_p.Hooks.Policy.Config.{PolicyConfig}
use agent_p.Hooks.Policy.{
  PolicyDecision, decide, decide_because, ScopedPolicy, find_pattern_match, resolve_scoped_policy,
}

pub record NotificationDecision : Type 0 where
  pub is_allowed : Bool
  pub reason_code : Option HookReasonCode

block_by_default : BlockDecision → String → PolicyDecision BlockDecision
block_by_default BlockDecision.block why = decide_because BlockDecision.block why policy_block
block_by_default BlockDecision.pass why = decide BlockDecision.pass

post_default : ScopedPolicy → PolicyDecision BlockDecision
unfolding block_by_default
post_default s =
    block_by_default s.policy.post_tool_use_default
      "Blocked by configured default post-tool policy decision"

post_sensitive : ScopedPolicy → Option String → PolicyDecision BlockDecision
unfolding post_default
post_sensitive s (some p) =
    decide_because BlockDecision.block
      (str_append "Strict policy blocked sensitive response pattern: " p) policy_block
post_sensitive s none = post_default s

unfoldable pub response_text : PostToolUsePayload → String
response_text payload = or_else payload.tool_response ""

module _ (lower : String → String) where
  post_decided : ScopedPolicy → PostToolUsePayload → Option String → PolicyDecision BlockDecision
  unfolding post_sensitive post_default find_pattern_match response_text
  post_decided s payload (some p) =
      decide_because BlockDecision.block
        (str_append "Post-tool policy blocked response pattern: " p) policy_block
  post_decided s payload none =
      if s.policy.strict_mode
      then post_sensitive s
          (find_pattern_match lower (response_text payload) s.policy.sensitive_patterns)
      else post_default s

  -- `lastAssistantMessage?.toLowerCase().includes(signal.toLowerCase()) ?? false`
  has_signal : Option String → String → Bool
  unfolding contains
  has_signal none signal = false
  has_signal (some m) signal = contains (lower m) (lower signal)

  stop_default_decision : PolicyConfig → PolicyDecision BlockDecision
  unfolding block_by_default
  stop_default_decision c =
      block_by_default c.base.stop_default "Blocked by configured default stop policy decision"

  signal_missing : PolicyDecision BlockDecision
  signal_missing = record {
    decision = BlockDecision.block;
    reason = some "Completion signal missing from assistant output";
    reason_code = some policy_block;
    context_additions = some "Continue and produce a complete final answer before stopping.";
  }

  stop_decided : PolicyConfig → StopPayload → Option String → PolicyDecision BlockDecision
  unfolding has_signal stop_default_decision signal_missing
  stop_decided c payload none = stop_default_decision c
  stop_decided c payload (some signal) =
      if has_signal payload.last_assistant_message signal
      then stop_default_decision c
      else signal_missing

  unfoldable pub evaluate_stop :
      PolicyConfig → StopPayload → StopContext → PolicyDecision BlockDecision
  unfolding stop_decided
  evaluate_stop c payload context =
      if payload.stop_hook_active
      then decide BlockDecision.pass
      else stop_decided c payload context.completion_signal

  notification_decided : Option String → NotificationDecision
  notification_decided (some p) = record { is_allowed = false; reason_code = some policy_block }
  notification_decided none = record { is_allowed = true; reason_code = none }

  unfoldable pub evaluate_notification : PolicyConfig → NotificationPayload → NotificationDecision
  unfolding notification_decided find_pattern_match
  evaluate_notification c payload =
      if c.base.strict_mode
      then notification_decided (
          find_pattern_match lower
            (str_append payload.notification_type (str_append "\n" payload.message))
            c.base.sensitive_patterns)
      else record { is_allowed = true; reason_code = none }

module _ (lower trim : String → String) where
  unfoldable pub evaluate_post_tool_use :
      PolicyConfig → PostToolUsePayload → PostToolUseContext → PolicyDecision BlockDecision
  unfolding post_decided resolve_scoped_policy find_pattern_match response_text
  evaluate_post_tool_use c payload context =
      post_decided lower (resolve_scoped_policy lower trim c payload.tool_name) payload
        (find_pattern_match lower (response_text payload) context.block_patterns)
