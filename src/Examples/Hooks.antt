-- ===== src/Examples/Hooks.antt =====
-- The theorems on hooks at concrete inputs (src/hooks), for texts that are in lower case already.
use agent_p.Common.{
  ℕ, suc, ◌≡◌, refl, ◌↔◌, String, none, some, Bool, true, false, List, [], ◌∷◌, Result, ok, ◌==◌,
  string_eq,
}
use agent_p.Hooks.Types.{
  enforce, HookStatus, HookReasonCode, PreToolUseResult, HookPlatform, PermissionDecision,
  BlockDecision, PreToolUsePayload, PreToolUseContext, PostToolUsePayload, PostToolUseContext,
  StopPayload, StopContext,
}
use agent_p.Common.Text.{contains}
use agent_p.Hooks.Calls.{HookEnv, Runtime, prepare, with_audit}
use agent_p.Hooks.PreToolUse.{
  parse_pre_tool_use, trim_pre_tool_use, PreToolUseSchemas, PreToolUseContextInput,
  pre_tool_use_result, executed_pre_tool_use, pre_tool_use_entry, execute_pre_tool_use,
}
use agent_p.Hooks.PreToolUse.Outcome.{Outcome, execute_pre_tool_use-Outcome}
use agent_p.Hooks.Json.{Json, text, object, no_member, member}
use agent_p.Hooks.Audit.{
  trim_event, trim_option, HookName, HookAuditEvent, LogInput, log, write, stringify_preview,
}
use agent_p.Hooks.Audit.Redaction.{Logged, log-Logged}
use agent_p.Hooks.Policy.{
  find_pattern_match, searchable_input, resolve_scoped_policy, evaluate_pre_tool_use,
}
use agent_p.Hooks.Policy.Config.{Profile, PolicyConfig, resolve_config}
use agent_p.Hooks.Policy.Permission.{Rules, Blocked, Escalated, scoped, evaluate_pre_tool_use_iff}
use agent_p.Hooks.Policy.Responses.{evaluate_post_tool_use}
use agent_p.Hooks.Policy.Responses.Blocks.{Offends, evaluate_post_tool_use_iff}

abbrev as_is : String → String
as_is s = s

strict_config : PolicyConfig
strict_config = resolve_config (record {
  profile = some Profile.strict;
  strict_mode = none;
  escalation_threshold = none;
  risky_tools = none;
  sensitive_patterns = none;
  pre_tool_use_default = none;
  post_tool_use_default = none;
  stop_default = none;
  category_overrides = none;
  tool_overrides = none;
})

abbrev shell_use : PreToolUsePayload
shell_use = record {
  session_id = "session-1";
  tool_name = "bash";
  tool_input = "{\"command\":\"rm -rf build\"}";
  tool_use_id = none;
}

abbrev no_removal : PreToolUseContext
no_removal = record {
  enabled = true;
  timestamp = 5;
  mode = enforce;
  blocked_patterns = "rm -rf" ∷ [];
}

evaluate_pre_tool_use_iff_example :
    ((evaluate_pre_tool_use as_is as_is strict_config shell_use no_removal).decision
      ≡ PermissionDecision.deny)
    ↔ Rules
        (Blocked as_is as_is strict_config shell_use no_removal)
        (Escalated as_is as_is strict_config shell_use no_removal)
        (scoped as_is as_is strict_config shell_use no_removal).policy.pre_tool_use_default
        enforce
        PermissionDecision.deny
evaluate_pre_tool_use_iff_example =
    evaluate_pre_tool_use_iff as_is as_is strict_config shell_use no_removal PermissionDecision.deny

abbrev answered : PostToolUsePayload
answered = record {
  session_id = "session-1";
  tool_name = "bash";
  tool_input = "{}";
  tool_response = some "\"the token is 1234\"";
  tool_use_id = none;
}

abbrev nothing_blocked : PostToolUseContext
nothing_blocked = record { enabled = true; timestamp = 5; block_patterns = [] }

evaluate_post_tool_use_iff_example :
    ((evaluate_post_tool_use as_is as_is strict_config answered nothing_blocked).decision
      ≡ BlockDecision.block)
    ↔ Offends as_is
        (resolve_scoped_policy as_is as_is strict_config "bash")
        answered
        nothing_blocked
evaluate_post_tool_use_iff_example =
    evaluate_post_tool_use_iff as_is as_is strict_config answered nothing_blocked

abbrev at_end : StopPayload
at_end = record {
  session_id = "session-1";
  stop_hook_active = false;
  last_assistant_message = some "all tests pass, done";
}

abbrev wants_done : StopContext
wants_done = record { enabled = true; timestamp = 5; completion_signal = some "done" }

abbrev is_token : String → Bool
is_token key = key == "token"

-- Enough of a printer: the number of code units is all that counts here.
abbrev blank : Json → List ℕ
blank value = 123 ∷ 125 ∷ []

abbrev accept : HookAuditEvent → Result (Unit {0})
accept e = ok tt

abbrev entry : LogInput
entry = record {
  hook = HookName.pre_tool_use;
  session_id = "session-1";
  platform = HookPlatform.neutral;
  status = HookStatus.executed;
  timestamp = 5;
  latency_ms = 1;
  decision = some "allow";
  reason_code = none;
  reason = none;
  payload = object (member "token" (text "1234") no_member);
  context = object no_member;
  config = record { enabled = true; redact_sensitive = true; max_preview_chars = 2000 };
}

abbrev logged : HookAuditEvent
logged = record {
  hook = HookName.pre_tool_use;
  session_id = "session-1";
  platform = HookPlatform.neutral;
  status = HookStatus.executed;
  timestamp = 5;
  latency_ms = 1;
  decision = some "allow";
  reason_code = none;
  reason = none;
  payload_preview = 123 ∷ 125 ∷ [];
  context_preview = 123 ∷ 125 ∷ [];
}

-- The sink has room for one event.
logs_one : log is_token blank as_is accept 1 entry (logged ∷ []) ≡ ok (logged ∷ [])
unfolding log write stringify_preview
logs_one = refl

log-Logged_example : Logged is_token blank as_is accept 0 entry (logged ∷ []) (logged ∷ [])
log-Logged_example =
    log-Logged is_token blank as_is accept 0 entry (logged ∷ []) (logged ∷ []) refl refl logs_one

abbrev shell_env : HookEnv ℕ
shell_env = record {
  now = λ w. (w, suc w);
  lower = as_is;
  trim = as_is;
  sensitive = is_token;
  stringify = blank;
  check_event = accept;
  check_policy = λ i. ok i;
  parse_audit =
      λ i. ok (record { enabled = true; redact_sensitive = true; max_preview_chars = 2000 });
  max_entries = 500;
}

abbrev shell_schemas : PreToolUseSchemas
shell_schemas = record {
  check_payload = λ p. ok tt;
  check_context = λ c t. ok tt;
  check_result = λ r. ok tt;
  payload_json = λ p. object (member "toolName" (text p.tool_name) no_member);
  context_json = λ c. object no_member;
}

abbrev given_context : PreToolUseContextInput
given_context = record {
  enabled = none;
  timestamp = some 5;
  mode = none;
  blocked_patterns = some ("rm -rf" ∷ []);
}

abbrev no_options : Runtime
no_options = record { policy = none; audit = none; platform = none }

refused : PreToolUseResult
refused = record {
  status = HookStatus.executed;
  session_id = "session-1";
  timestamp = 5;
  tool_name = "bash";
  decision = some PermissionDecision.deny;
  reason = some "Blocked by policy pattern: rm -rf";
  reason_code = some HookReasonCode.policy_block;
  context_additions = none;
  tool_use_id = none;
}

refused_event : HookAuditEvent
refused_event = record logged {
  latency_ms = 1;
  decision = some "deny";
  reason_code = some HookReasonCode.policy_block;
  reason = some "Blocked by policy pattern: rm -rf";
}

is_refused :
    execute_pre_tool_use shell_env shell_schemas shell_use given_context no_options 7 []
    ≡ (ok refused, 9, refused_event ∷ [])
unfolding execute_pre_tool_use prepare with_audit log write stringify_preview evaluate_pre_tool_use
    find_pattern_match contains refused refused_event searchable_input resolve_scoped_policy
    resolve_config pre_tool_use_result executed_pre_tool_use pre_tool_use_entry parse_pre_tool_use
    trim_pre_tool_use trim_event trim_option
is_refused = refl

execute_pre_tool_use-Outcome_example :
    Outcome shell_env shell_schemas shell_use given_context no_options
      (ok refused)
      []
      (refused_event ∷ [])
execute_pre_tool_use-Outcome_example =
    execute_pre_tool_use-Outcome shell_env shell_schemas shell_use given_context no_options 7 9 []
      (refused_event ∷ []) (ok refused) is_refused
