-- ===== src/Hooks/Types.antt =====
-- The data of the hooks (src/hooks/types.ts). A tool's input and response are given by their JSON
-- texts.
use agent_p.Common.{ℕ, String, Option, Bool, List}

pub data HookMode : Type 0 where
  enforce : HookMode
  dry_run : HookMode

pub data PermissionDecision : Type 0 where
  allow : PermissionDecision
  deny : PermissionDecision
  escalate : PermissionDecision

-- `postToolUseDecisionSchema` and `stopHookDecisionSchema`
pub data BlockDecision : Type 0 where
  pass : BlockDecision
  block : BlockDecision

pub data HookReasonCode : Type 0 where
  hook_disabled : HookReasonCode
  policy_block : HookReasonCode
  validation_failed : HookReasonCode
  no_action : HookReasonCode

pub data HookStatus : Type 0 where
  executed : HookStatus
  skipped : HookStatus

pub data HookPlatform : Type 0 where
  neutral : HookPlatform
  claude : HookPlatform
  opencode : HookPlatform

pub record PreToolUsePayload : Type 0 where
  pub session_id : String
  pub tool_name : String
  pub tool_input : String
  pub tool_use_id : Option String

pub record PreToolUseContext : Type 0 where
  pub enabled : Bool
  pub timestamp : ℕ
  pub mode : HookMode
  pub blocked_patterns : List String

pub record PreToolUseResult : Type 0 where
  pub status : HookStatus
  pub session_id : String
  pub timestamp : ℕ
  pub tool_name : String
  pub decision : Option PermissionDecision
  pub reason : Option String
  pub reason_code : Option HookReasonCode
  pub context_additions : Option String
  pub tool_use_id : Option String

pub record PostToolUsePayload : Type 0 where
  pub session_id : String
  pub tool_name : String
  pub tool_input : String
  pub tool_response : Option String
  pub tool_use_id : Option String

pub record PostToolUseContext : Type 0 where
  pub enabled : Bool
  pub timestamp : ℕ
  pub block_patterns : List String

pub record StopPayload : Type 0 where
  pub session_id : String
  pub stop_hook_active : Bool
  pub last_assistant_message : Option String

pub record StopContext : Type 0 where
  pub enabled : Bool
  pub timestamp : ℕ
  pub completion_signal : Option String

pub record NotificationPayload : Type 0 where
  pub session_id : String
  pub notification_type : String
  pub message : String
  pub title : Option String
