-- ===== src/Hooks/Policy/Config.antt =====
-- The configuration of the policy engine: profiles, overrides and the categories of tools
-- (src/hooks/policy.ts).
use Prim.Native.Nat.{◌/◌}
use agent_p.Common.{
  ℕ, ◌*◌, String, Option, none, some, Bool, true, false, List, [], ◌∷◌, or_else, ◌==◌, string_eq,
  if◌then◌else◌,
}
use Prim.Native.Nat.{◌^◌}
use agent_p.Agents.Quality.Types.{one}
use agent_p.Hooks.Types.{PermissionDecision, BlockDecision}

pub data Profile : Type 0 where
  strict : Profile
  balanced : Profile
  permissive : Profile

pub data ToolCategory : Type 0 where
  shell : ToolCategory
  filesystem : ToolCategory
  network : ToolCategory
  orchestration : ToolCategory
  memory : ToolCategory
  database : ToolCategory
  unknown : ToolCategory

tool_categories : List (String × ToolCategory)
tool_categories =
    ("bash", ToolCategory.shell)
    ∷ ("read", ToolCategory.filesystem)
    ∷ ("write", ToolCategory.filesystem)
    ∷ ("edit", ToolCategory.filesystem)
    ∷ ("glob", ToolCategory.filesystem)
    ∷ ("grep", ToolCategory.filesystem)
    ∷ ("webfetch", ToolCategory.network)
    ∷ ("websearch", ToolCategory.network)
    ∷ ("codesearch", ToolCategory.network)
    ∷ ("task", ToolCategory.orchestration)
    ∷ ("question", ToolCategory.orchestration)
    ∷ ("todowrite", ToolCategory.orchestration)
    ∷ ("db:check", ToolCategory.database)
    ∷ ("memory", ToolCategory.memory)
    ∷ []

category_in : List (String × ToolCategory) → String → ToolCategory
category_in [] name = ToolCategory.unknown
category_in ((n, c) ∷ cs) name = let rest = category_in cs name in if n == name then c else rest

unfoldable pub tool_category : String → ToolCategory
unfolding category_in tool_categories
tool_category name = category_in tool_categories name

-- The key that a category has among the overrides; an unknown one has none.
unfoldable pub category_name : ToolCategory → Option String
category_name ToolCategory.shell = some "shell"
category_name ToolCategory.filesystem = some "filesystem"
category_name ToolCategory.network = some "network"
category_name ToolCategory.orchestration = some "orchestration"
category_name ToolCategory.memory = some "memory"
category_name ToolCategory.database = some "database"
category_name ToolCategory.unknown = none

pub record ScopeOverride : Type 0 where
  pub strict_mode : Option Bool
  pub escalation_threshold : Option ℕ
  pub risky : Option Bool
  pub sensitive_patterns : Option (List String)
  pub pre_tool_use_default : Option PermissionDecision
  pub post_tool_use_default : Option BlockDecision
  pub stop_default : Option BlockDecision

-- A policy without its overrides.
pub record Policy : Type 0 where
  pub profile : Profile
  pub strict_mode : Bool
  pub escalation_threshold : ℕ
  pub risky_tools : List String
  pub sensitive_patterns : List String
  pub pre_tool_use_default : PermissionDecision
  pub post_tool_use_default : BlockDecision
  pub stop_default : BlockDecision

pub record PolicyConfig : Type 0 where
  pub base : Policy
  pub category_overrides : List (String × ScopeOverride)
  pub tool_overrides : List (String × ScopeOverride)

-- The configuration as it is given, behind the checks of the schema.
pub record PolicyInput : Type 0 where
  pub profile : Option Profile
  pub strict_mode : Option Bool
  pub escalation_threshold : Option ℕ
  pub risky_tools : Option (List String)
  pub sensitive_patterns : Option (List String)
  pub pre_tool_use_default : Option PermissionDecision
  pub post_tool_use_default : Option BlockDecision
  pub stop_default : Option BlockDecision
  pub category_overrides : Option (List (String × ScopeOverride))
  pub tool_overrides : Option (List (String × ScopeOverride))

common_patterns : List String
common_patterns = "api_key" ∷ "token" ∷ "password" ∷ "secret" ∷ []

-- The double nearest to 0.7 is 6305039478318694 * 2 ^ -53.
unfoldable pub policy_profile_defaults : Profile → Policy
unfolding common_patterns
policy_profile_defaults Profile.strict = record {
  profile = Profile.strict;
  strict_mode = true;
  escalation_threshold = one / 2;
  risky_tools = "bash" ∷ "write" ∷ "webfetch" ∷ "task" ∷ [];
  sensitive_patterns = common_patterns;
  pre_tool_use_default = PermissionDecision.escalate;
  post_tool_use_default = BlockDecision.pass;
  stop_default = BlockDecision.pass;
}
policy_profile_defaults Profile.balanced = record {
  profile = Profile.balanced;
  strict_mode = false;
  escalation_threshold = 6305039478318694 * 2 ^ 1021;
  risky_tools = "bash" ∷ "write" ∷ "webfetch" ∷ [];
  sensitive_patterns = common_patterns;
  pre_tool_use_default = PermissionDecision.allow;
  post_tool_use_default = BlockDecision.pass;
  stop_default = BlockDecision.pass;
}
policy_profile_defaults Profile.permissive = record {
  profile = Profile.permissive;
  strict_mode = false;
  escalation_threshold = one;
  risky_tools = [];
  sensitive_patterns = common_patterns;
  pre_tool_use_default = PermissionDecision.allow;
  post_tool_use_default = BlockDecision.pass;
  stop_default = BlockDecision.pass;
}

-- The transformation at the end of `hookPolicyConfigSchema`.
unfoldable pub resolve_config : PolicyInput → PolicyConfig
unfolding policy_profile_defaults
resolve_config input =
    let profile = or_else input.profile Profile.balanced in
    let defaults = policy_profile_defaults profile in
    record {
      base = record {
        profile = profile;
        strict_mode = or_else input.strict_mode defaults.strict_mode;
        escalation_threshold = or_else input.escalation_threshold defaults.escalation_threshold;
        risky_tools = or_else input.risky_tools defaults.risky_tools;
        sensitive_patterns = or_else input.sensitive_patterns defaults.sensitive_patterns;
        pre_tool_use_default = or_else input.pre_tool_use_default defaults.pre_tool_use_default;
        post_tool_use_default = or_else input.post_tool_use_default defaults.post_tool_use_default;
        stop_default = or_else input.stop_default defaults.stop_default;
      };
      category_overrides = or_else input.category_overrides [];
      tool_overrides = or_else input.tool_overrides [];
    }
