-- ===== src/Agents/Dangerous.antt =====
-- The rules of dangerous patterns and the walk that applies them (src/agents/dangerous-patterns.ts).
-- The regular-expression engine, which takes a pattern and a text, is a parameter.
pub mod Matches
use agent_p.Common.{
  String, Option, none, some, Bool, List, [], ◌∷◌, ◌++◌, map, any, string_eq, ◌==◌, if◌then◌else◌,
}
use agent_p.Agents.Types.{
  DangerousCategory, prompt_injection, secret_exfiltration, destructive_command, SignalSource,
  ReasonCode, Analysis, DangerousPatternMatch,
}

pub record DangerousPatternRule : Type 0 where
  pub category : DangerousCategory
  pub reason_code : ReasonCode
  pub indicator : String
  pub pattern : String

abbrev pub dangerous_pattern_rules : List DangerousPatternRule
dangerous_pattern_rules =
    (record {
      category = prompt_injection;
      reason_code = "dangerous_prompt_injection";
      indicator = "Prompt-injection marker";
      pattern =
          "(?:ignore\\s+(?:all\\s+)?(?:previous|prior)\\s+instructions|system\\s+prompt|developer\\s+message|jailbreak|do\\s+anything\\s+now)";
    })
    ∷ (record {
      category = secret_exfiltration;
      reason_code = "dangerous_secret_exfiltration";
      indicator = "Secret exfiltration request";
      pattern =
          "(?:(?:api[ _-]?key|access[ _-]?token|secret|password|credential).*(?:dump|exfiltrat|leak|send|upload|print)|(?:dump|exfiltrat|leak|send|upload|print).*(?:api[ _-]?key|access[ _-]?token|secret|password|credential)|(?:cat|type)\\s+[^\\n\\r]*(?:\\.env|id_rsa|credentials))";
    })
    ∷ (record {
      category = destructive_command;
      reason_code = "dangerous_destructive_command";
      indicator = "Destructive command intent";
      pattern =
          "(?:\\brm\\s+-rf\\b|\\bdel\\s+\\/f\\b|\\bformat\\s+[a-z]:\\b|\\bdrop\\s+database\\b|\\btruncate\\s+table\\b|\\bshutdown\\b)";
    })
    ∷ []

pub record Signal : Type 0 where
  pub source : SignalSource
  pub text : String

abbrev of_analysis : String → Signal
of_analysis text = record { source = SignalSource.analysis; text = text }

analysis_signals : Option Analysis → List Signal
analysis_signals none = []
analysis_signals (some a) =
    map of_analysis a.notes ++ map of_analysis a.risks ++ of_analysis a.summary ∷ []

unfoldable pub collect_signal_texts : String → Option Analysis → List Signal
unfolding analysis_signals
collect_signal_texts query a =
    (record { source = SignalSource.query; text = query }) ∷ analysis_signals a

-- `test p t`: the pattern `p`, with the flag `i`, occurs in the text `t`.
module _ (test : String → String → Bool) where
  -- A rule applied to one text, behind the matches so far.
  unfoldable pub apply_rule :
      Signal → List DangerousPatternMatch → DangerousPatternRule → List DangerousPatternMatch
  apply_rule signal matches rule =
      if test rule.pattern signal.text
      then (if any (λ (m : DangerousPatternMatch). m.reason_code == rule.reason_code) matches
          then matches
          else matches
            ++ (record {
              category = rule.category;
              reason_code = rule.reason_code;
              indicator = rule.indicator;
              source = signal.source;
            })
              ∷ [])
      else matches

  unfoldable pub apply_rules :
      Signal → List DangerousPatternRule → List DangerousPatternMatch → List DangerousPatternMatch
  unfolding apply_rule
  apply_rules signal [] matches = matches
  apply_rules signal (rule ∷ rules) matches =
      apply_rules signal rules (apply_rule signal matches rule)

  unfoldable pub scan_signals :
      List Signal → List DangerousPatternMatch → List DangerousPatternMatch
  unfolding apply_rules
  scan_signals [] matches = matches
  scan_signals (signal ∷ signals) matches =
      scan_signals signals (apply_rules signal dangerous_pattern_rules matches)

  unfoldable pub detect_dangerous_patterns : String → Option Analysis → List DangerousPatternMatch
  unfolding collect_signal_texts scan_signals
  detect_dangerous_patterns query a = scan_signals (collect_signal_texts query a) []
