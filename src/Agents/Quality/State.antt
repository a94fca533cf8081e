-- ===== src/Agents/Quality/State.antt =====
-- The variables of `executeQualityPath` and its local functions (src/agents/expert.ts): reason codes,
-- dangerous patterns, the gates, the steps, and the window of the rate limit.
use agent_p.Common.{
  ℕ, ◌+◌, Option, none, some, Bool, true, false, not, ◌&&◌, ◌||◌, List, [], ◌∷◌, ◌++◌, map,
  includes, ltb, leb, ◌==◌, string_eq, if◌then◌else◌,
}
use Prim.Native.String.{compare}
use text.Mathlib.Text.{is_le}
use agent_p.Agents.Types.{Handoff, ReasonCode, DangerousPatternMatch, SignalSource}
use agent_p.Agents.Quality.Types.{
  ResolvedPolicy, GateState, SkipReason, trust_gate, goal_gate, stage_failure, stage_timeout,
  circuit_open, rate_limited, executed, skipped, HopResult, QualityStep, Resilience,
}

pub record QualityRun (World : Type 0) : Type 0 where
  pub trust : ℕ
  pub goal : ℕ
  pub steps : List QualityStep
  pub reason_codes : List ReasonCode
  pub dangerous_patterns : List DangerousPatternMatch
  pub blocking : Option SkipReason
  pub consecutive_failures : ℕ
  pub resilience : Resilience
  pub timestamps : List ℕ
  pub world : World

-- `Set.add`, which keeps the order of insertion.
unfoldable pub add_code : ReasonCode → List ReasonCode → List ReasonCode
add_code c cs = if includes cs c then cs else cs ++ c ∷ []

unfoldable pub add_codes : List ReasonCode → List ReasonCode → List ReasonCode
unfolding add_code
add_codes [] cs = cs
add_codes (d ∷ ds) cs = add_codes ds (add_code d cs)

insert_code : ReasonCode → List ReasonCode → List ReasonCode
insert_code c [] = c ∷ []
insert_code c (d ∷ ds) =
    let rest = insert_code c ds in if is_le (compare c d) then c ∷ d ∷ ds else d ∷ rest

-- `Array.from(reasonCodes).sort()`; the codes are ASCII.
unfoldable pub sort_codes : List ReasonCode → List ReasonCode
unfolding insert_code
sort_codes [] = []
sort_codes (c ∷ cs) = insert_code c (sort_codes cs)

same_source : SignalSource → SignalSource → Bool
same_source SignalSource.query SignalSource.query = true
same_source SignalSource.analysis SignalSource.analysis = true
same_source _ _ = false

-- The keys `reasonCode:source` are equal: a source has no colon.
same_key : DangerousPatternMatch → DangerousPatternMatch → Bool
unfolding same_source
same_key a b = a.reason_code == b.reason_code && same_source a.source b.source

has_key : List DangerousPatternMatch → DangerousPatternMatch → Bool
unfolding same_key
has_key [] a = false
has_key (b ∷ bs) a = same_key a b || has_key bs a

dedupe_from : List DangerousPatternMatch → List DangerousPatternMatch → List DangerousPatternMatch
unfolding has_key
dedupe_from kept [] = kept
dedupe_from kept (a ∷ qs) =
    let without = dedupe_from kept qs in
    let with_it = dedupe_from (kept ++ a ∷ []) qs in if has_key kept a then without else with_it

unfoldable pub dedupe_dangerous_patterns : List DangerousPatternMatch → List DangerousPatternMatch
unfolding dedupe_from
dedupe_dangerous_patterns qs = dedupe_from [] qs

unfoldable pub to_gate_state : ResolvedPolicy → ℕ → ℕ → GateState
to_gate_state p trust goal = record {
  trust_score = trust;
  goal_completion = goal;
  importance = p.importance;
  stability = p.stability;
  trust_passed = not p.enforce_trust_gate || leb p.min_trust_score trust;
  goal_passed = not p.enforce_goal_gate || leb p.min_goal_completion goal;
}

unfoldable pub resolve_skip_reason : GateState → ResolvedPolicy → Option SkipReason
resolve_skip_reason g p =
    if not g.trust_passed && not p.continue_on_trust_gate_failure
    then some trust_gate
    else if not g.goal_passed && not p.continue_on_goal_gate_failure
    then some goal_gate
    else none

-- The code that a stage adds when it is skipped: the constants of the file, by reason.
unfoldable pub code_of : SkipReason → ReasonCode
code_of trust_gate = "trust_score_below_threshold"
code_of goal_gate = "goal_completion_below_threshold"
code_of stage_failure = "stage_execution_failed"
code_of stage_timeout = "stage_execution_timeout"
code_of circuit_open = "resilience_circuit_open"
code_of rate_limited = "resilience_rate_limited"

-- The codes after a skip for a blocking reason; none of the gates' is noted.
block_codes : SkipReason → List ReasonCode → List ReasonCode
unfolding code_of add_code
block_codes trust_gate cs = cs
block_codes goal_gate cs = cs
block_codes stage_failure cs = add_code (code_of stage_failure) cs
block_codes stage_timeout cs = add_code (code_of stage_timeout) cs
block_codes circuit_open cs = add_code (code_of circuit_open) cs
block_codes rate_limited cs = add_code (code_of rate_limited) cs

-- A stage skipped before any attempt.
unfoldable pub skipped_step : Handoff → GateState → SkipReason → QualityStep
skipped_step h g why = record {
  handoff = h;
  status = skipped;
  gate_state = g;
  skip_reason = some why;
  result = none;
  attempts = none;
  duration_ms = none;
  failure_reason_code = none;
}

unfoldable pub executed_step : Handoff → GateState → HopResult → ℕ → ℕ → QualityStep
executed_step h g r attempts duration = record {
  handoff = h;
  status = executed;
  gate_state = g;
  skip_reason = none;
  result = some r;
  attempts = some attempts;
  duration_ms = some duration;
  failure_reason_code = none;
}

unfoldable pub failed_step : Handoff → GateState → SkipReason → ℕ → ℕ → QualityStep
unfolding code_of
failed_step h g why attempts duration = record {
  handoff = h;
  status = skipped;
  gate_state = g;
  skip_reason = some why;
  result = none;
  attempts = some attempts;
  duration_ms = some duration;
  failure_reason_code = some (code_of why);
}

-- `while (timestamps[0] < windowStart) timestamps.shift()`, with the window added on the other side.
unfoldable pub forget_old : ℕ → ℕ → List ℕ → List ℕ
forget_old started window [] = []
forget_old started window (t ∷ ts) =
    let rest = forget_old started window ts in if ltb (t + window) started then rest else t ∷ ts

module _ {World : Type 0} where
  -- A stage that is skipped for a gate or the open circuit.
  unfoldable pub skip_stage : Handoff → GateState → SkipReason → QualityRun World → QualityRun World
  unfolding skipped_step code_of add_code
  skip_stage h g why s = record s {
    steps = s.steps ++ skipped_step h g why ∷ [];
    reason_codes = add_code (code_of why) s.reason_codes;
  }

  -- A stage that is skipped for the blocking reason `why`.
  unfoldable pub skip_blocked :
      Handoff → GateState → SkipReason → QualityRun World → QualityRun World
  unfolding skipped_step block_codes
  skip_blocked h g why s = record s {
    steps = s.steps ++ skipped_step h g why ∷ [];
    reason_codes = block_codes why s.reason_codes;
  }

  unfoldable pub add_dangerous_patterns :
      List DangerousPatternMatch → QualityRun World → QualityRun World
  unfolding dedupe_dangerous_patterns add_codes
  add_dangerous_patterns ps s = record s {
    dangerous_patterns = dedupe_dangerous_patterns (s.dangerous_patterns ++ ps);
    reason_codes = add_codes (map (λ (a : DangerousPatternMatch). a.reason_code) ps) s.reason_codes;
  }
