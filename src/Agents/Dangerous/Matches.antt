-- ===== src/Agents/Dangerous/Matches.antt =====
-- What the walk over the signals and rules finds.
use agent_p.Common.{
  ◌≡◌, refl, sym, ◌∙◌, ap, String, Option, Bool, true, false, ◌||◌, ◌&&◌, List, [], ◌∷◌, ◌++◌, any,
  string_eq, ◌==◌, ==_iff, Bool-cases, inl, inr, arith,
}
use agent_p.Agents.Types.{Analysis, ReasonCode, DangerousPatternMatch}
use agent_p.Agents.Dangerous.{
  DangerousPatternRule, dangerous_pattern_rules, Signal, collect_signal_texts, apply_rule,
  apply_rules, scan_signals, detect_dangerous_patterns,
}

-- A match has the code `c`.
abbrev pub has_code : ReasonCode → List DangerousPatternMatch → Bool
has_code c ms = any (λ (m : DangerousPatternMatch). m.reason_code == c) ms

-- No code stands in two matches.
abbrev pub OneEach : List DangerousPatternMatch → Type 0
OneEach [] = Unit
OneEach (m ∷ ms) = (has_code m.reason_code ms ≡ false) × OneEach ms

module _ (test : String → String → Bool) where
  -- Some rule with the code `c` occurs in one of the signals.
  abbrev rule_hits : ReasonCode → Signal → List DangerousPatternRule → Bool
  rule_hits c signal rules =
      any (λ (r : DangerousPatternRule). r.reason_code == c && test r.pattern signal.text) rules

  abbrev pub occurs : ReasonCode → List Signal → Bool
  occurs c signals = any (λ signal. rule_hits c signal dangerous_pattern_rules) signals

==_swap : (x y : String) → (x == y) ≡ (y == x)
==_swap x y = elim (Bool-cases (x == y)) [
  | inl e ↦ e ∙ sym ((==_iff y x).1 (sym ((==_iff x y).0 e)))
  | inr e ↦ elim (Bool-cases (y == x)) [
    | inl f ↦ let other : (x == y) ≡ true = (==_iff x y).1 (sym ((==_iff y x).0 f)) in cc
    | inr f ↦ e ∙ sym f
  ]
]

has_code-snoc :
    (c : ReasonCode) (ms : List DangerousPatternMatch) (m : DangerousPatternMatch)
    → has_code c (ms ++ m ∷ []) ≡ (has_code c ms || m.reason_code == c)
has_code-snoc c [] m = ground arith
has_code-snoc c (n ∷ ms) m = ground (arith, has_code-snoc c ms m)

has_code-same :
    (c d : ReasonCode) (ms : List DangerousPatternMatch)
    → (d == c) ≡ true
    → has_code c ms ≡ has_code d ms
has_code-same c d ms e = ap (λ x. has_code x ms) (sym ((==_iff d c).0 e))

OneEach-snoc :
    (ms : List DangerousPatternMatch) (m : DangerousPatternMatch)
    → OneEach ms
    → has_code m.reason_code ms ≡ false
    → OneEach (ms ++ m ∷ [])
OneEach-snoc [] m h new = (refl, tt)
OneEach-snoc (n ∷ ms) m (h, hs) new = (
  has_code-snoc n.reason_code ms m ∙ ground (arith, h, new, ==_swap m.reason_code n.reason_code),
  OneEach-snoc ms m hs (ground (arith, new)),
)

-- The match that a rule adds for a signal.
abbrev found_by : Signal → DangerousPatternRule → DangerousPatternMatch
found_by signal rule = record {
  category = rule.category;
  reason_code = rule.reason_code;
  indicator = rule.indicator;
  source = signal.source;
}

module _ (test : String → String → Bool) where
  apply_rule-has_code :
      (signal : Signal) (ms : List DangerousPatternMatch) (rule : DangerousPatternRule)
      (c : ReasonCode)
      → has_code c (apply_rule test signal ms rule)
        ≡ (has_code c ms || (rule.reason_code == c && test rule.pattern signal.text))
  unfolding apply_rule
  apply_rule-has_code signal ms rule c = elim (Bool-cases (test rule.pattern signal.text)) [
    | inl e ↦ elim (Bool-cases (has_code rule.reason_code ms)) [
      | inl old ↦ rw (e, old) (ground (arith, has_code-same c rule.reason_code ms, old))
      | inr new ↦ rw (e, new) (ground (arith, has_code-snoc c ms (found_by signal rule)))
    ]
    | inr e ↦ rw e (ground arith)
  ]

  apply_rule-OneEach :
      (signal : Signal) (ms : List DangerousPatternMatch) (rule : DangerousPatternRule)
      → OneEach ms
      → OneEach (apply_rule test signal ms rule)
  unfolding apply_rule
  apply_rule-OneEach signal ms rule h = elim (Bool-cases (test rule.pattern signal.text)) [
    | inl e ↦ elim (Bool-cases (has_code rule.reason_code ms)) [
      | inl old ↦ rw (e, old) h
      | inr new ↦ rw (e, new) (OneEach-snoc ms _ h new)
    ]
    | inr e ↦ rw e h
  ]

  apply_rules-has_code :
      (signal : Signal) (rules : List DangerousPatternRule) (ms : List DangerousPatternMatch)
      (c : ReasonCode)
      → has_code c (apply_rules test signal rules ms)
        ≡ (has_code c ms || rule_hits test c signal rules)
  unfolding apply_rules
  apply_rules-has_code signal [] ms c = ground arith
  apply_rules-has_code signal (rule ∷ rules) ms c =
      apply_rules-has_code signal rules (apply_rule test signal ms rule) c
      ∙ ground (arith, apply_rule-has_code signal ms rule c)

  apply_rules-OneEach :
      (signal : Signal) (rules : List DangerousPatternRule) (ms : List DangerousPatternMatch)
      → OneEach ms
      → OneEach (apply_rules test signal rules ms)
  unfolding apply_rules
  apply_rules-OneEach signal [] ms h = h
  apply_rules-OneEach signal (rule ∷ rules) ms h =
      apply_rules-OneEach signal rules (apply_rule test signal ms rule)
        (apply_rule-OneEach signal ms rule h)

  scan_signals-has_code :
      (signals : List Signal) (ms : List DangerousPatternMatch) (c : ReasonCode)
      → has_code c (scan_signals test signals ms) ≡ (has_code c ms || occurs test c signals)
  unfolding scan_signals
  scan_signals-has_code [] ms c = ground arith
  scan_signals-has_code (signal ∷ signals) ms c =
      scan_signals-has_code signals (apply_rules test signal dangerous_pattern_rules ms) c
      ∙ ground (arith, apply_rules-has_code signal dangerous_pattern_rules ms c)

  scan_signals-OneEach :
      (signals : List Signal) (ms : List DangerousPatternMatch)
      → OneEach ms
      → OneEach (scan_signals test signals ms)
  unfolding scan_signals
  scan_signals-OneEach [] ms h = h
  scan_signals-OneEach (signal ∷ signals) ms h =
      scan_signals-OneEach signals (apply_rules test signal dangerous_pattern_rules ms)
        (apply_rules-OneEach signal dangerous_pattern_rules ms h)

  -- The matches that are found have different reason codes, and a code is among them exactly if a
  -- rule with that code occurs in the query or in a note, a risk or the summary of the analysis.
  pub detect_dangerous_patterns_lem :
      (query : String) (a : Option Analysis)
      → OneEach (detect_dangerous_patterns test query a)
        × ((c : ReasonCode)
            → has_code c (detect_dangerous_patterns test query a)
              ≡ occurs test c (collect_signal_texts query a))
  unfolding detect_dangerous_patterns
  detect_dangerous_patterns_lem query a = (
    scan_signals-OneEach (collect_signal_texts query a) [] tt,
    λ c. scan_signals-has_code (collect_signal_texts query a) [] c,
  )
