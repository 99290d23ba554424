-- ===== src/Classifier/Best.antt =====
-- Which rule a log is classified by.
use pipe_lens.Common.{
  ◌≤◌, ◌<◌, ◌≡◌, refl, Text, Bool, true, false, Option, List, [], ◌∷◌, ◌++◌, arith, ltb, filter,
  All, Bool-cases, ◌⊎◌, inl, inr, ltb→lt, ap,
}
use pipe_lens.Models.{Classification, unknown}
use pipe_lens.Regex.{Unicode}
use pipe_lens.Classifier.Rules.{DetectionRule, rules}
use pipe_lens.Classifier.{
  fires, best_rule, classified, classify_lines, unclassified, stripped_lines, classify_log,
}

module _ (p : DetectionRule → Bool) where
  abbrev NoMore : DetectionRule → DetectionRule → Type 0
  NoMore rule r = (p r ≡ false) ⊎ (r.confidence ≤ rule.confidence)

  abbrev Less : DetectionRule → DetectionRule → Type 0
  Less rule r = (p r ≡ false) ⊎ (r.confidence < rule.confidence)

  -- Of the rules that match, `rule` is the first that no other has more confidence than.
  pub data FirstBest (rule : DetectionRule) : List DetectionRule → Type 0 where
    here :
        (rs : List DetectionRule)
        → p rule ≡ true
        → All (NoMore rule) rs
        → FirstBest rule (rule ∷ rs)
    later :
        (r : DetectionRule) (rs : List DetectionRule)
        → Less rule r
        → FirstBest rule rs
        → FirstBest rule (r ∷ rs)

  -- The maximum that starts with `b` is `b`, or a rule behind it with more confidence.
  best_rule-from :
      (u : Unicode) (b : DetectionRule) (rs : List DetectionRule)
      → ((best_rule u b (filter p rs) ≡ b) × All (NoMore b) rs)
        ⊎ (FirstBest (best_rule u b (filter p rs)) rs
            × (b.confidence < (best_rule u b (filter p rs)).confidence))
  unfolding best_rule
  best_rule-from u b [] = inl (refl, tt)
  best_rule-from u b (x ∷ rs) = elim (Bool-cases (p x)) [
    | inr off ↦ rw off (elim (best_rule-from u b rs) [
      | inl (e, le) ↦ inl (e, (inl refl, le))
      | inr (found, lt) ↦ inr (later x rs (inl off) found, lt)
    ])
    | inl yes_ ↦ rw yes_ (elim (Bool-cases (ltb b.confidence x.confidence)) [
      | inl more ↦
          rw (best_rule, more)
            (elim (best_rule-from u x rs) [
              | inl (e, le) ↦
                  inr (rw e (here rs yes_ le), rw e (ltb→lt b.confidence x.confidence more))
              | inr (found, lt) ↦ inr (
                later x rs (inr lt) found,
                omega (arith, lt, ltb→lt b.confidence x.confidence more),
              )
            ])
      | inr less ↦
          rw (best_rule, less)
            (elim (best_rule-from u b rs) [
              | inl (e, le) ↦ inl (e, (inr (ground arith), le))
              | inr (found, lt) ↦ inr (later x rs (inr (ground arith)) found, lt)
            ])
    ])
  ]

  best_rule-FirstBest :
      (u : Unicode) (rs : List DetectionRule)
      → ((filter p rs ≡ []) × All (λ r. p r ≡ false) rs)
        ⊎ ((b : DetectionRule) × (xs : List DetectionRule) × (filter p rs ≡ b ∷ xs)
            × FirstBest (best_rule u b xs) rs)
  best_rule-FirstBest u [] = inl (refl, tt)
  best_rule-FirstBest u (x ∷ rs) = elim (Bool-cases (p x)) [
    | inr off ↦ rw off (elim (best_rule-FirstBest u rs) [
      | inl (e, none_) ↦ inl (e, (refl, none_))
      | inr (b, xs, e, found) ↦ inr (b, xs, e, later x rs (inl off) found)
    ])
    | inl yes_ ↦ rw yes_ (
        inr (
          x,
          filter p rs,
          refl,
          elim (best_rule-from u x rs) [
            | inl (e, le) ↦ rw e (here rs yes_ le)
            | inr (found, lt) ↦ later x rs (inr lt) found
          ],
        ))
  ]

module _ (u : Unicode) (rs : List DetectionRule) (step : Option Text)
    (otherwise : Classification) where
  -- No rule matches the line.
  abbrev pub Silent : Text → Type 0
  Silent line = All (λ r. fires u line r ≡ false) rs

  -- The lines up to the first that a rule matches, and the rule it is classified by.
  abbrev pub Found : List Text → Classification → Type 0
  Found lines c =
      (before : List Text) × (line : Text) × (after : List Text) × (rule : DetectionRule) × (lines
        ≡ before ++ line ∷ after)
      × All Silent before
      × FirstBest (fires u line) rule rs
      × (c ≡ classified u line step rule)

  classify_lines_cases :
      (lines : List Text)
      → (All Silent lines × (classify_lines u rs step otherwise lines ≡ otherwise))
        ⊎ Found lines (classify_lines u rs step otherwise lines)
  unfolding classify_lines
  classify_lines_cases [] = inl (tt, refl)
  classify_lines_cases (line ∷ lines) = elim (best_rule-FirstBest (fires u line) u rs) [
    | inr (b, xs, e, found) ↦ rw e (inr ([], line, lines, best_rule u b xs, refl, tt, found, refl))
    | inl (e, silent) ↦ rw e (elim (classify_lines_cases lines) [
      | inl (all_, same) ↦ inl ((silent, all_), same)
      | inr (before, line', after, rule, at, silents, best, same) ↦ inr (
        line ∷ before,
        line',
        after,
        rule,
        ap (λ ls. line ∷ ls) at,
        (silent, silents),
        best,
        same,
      )
    ])
  ]

-- A log is classified by the first of its lines that any rule matches, and by the first of the most
-- confident rules that match that line; when no rule matches any line, the category is `unknown`,
-- with the confidence 0.2 and no rule.
pub classify_log_cases :
    (u : Unicode) (log : Text) (step : Option Text)
    → (All (Silent u rules step (unclassified u step (stripped_lines u log))) (stripped_lines u log)
        × ((classify_log u log step).category ≡ unknown)
        × ((classify_log u log step).confidence ≡ 200000)
        × ((classify_log u log step).matched_rules ≡ []))
      ⊎ Found u rules step
          (unclassified u step (stripped_lines u log))
          (stripped_lines u log)
          (classify_log u log step)
unfolding classify_log
classify_log_cases u log step =
    let lines = stripped_lines u log in
    elim (classify_lines_cases u rules step (unclassified u step lines) lines) [
      | inl (silent, e) ↦ inl (
        silent,
        rw e (unfold unclassified in refl),
        rw e (unfold unclassified in refl),
        rw e (unfold unclassified in refl),
      )
      | inr found ↦ inr found
    ]
