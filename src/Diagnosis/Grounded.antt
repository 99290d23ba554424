-- ===== src/Diagnosis/Grounded.antt =====
-- What `validate_diagnosis` leaves of a diagnosis, and that a diagnosis made from a log stands.
use pipe_lens.Common.{
  ◌≤◌, ◌≡◌, ◌≢◌, refl, subst, All-filter_of, Text, codes, text_eq, strip, splitlines, true, false,
  Option, List, [], ◌∷◌, map, filter, All, All-filter, All-map, All-weaker, Bool-cases, List-cases,
  ◌⊎◌, inl, inr, arith,
}
use pipe_lens.Common.Infix.{
  Infix, contains-Infix, Infix-contains, Infix_trans, strip-Infix, splitlines-Infix,
}
use pipe_lens.Models.{Evidence, Suggestion, Diagnosis, Classification}
use pipe_lens.Regex.{Unicode, search}
use pipe_lens.Classifier.{classify_log, classify_lines, unclassified, stripped_lines, fires}
use pipe_lens.Classifier.Rules.{DetectionRule, rules, error_line}
use pipe_lens.Diagnosis.{
  validate_diagnosis, build_rule_based_diagnosis, is_grounded, names_repository_file, unconfirmed,
}

-- Evidence that claims to come from the log stands in the log.
abbrev pub Grounded : Text → Evidence → Type 0
Grounded log e = (text_eq e.source (codes "log") ≡ false) ⊎ Infix log e.content

-- A suggestion names no file, or one of the repository.
abbrev pub Named : Option (List Text) → Suggestion → Type 0
Named files s = names_repository_file files s ≡ true

is_grounded-Grounded : (log : Text) (e : Evidence) → is_grounded log e ≡ true → Grounded log e
unfolding is_grounded
is_grounded-Grounded log e h = elim (Bool-cases (text_eq e.source (codes "log"))) [
  | inr other ↦ inl other
  | inl from_log ↦ inr (contains-Infix log e.content (ground arith))
]

-- A diagnosis with no evidence left admits that the cause is not confirmed.
abbrev pub Admits : Diagnosis → Type 0
Admits d = (d.root_cause ≡ unconfirmed) × (d.confidence ≤ 300000)

-- In a validated diagnosis the evidence from the log stands in the log, the suggestions name only
-- files of the repository, the confidence is not raised, and where no evidence is left, the cause
-- is unconfirmed with a confidence of at most 0.3.
pub validate_diagnosis_lem :
    (diagnosis : Diagnosis) (log : Text) (files : Option (List Text))
    → let d = validate_diagnosis diagnosis log files in
      All (Grounded log) d.evidence
      × All (Named files) d.suggestions
      × (d.confidence ≤ diagnosis.confidence)
      × ((d.evidence ≡ []) → Admits d)
unfolding validate_diagnosis
validate_diagnosis_lem diagnosis log files = (
  All-weaker _ (Grounded log) (is_grounded-Grounded log)
      (filter (is_grounded log) diagnosis.evidence)
      (All-filter (is_grounded log) diagnosis.evidence),
  All-filter (names_repository_file files) diagnosis.suggestions,
  elim (List-cases (filter (is_grounded log) diagnosis.evidence)) [
    | inl e ↦ rw e (omega arith)
    | inr (x, xs, e) ↦ rw e (omega arith)
  ],
  λ e. rw e (refl, omega arith),
)

-- The lines that `classify_log` looks at stand in the log.
stripped_lines-Infix : (u : Unicode) (log : Text) → All (Infix log) (stripped_lines u log)
unfolding stripped_lines
stripped_lines-Infix u log = All-filter_of _ _ (map strip (splitlines log)) (
    All-map (Infix log) strip (splitlines log) (
      All-weaker (Infix log) (λ l. Infix log (strip l))
        (λ l i. Infix_trans log l (strip l) i (strip-Infix l)) (splitlines log)
        (splitlines-Infix log)))

module _ (u : Unicode) (P : Text → Type 0) (step : Option Text) where
  classify_lines_error :
      (rs : List DetectionRule) (otherwise : Classification) (lines : List Text)
      → All P lines
      → P otherwise.first_error
      → P (classify_lines u rs step otherwise lines).first_error
  unfolding classify_lines
  classify_lines_error rs otherwise [] h p = p
  classify_lines_error rs otherwise (line ∷ lines) (h, hs) p =
      elim (List-cases (filter (fires u line) rs)) [
        | inl e ↦ rw e (classify_lines_error rs otherwise lines hs p)
        | inr (x, xs, e) ↦ rw e h
      ]

  unclassified_error :
      (line : Text) (lines : List Text)
      → All P (line ∷ lines)
      → P (unclassified u step (line ∷ lines)).first_error
  unfolding unclassified
  unclassified_error line lines h =
      let found = All-filter_of P (search u error_line) (line ∷ lines) h in
      elim (List-cases (filter (search u error_line) (line ∷ lines))) [
        | inl e ↦ rw e h.0
        | inr (x, xs, e) ↦ rw e (subst (All P) e found).0
      ]

  classify_log_error :
      (log : Text)
      → All P (stripped_lines u log)
      → stripped_lines u log ≢ []
      → P (classify_log u log step).first_error
  unfolding classify_log
  classify_log_error log h some_ = elim (List-cases (stripped_lines u log)) [
    | inl e ↦ elim (some_ e) [ ]
    | inr (x, xs, e) ↦
        let h' : All P (x ∷ xs) = subst (All P) e h in
        rw e (
          classify_lines_error rules (unclassified u step (x ∷ xs)) (x ∷ xs) h'
            (unclassified_error x xs h'))
  ]

-- The diagnosis that is made of the classification of a log passes the validation against that log
-- as it is, whatever the files of the repository, unless all the lines of the log are blank: the
-- rules never cite what the log does not say.
pub rule_based_diagnosis_stands :
    (u : Unicode) (log : Text) (step : Option Text) (files : Option (List Text))
    → stripped_lines u log ≢ []
    → let d = build_rule_based_diagnosis (classify_log u log step) in
      validate_diagnosis d log files ≡ d
unfolding validate_diagnosis build_rule_based_diagnosis is_grounded
rule_based_diagnosis_stands u log step files some_ =
    let found =
      Infix-contains log _
        (classify_log_error u (Infix log) step log (stripped_lines-Infix u log) some_) in
    rw found refl
