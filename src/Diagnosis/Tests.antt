-- ===== src/Diagnosis/Tests.antt =====
-- A log with a test failure.
use pipe_lens.Common.{
  ◌≡◌, ◌≢◌, ◌≤◌, refl, Text, codes, none, some, [], ◌∷◌, All, arith, starts_with,
}
use pipe_lens.Regex.Build.{ascii}
use pipe_lens.Classifier.{classify_log, stripped_lines}
use pipe_lens.Models.{Diagnosis}
use pipe_lens.Diagnosis.{build_rule_based_diagnosis, validate_diagnosis}
use pipe_lens.Diagnosis.Grounded.{
  Grounded, Named, Admits, validate_diagnosis_lem, rule_based_diagnosis_stands,
}

abbrev log : Text
log = codes "ok\n  Error: exit code 137"

abbrev cited : Diagnosis
cited = record {
  summary = codes "s";
  root_cause = codes "r";
  confidence = 900000;
  evidence = record { source = codes "log"; content = codes "not there"; location = none } ∷ [];
  suggestions = [];
  conflicts = [];
  notes = [];
}

validate_diagnosis_lem_example :
    let d = validate_diagnosis cited log none in
    All (Grounded log) d.evidence
    × All (Named none) d.suggestions
    × (d.confidence ≤ cited.confidence)
    × ((d.evidence ≡ []) → Admits d)
validate_diagnosis_lem_example = validate_diagnosis_lem cited log none

lowered_test : (validate_diagnosis cited log none).confidence ≡ 300000
unfolding validate_diagnosis starts_with
lowered_test = refl

log_has_lines : stripped_lines ascii log ≢ []
unfolding stripped_lines
log_has_lines e = ground (arith, e)

rule_based_diagnosis_stands_example :
    let d = build_rule_based_diagnosis (classify_log ascii log none) in
    validate_diagnosis d log (some []) ≡ d
rule_based_diagnosis_stands_example =
    rule_based_diagnosis_stands ascii log none (some []) log_has_lines
