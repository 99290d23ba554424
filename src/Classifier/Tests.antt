-- ===== src/Classifier/Tests.antt =====
-- Small logs.
use pipe_lens.Common.{◌≤◌, ◌⊎◌, All, Text, length, ◌≡◌, refl, codes, none, List, [], ◌∷◌}
use pipe_lens.Models.{security, unknown}
use pipe_lens.Regex.{search}
use pipe_lens.Regex.Build.{ascii}
use pipe_lens.Classifier.{
  classify_log, extract_error_context, fires, unclassified, stripped_lines, error_ranges,
  signal_indexes,
}
use pipe_lens.Classifier.Best.{Silent, Found, classify_log_cases}
use pipe_lens.Classifier.Sections.{AreSections, Covered, error_ranges-AreSections}
use pipe_lens.Classifier.Rules.{rules, error_line, scanner_finding_row}

classify_test :
    (classify_log ascii (codes "ok\n  Found 3 known vulnerabilities \nError: exit code 137") none)
    ≡ record {
      category = security;
      confidence = 930000;
      first_error = codes "Found 3 known vulnerabilities";
      related_step = none;
      matched_rules = codes "security.vulnerability" ∷ [];
    }
unfolding classify_log search fires
classify_test = refl

context_test :
    extract_error_context ascii (codes "a\nb\nerror\nc\nd\ne\nf\nfatal\ng") 1 5
    ≡ codes "b\nerror\nc\n...\nf\nfatal\ng"
unfolding extract_error_context search error_line scanner_finding_row
context_test = refl

abbrev log : Text
log = codes "ok\nError: exit code 137"

classify_log_cases_example :
    (All
        (Silent ascii rules none (unclassified ascii none (stripped_lines ascii log)))
        (stripped_lines ascii log)
      × ((classify_log ascii log none).category ≡ unknown)
      × ((classify_log ascii log none).confidence ≡ 200000)
      × ((classify_log ascii log none).matched_rules ≡ []))
    ⊎ Found ascii rules none
        (unclassified ascii none (stripped_lines ascii log))
        (stripped_lines ascii log)
        (classify_log ascii log none)
classify_log_cases_example = classify_log_cases ascii log none

abbrev lines : List Text
lines = codes "a" ∷ codes "error" ∷ codes "b" ∷ codes "c" ∷ codes "fatal" ∷ []

error_ranges-AreSections_example :
    AreSections 5 (error_ranges ascii 1 4 lines)
    × (length (error_ranges ascii 1 4 lines) ≤ 4)
    × (All (λ i. Covered i (error_ranges ascii 1 4 lines)) (signal_indexes ascii 0 lines)
        ⊎ (length (error_ranges ascii 1 4 lines) ≡ 4))
error_ranges-AreSections_example = error_ranges-AreSections ascii 1 4 lines
