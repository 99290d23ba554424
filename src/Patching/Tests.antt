-- ===== src/Patching/Tests.antt =====
-- A diff that moves: its header states line 9, its old side stands on line 2.
use pipe_lens.Common.{true, false, Option, none, some}
use pipe_lens.Models.{Suggestion, llm, Diagnosis}
use pipe_lens.Regex.{search}
use pipe_lens.Regex.Build.{ascii}
use pipe_lens.Sanitizer.{sanitize_log}
use pipe_lens.Patching.Policy.{names_file, policy_violation}
use pipe_lens.Patching.Verify.{parsed, Parsers, Tally, verify_patch_suggestions}
use pipe_lens.Common.{
  ℕ, ◌-◌, ◌≤◌, ◌≡◌, refl, ◌⊎◌, Text, codes, concat, splitlines_keep, text_eq, true, List, [], ◌∷◌,
  arith,
}
use pipe_lens.Patching.{Hunk, applied, matches, locate_hunk, parse_hunks, apply_unified_diff}
use pipe_lens.Patching.Apply.{Applies, locate_hunk_unique, apply_unified_diff_sound}

abbrev original : Text
original = codes "a\nb\nc\n"

abbrev patch : Text
patch = codes "@@ -9,1 +9,1 @@\n-b\n+x\n"

abbrev hunk : Hunk
hunk = record { old_start = 9; old_lines = codes "b\n" ∷ []; new_lines = codes "x\n" ∷ [] }

abbrev lines : List Text
lines = codes "a\n" ∷ codes "b\n" ∷ codes "c\n" ∷ []

abbrev second : ℕ
second = 1

hunk_moved : locate_hunk lines hunk 0 ≡ applied second
unfolding locate_hunk matches text_eq
hunk_moved = refl

matches-hunk : matches lines hunk second ≡ true
unfolding matches text_eq
matches-hunk = refl

locate_hunk_unique_example :
    (0 ≤ second)
    × (matches lines hunk second ≡ true)
    × ((second ≡ hunk.old_start - 1) ⊎ (second ≡ second))
locate_hunk_unique_example =
    locate_hunk_unique lines hunk 0 second second hunk_moved (omega arith) (omega arith)
      matches-hunk

patch_applies : apply_unified_diff original patch ≡ applied (codes "a\nx\nc\n")
unfolding apply_unified_diff text_eq
patch_applies = refl

apply_unified_diff_sound_example :
    (hunks : List Hunk) × (after : List Text) × (parse_hunks patch ≡ applied hunks)
    × Applies hunks (splitlines_keep original) after
    × (concat after ≡ codes "a\nx\nc\n")
apply_unified_diff_sound_example =
    apply_unified_diff_sound original patch (codes "a\nx\nc\n") patch_applies

-- Parsers that accept everything.
abbrev lenient : Parsers
lenient = record { yaml = λ t. parsed; toml = λ t. parsed; json = λ t. parsed }

abbrev suggestion : Suggestion
suggestion = record {
  description = codes "replace b";
  file = some (codes "f.txt");
  patch = some (codes "@@ -9,1 +9,1 @@\n-b\n+x\n");
  source = none;
  patch_verified = false;
}

abbrev diagnosis : Diagnosis
diagnosis = record {
  summary = [];
  root_cause = [];
  confidence = 500000;
  evidence = [];
  suggestions = suggestion ∷ record suggestion { file = none } ∷ [];
  conflicts = [];
  notes = [];
}

abbrev files : List (Text × Text)
files = (codes "f.txt", codes "a\nb\nc\n") ∷ []

abbrev verification : Option (Diagnosis × List (Tally ascii lenient))
verification = verify_patch_suggestions ascii lenient diagnosis files

abbrev outcomes_of : Option (Diagnosis × List (Tally ascii lenient)) → List (Tally ascii lenient)
outcomes_of none = []
outcomes_of (some (d, outcomes)) = outcomes

-- One of the two patches is verified and one is rejected.
verified_test :
    outcomes_of verification
    ≡ record { source = llm; verified = true; count = 1 }
      ∷ record { source = llm; verified = false; count = 1 }
      ∷ []
unfolding verify_patch_suggestions names_file sanitize_log policy_violation search
    apply_unified_diff
verified_test = refl
