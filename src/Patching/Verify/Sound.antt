-- ===== src/Patching/Verify/Sound.antt =====
-- What a patch that is kept has passed.
use pipe_lens.Common.{
  ℕ, ◌+◌, ◌≤◌, ◌≡◌, Text, true, Option, none, some, List, [], ◌∷◌, All, length, if◌then◌else◌, ◌⊎◌,
}
use pipe_lens.Models.{Suggestion, Diagnosis}
use pipe_lens.Regex.{Unicode}
use pipe_lens.Sanitizer.{sanitize_log}
use pipe_lens.Patching.{applied, apply_unified_diff}
use pipe_lens.Patching.Policy.{policy_violation}
use pipe_lens.Patching.Verify.Crashes.{Crashes}
use pipe_lens.Patching.Verify.{
  Parsers, file_of, syntax_error, no_patch, Verification, Tally, changed_lines,
}

module _ (u : Unicode) (parsers : Parsers) (files : List (Text × Text)) where
  -- The patch of the suggestion is of bounded size, applies to the fetched content of the file that
  -- the suggestion names, gives a file that parses, and has in it neither a secret that the
  -- sanitizer knows nor what the policy forbids.
  pub record Passes (s : Suggestion) (patch : Text) : Type 0 where
    pub path : Text
    pub content : Text
    pub updated : Text
    pub names : s.file ≡ some path
    pub fetched : file_of path files ≡ some content
    pub applies : apply_unified_diff content patch ≡ applied updated
    pub parses : syntax_error parsers path updated ≡ some none
    pub clean : (sanitize_log u patch).1 ≡ []
    pub permitted : policy_violation u s patch ≡ none
    pub chars : length patch ≤ 20000
    pub lines : length (changed_lines patch) ≤ 200

  -- A suggestion of the result: it has no patch, or one that is marked as verified and has passed.
  abbrev pub Kept : Suggestion → Type 0
  Kept s =
      (no_patch u parsers s.patch ≡ true)
      ⊎ ((patch : Text) × (s.patch ≡ some patch) × (s.patch_verified ≡ true) × Passes s patch)

  abbrev pub tallied : List (Tally u parsers) → ℕ
  tallied [] = 0
  tallied (t ∷ ts) = t.count + tallied ts

  -- How many suggestions have a patch.
  abbrev pub patched : List Suggestion → ℕ
  patched [] = 0
  patched (s ∷ ss) = (if no_patch u parsers s.patch then 0 else 1) + patched ss

  -- What the loop keeps to, with the suggestions that it has seen.
  pub record Loop (n m : ℕ) (v : Verification u parsers) : Type 0 where
    pub all_kept : All Kept v.suggestions
    pub size : length v.suggestions ≡ n
    pub judged_ : tallied v.outcomes ≡ m

  -- What a step of the loop, and the loop, keep to: a crash, or the invariant.
  abbrev LoopTo : ℕ → ℕ → Option (Verification u parsers) → Type 0
  LoopTo n m none = Crashes u parsers files
  LoopTo n m (some v) = Loop n m v

  -- What is returned, or why an exception leaves it.
  abbrev pub IsVerified : Diagnosis → Option (Diagnosis × List (Tally u parsers)) → Type 0
  IsVerified diagnosis none = Crashes u parsers files
  IsVerified diagnosis (some (d, outcomes)) =
      All Kept d.suggestions
      × (length d.suggestions ≡ length diagnosis.suggestions)
      × (tallied outcomes ≡ patched diagnosis.suggestions)
