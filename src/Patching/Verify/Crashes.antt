-- ===== src/Patching/Verify/Crashes.antt =====
-- Why an exception leaves `_patch_rejection`: one of a parser.
use pipe_lens.Common.{
  ◌≡◌, refl, Text, Bool, true, false, Option, none, some, List, [], or_else, ◌||◌, not, any, ltb,
  length, ◌⊎◌, inl, inr, String, codes, text_eq, Bool-cases,
}
use pipe_lens.Models.{Suggestion}
use pipe_lens.Regex.{Unicode}
use pipe_lens.Sanitizer.{sanitize_log}
use pipe_lens.Patching.{Result, applied, rejected, apply_unified_diff}
use pipe_lens.Patching.Policy.{policy_violation}
use pipe_lens.Patching.Verify.{
  ParseEnd, parsed, refused, crashed, Parsers, Rejection, checked, suffix, file_of, syntax_error,
  reject_if, after_policy, updated_error, content_rejection, is_empty, patch_rejection,
  named_rejection, file_rejection, changed_lines, header_paths, is_allowed,
}

reject_if-crashed :
    (bad : Bool) (reason : Text) (rest : Rejection) → reject_if bad reason rest ≡ none → rest ≡ none
unfolding reject_if
reject_if-crashed true reason rest h = cc h
reject_if-crashed false reason rest h = h

module _ (u : Unicode) (parsers : Parsers) (files : List (Text × Text)) where
  -- A parser raises an exception on some text that `_syntax_error` does not expect.
  abbrev pub Crashes : Type 0
  Crashes =
      (text : Text) × ((parsers.yaml text ≡ crashed)
        ⊎ ((parsers.toml text ≡ crashed) ⊎ (parsers.json text ≡ crashed)))

  checked-crashed : (format : String) (p : ParseEnd) → checked format p ≡ none → p ≡ crashed
  checked-crashed format parsed h = cc h
  checked-crashed format refused h = cc h
  checked-crashed format crashed h = refl

  syntax_error-Crashes : (path content : Text) → syntax_error parsers path content ≡ none → Crashes
  unfolding syntax_error
  syntax_error-Crashes path content h =
      let s = suffix path in
      elim (Bool-cases (text_eq s (codes "yml") || text_eq s (codes "yaml"))) [
        | inl yaml_ ↦ (content, inl (checked-crashed "YAML" (parsers.yaml content) (rw yaml_ at h)))
        | inr not_yaml ↦ elim (Bool-cases (text_eq s (codes "toml"))) [
          | inl toml_ ↦ (
            content,
            inr (inl (checked-crashed "TOML" (parsers.toml content) (rw (not_yaml, toml_) at h))),
          )
          | inr not_toml ↦ elim (Bool-cases (text_eq s (codes "json"))) [
            | inl json_ ↦ (
              content,
              inr (
                  inr (
                    checked-crashed "JSON" (parsers.json content)
                      (rw (not_yaml, not_toml, json_) at h))),
            )
            | inr other ↦ cc (rw (not_yaml, not_toml, other) at h)
          ]
        ]
      ]

  after_policy-crashed :
      (label : Option Text) (rest : Rejection)
      → after_policy u parsers label rest ≡ none
      → rest ≡ none
  unfolding after_policy
  after_policy-crashed none rest h = h
  after_policy-crashed (some l) rest h = cc h

  updated_error-Crashes :
      (path : Text) (r : Result Text) → updated_error u parsers path r ≡ none → Crashes
  unfolding updated_error
  updated_error-Crashes path (rejected e) h = cc h
  updated_error-Crashes path (applied updated) h = syntax_error-Crashes path updated h

  content_rejection-Crashes :
      (s : Suggestion) (patch path content : Text)
      → content_rejection u parsers s patch path content ≡ none
      → Crashes
  unfolding content_rejection
  content_rejection-Crashes s patch path content h =
      let h1 = reject_if-crashed (ltb 20000 (length patch)) _ _ h in
      let h2 =
        reject_if-crashed (is_empty (changed_lines patch) || ltb 200 (length (changed_lines patch)))
          _ _ h1 in
      let h3 =
        reject_if-crashed (any (λ header. not (is_allowed path header)) (header_paths patch)) _ _
          h2 in
      let h4 = reject_if-crashed (not (is_empty (sanitize_log u patch).1)) _ _ h3 in
      let h5 = after_policy-crashed (policy_violation u s patch) _ h4 in
      updated_error-Crashes path (apply_unified_diff content patch) h5

  file_rejection-Crashes :
      (s : Suggestion) (patch path : Text) (o : Option Text)
      → file_rejection u parsers s patch path o ≡ none
      → Crashes
  file_rejection-Crashes s patch path none h = cc h
  file_rejection-Crashes s patch path (some content) h =
      content_rejection-Crashes s patch path content (reject_if-crashed (is_empty path) _ _ h)

  named_rejection-Crashes :
      (s : Suggestion) (patch : Text) (o : Option Text)
      → named_rejection u parsers files s patch o ≡ none
      → Crashes
  named_rejection-Crashes s patch none h = cc h
  named_rejection-Crashes s patch (some path) h =
      file_rejection-Crashes s patch path (file_of path files) h

  pub patch_rejection-Crashes :
      (s : Suggestion) → patch_rejection u parsers files s ≡ none → Crashes
  unfolding patch_rejection
  patch_rejection-Crashes s h = named_rejection-Crashes s (or_else s.patch []) s.file h
