-- ===== src/Publication/Tests.antt =====
-- A comment on a diagnosis that quotes a mention.
use pipe_lens.Common.{ℕ, ◌≡◌, ◌≤◌, refl, Text, codes, join, length, true, none, [], ◌∷◌, leb→le}
use pipe_lens.Models.{unverified, timeout, Classification, Diagnosis}
use pipe_lens.Publication.{suffix, sections, render_github_diagnosis, safe, safe_url}
use pipe_lens.Publication.Bounds.{Published, render_github_diagnosis-Published}
use pipe_lens.Publication.Mentions.{Quiet, quiet, mentions_nobody}
use pipe_lens.Publication.Mentions.Sections.{render_github_diagnosis-mentions_nobody}

abbrev percent : ℕ → Text
percent n = codes "50%"

abbrev classification : Classification
classification = record {
  category = timeout;
  confidence = 500000;
  first_error = codes "e";
  related_step = none;
  matched_rules = [];
}

abbrev diagnosis : Diagnosis
diagnosis = record {
  summary = codes "ask @root <b>";
  root_cause = codes "r";
  confidence = 500000;
  evidence = record { source = codes "log"; content = codes "e"; location = none } ∷ [];
  suggestions = [];
  conflicts = [];
  notes = [];
}

abbrev url : Text
url = codes "http://p/?run_id=7"

safe_test : safe (codes "@a <b>") ≡ b'@' ∷ 8203 ∷ codes "a &lt;b&gt;"
unfolding safe
safe_test = refl

suffix_fits : length (suffix url) ≤ 60000
unfolding safe_url
suffix_fits = leb→le (length (suffix url)) 60000 refl

render_github_diagnosis-Published_example :
    Published url
      (join (10 ∷ []) (sections percent 7 classification diagnosis [] url unverified none none))
      (render_github_diagnosis percent 7 classification diagnosis [] url unverified none none)
render_github_diagnosis-Published_example =
    render_github_diagnosis-Published percent 7 classification diagnosis [] url unverified none none
      suffix_fits

percent_plain : (n : ℕ) → Quiet (percent n)
unfolding quiet
percent_plain n = refl

render_github_diagnosis-mentions_nobody_example :
    mentions_nobody (
      render_github_diagnosis percent 7 classification diagnosis []
        (codes "h")
        unverified
        none
        none)
    ≡ true
render_github_diagnosis-mentions_nobody_example =
    render_github_diagnosis-mentions_nobody percent percent_plain 7 classification diagnosis []
      (codes "h") unverified none none (refl, tt)
