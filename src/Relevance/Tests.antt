-- ===== src/Relevance/Tests.antt =====
-- Two changed files, of which one is in the log.
use pipe_lens.Common.{
  ◌≡◌, refl, Text, codes, none, some, List, [], ◌∷◌, ◌++◌, All, length, min, map,
}
use mathlib.Core.List.{Perm}
use pipe_lens.Models.{test, ChangedFile, RelatedFile}
use pipe_lens.Regex.{lower}
use pipe_lens.Regex.Build.{ascii}
use pipe_lens.Relevance.{correlate_changed_files, relate_all, tokens, sorted, path_parts}
use pipe_lens.Relevance.Ranking.{IsRelated, Ordered, correlate_changed_files_lem}

abbrev log : Text
log = codes "FAILED src/app.py::check value_map"

abbrev file : Text → Text → ChangedFile
file name patch = record {
  filename = name;
  status = codes "m";
  patch = some patch;
  previous_filename = none;
}

abbrev changed : List ChangedFile
changed = file (codes "lib/other.py") (codes "+value_map = 1") ∷ file (codes "src/app.py") [] ∷ []

names_test :
    map (λ (f : RelatedFile). f.filename) (correlate_changed_files ascii log changed test 5)
    ≡ codes "src/app.py" ∷ codes "lib/other.py" ∷ []
unfolding correlate_changed_files
names_test = refl

path_test : path_parts (codes "/a//./b.txt") ≡ codes "/" ∷ codes "a" ∷ codes "b.txt" ∷ []
unfolding path_parts
path_test = refl

correlate_changed_files_lem_example :
    let all_related = relate_all ascii (lower ascii log) (tokens ascii log) test changed in
    let result = correlate_changed_files ascii log changed test 5 in
    (left_out : List RelatedFile) × Perm (result ++ left_out) all_related
    × Ordered (result ++ left_out)
    × All IsRelated all_related
    × (length result ≡ min 5 (length (sorted all_related)))
correlate_changed_files_lem_example = correlate_changed_files_lem ascii log changed test 5
