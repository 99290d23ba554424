-- ===== src/Patching/Bumps/Tests.antt =====
-- Logs of pip and of a scanner.
use pipe_lens.Common.{◌≡◌, refl, codes, none, some, [], ◌∷◌}
use pipe_lens.Regex.Build.{ascii}
use pipe_lens.Patching.Bumps.{find_version_bumps, manifest_paths_in_log}
use pipe_lens.Patching.Bumps.Sound.{Listed, manifest_paths_in_log-Listed}

pip_test :
    find_version_bumps ascii (
      codes
        "Could not find a version that satisfies the requirement foo==9.9 (from versions: 1.0, 1.1)")
    ≡ some (
        record {
          package_ = codes "foo";
          current = codes "9.9";
          target = codes "1.1";
          reason = codes "설치 가능한 최신 버전";
        }
        ∷ [])
unfolding find_version_bumps
pip_test = refl

-- A table with a column name twice and a row that is shorter than the header.
index_error_test :
    find_version_bumps ascii
      (codes "|A|Library|Installed Version|Fixed Version|A|\n|x|foo|1.0|1.1|")
    ≡ none
unfolding find_version_bumps
index_error_test = refl

manifest_test :
    manifest_paths_in_log ascii (codes "-r ./ci/requirements.txt and ../pyproject.toml")
    ≡ codes "ci/requirements.txt" ∷ []
unfolding manifest_paths_in_log
manifest_test = refl

manifest_paths_in_log-Listed_example :
    Listed ascii (manifest_paths_in_log ascii (codes "-r ./ci/requirements.txt"))
manifest_paths_in_log-Listed_example =
    manifest_paths_in_log-Listed ascii (codes "-r ./ci/requirements.txt")
