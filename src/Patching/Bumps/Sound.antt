-- ===== src/Patching/Bumps/Sound.antt =====
-- What the bumps and the manifests that a log names satisfy.
use pipe_lens.Common.{
  ℕ, ◌≤◌, ◌<◌, ◌≡◌, refl, Text, codes, text_eq, member, Bool, false, ◌||◌, ◌==◌, List, [], ◌∷◌,
  ◌++◌, any, length, length-append, All, All-append, Bool-cases, arith, inl, inr,
}
use pipe_lens.Regex.{Unicode, group_text, find_all}
use pipe_lens.Relevance.{path_parts}
use pipe_lens.Patching.Bumps.{
  manifest_paths, manifest_paths_in_log, log_named_manifest, without_dot,
}

-- No element stands twice, by a test: each is told apart from those before it.
module _ {A : Type 0} (same : A → A → Bool) where
  abbrev pub Fresh : List A → A → Type 0
  Fresh before a = any (same a) before ≡ false

  pub data Distinct : List A → Type 0 where
    none_ : Distinct []
    more : (xs : List A) (a : A) → Distinct xs → Fresh xs a → Distinct (xs ++ a ∷ [])

-- A relative path that stays below its start.
abbrev pub Below : Text → Type 0
Below path = member (codes "..") (path_parts path) ≡ false

abbrev is_same : Text → Text → Bool
is_same a b = text_eq b a

any-member : (path : Text) (paths : List Text) → any (is_same path) paths ≡ member path paths
unfolding member
any-member path [] = refl
any-member path (p ∷ paths) = rw (any-member path paths) refl

module _ (u : Unicode) where
  -- The paths so far.
  pub record Listed (paths : List Text) : Type 0 where
    pub few : length paths ≤ 5
    pub below : All Below paths
    pub distinct : Distinct is_same paths

  added-Listed :
      (paths : List Text) (path : Text)
      → length paths < 5
      → Listed paths
      → member (codes "..") (path_parts path) || member path paths ≡ false
      → Listed (paths ++ path ∷ [])
  added-Listed paths path few l is_new = record {
    few = omega (arith, few, length-append paths (path ∷ []));
    below = All-append Below paths (path ∷ []) l.below (ground arith, tt);
    distinct = more paths path l.distinct (rw (any-member path paths) (ground arith));
  }

  manifest_paths-Listed :
      (ms : List (List (ℕ × Text))) (paths : List Text)
      → length paths < 5
      → Listed paths
      → Listed (manifest_paths u ms paths)
  unfolding manifest_paths
  manifest_paths-Listed [] paths few l = l
  manifest_paths-Listed (m ∷ ms) paths few l =
      let path = without_dot u (group_text 1 m) in
      elim (Bool-cases (member (codes "..") (path_parts path) || member path paths)) [
        | inl skip ↦ rw skip (manifest_paths-Listed ms paths few l)
        | inr is_new ↦
            let added = added-Listed paths path few l is_new in
            elim (Bool-cases (length (paths ++ path ∷ []) == 5)) [
              | inl full ↦ rw (is_new, full) added
              | inr room ↦
                  rw (is_new, room)
                    (manifest_paths-Listed ms (paths ++ path ∷ []) (ground (arith, added.few, room))
                      added)
            ]
      ]

  -- Of the manifests that a log names at most five are fetched, none twice, and none by a path that
  -- climbs out of the repository.
  pub manifest_paths_in_log-Listed : (log : Text) → Listed (manifest_paths_in_log u log)
  unfolding manifest_paths_in_log
  manifest_paths_in_log-Listed log =
      manifest_paths-Listed (find_all u log_named_manifest log) [] (omega arith)
        (record { few = omega arith; below = tt; distinct = none_ })
