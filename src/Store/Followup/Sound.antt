-- ===== src/Store/Followup/Sound.antt =====
-- What a follow-up run resolves, and whose feedback is stored.
use pipe_lens.Common.{
  ℕ, codes, ◌≢◌, ◌≡◌, Bool, true, false, not, ◌&&◌, ◌||◌, Option, none, some, ◌==◌, ltb, All, ◌⊎◌,
}
use pipe_lens.Models.{Analysis}
use pipe_lens.Table.{select, first}
use pipe_lens.Store.{Store, run_key}
use pipe_lens.Store.Fencing.{IsValid}
use pipe_lens.Store.Followup.{Followup, is_candidate, newer, completed_after}

-- The order of the three columns, over their values.
abbrev later : Bool → Option ℕ → ℕ → ℕ → Option ℕ → ℕ → ℕ → Bool
later b c i a c' i' a' =
    completed_after b c c' || (not (completed_after b c' c) && (ltb i' i || (i == i' && ltb a' a)))

-- A run that succeeded or failed, and has a branch or a pull request.
abbrev pub IsHeard : Followup → Type 0
IsHeard f =
    ((f.conclusion ≡ codes "success") ⊎ (f.conclusion ≡ codes "failure"))
    × ((f.head_branch ≢ none) ⊎ (f.pull_request_number ≢ none))

module _ (nulls_first : Bool) (now : ℕ) (f : Followup) (s : Store) (valid : IsValid s) where
  -- The candidate, as it is stored, and that no other is newer.
  abbrev pub IsNewest : Analysis → Type 0
  IsNewest r =
      (is_candidate f r ≡ true)
      × (first (run_key r.run_id) s.analyses ≡ some r)
      × All (λ x. newer nulls_first x r ≡ false) (select (is_candidate f) s.analyses)
