-- ===== src/Publication/Bounds.antt =====
-- How long the published text is.
use pipe_lens.Common.{
  ℕ, ◌-◌, ◌≤◌, ◌≡◌, refl, sym, Text, join, Option, List, [], ◌∷◌, ◌++◌, length, take, leb,
  Bool-cases, arith, length-append, length-take, ◌⊎◌, inl, inr, take-append-drop, drop, leb→le,
  le→leb, leb-false,
}
use pipe_lens.Models.{TrustLevel, Classification, Diagnosis, RelatedFile}
use pipe_lens.Publication.{
  max_github_body_chars, suffix, limited, sections, render_github_diagnosis,
}

-- What is published of a body: all of it, or as much of its start as leaves room for the link.
abbrev pub Published : Text → Text → Text → Type 0
Published url body text =
    ((text ≡ body) × (length body ≤ 60000))
    ⊎ ((start : Text) × (rest : Text) × (body ≡ start ++ rest)
        × (text ≡ start ++ suffix url)
        × (length text ≡ 60000))

limited-Published :
    (url body : Text) → length (suffix url) ≤ 60000 → Published url body (limited url body)
unfolding limited max_github_body_chars
limited-Published url body fits = elim (Bool-cases (leb (length body) 60000)) [
  | inl short ↦ rw short (inl (refl, leb→le (length body) 60000 short))
  | inr long ↦
      let n = 60000 - length (suffix url) in
      rw (long, le→leb (length (suffix url)) 60000 fits)
        (inr (
          take n body,
          drop n body,
          sym (take-append-drop n body),
          refl,
          rw (length-append (take n body) (suffix url), length-take n body)
              (omega (arith, fits, leb-false (length body) 60000 long)),
        ))
]

-- A comment is never longer than 60,000 characters: it is the whole text, or its start with the link
-- to the analysis behind it, which is then exactly as long as is allowed; the link itself must fit.
pub render_github_diagnosis-Published :
    (percent : ℕ → Text) (run_id : ℕ) (c : Classification) (d : Diagnosis)
    (files : List RelatedFile) (url : Text) (trust : TrustLevel) (baseline head : Option Text)
    → length (suffix url) ≤ 60000
    → Published url
        (join (10 ∷ []) (sections percent run_id c d files url trust baseline head))
        (render_github_diagnosis percent run_id c d files url trust baseline head)
unfolding render_github_diagnosis
render_github_diagnosis-Published percent run_id c d files url trust baseline head fits =
    limited-Published url
      (join (10 ∷ []) (sections percent run_id c d files url trust baseline head)) fits
