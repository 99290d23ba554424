-- ===== src/Classifier/Sections.antt =====
-- The sections that `extract_error_context` cuts out of a log.
use pipe_lens.Common.{
  ℕ, suc, All-weaker, ◌+◌, ◌≤◌, ◌<◌, ◌≡◌, refl, Text, none, some, List, [], ◌∷◌, arith, ltb, leb,
  max, All, length, Bool-cases, ◌⊎◌, subst, sym, inl, inr,
}
use pipe_lens.Regex.{Unicode}
use pipe_lens.Classifier.{
  Range, around, add_range, add_ranges, error_ranges, signal_indexes, has_error_signal,
}

-- The next range in the file begins behind the end of this one.
abbrev Apart : List Range → ℕ → Type 0
Apart [] start = Unit
Apart (last ∷ _) start = last.end < start

-- Ranges of a text of `size` lines, the last one first: none is empty, each is within the text, and
-- there is a gap between each and the next.
abbrev pub AreSections : ℕ → List Range → Type 0
AreSections size [] = Unit
AreSections size (r ∷ ranges) =
    (r.start < r.end) × (r.end ≤ size) × Apart ranges r.start × AreSections size ranges

-- Some range holds the index.
abbrev pub Covered : ℕ → List Range → Type 0
Covered index [] = ⊥
Covered index (r ∷ ranges) = ((r.start ≤ index) × (index < r.end)) ⊎ Covered index ranges

-- The last range does not begin behind the index.
abbrev Before : ℕ → List Range → Type 0
Before index [] = Unit
Before index (last ∷ _) = last.start ≤ index

-- Indexes in the order of the lines.
abbrev Ascending : ℕ → List ℕ → Type 0
Ascending low [] = Unit
Ascending low (i ∷ is) = (low ≤ i) × Ascending (i + 1) is

module _ (size context_lines max_sections : ℕ) where
  pub record Sound (ranges : List Range) : Type 0 where
    pub sections : AreSections size ranges
    pub few : length ranges ≤ max_sections

  -- What one round does to sound ranges.
  pub record Added (index : ℕ) (ranges ranges' : List Range) : Type 0 where
    pub sound : Sound ranges'
    pub before : Before index ranges'
    pub covered : Covered index ranges'
    pub kept : (j : ℕ) → Covered j ranges → Covered j ranges'

  add_range_cases :
      (index : ℕ) (ranges : List Range)
      → index < size
      → Before index ranges
      → Sound ranges
      → ((add_range max_sections (around size context_lines index) ranges ≡ none)
          × (length ranges ≡ max_sections))
        ⊎ ((ranges' : List Range) × (add_range max_sections (around size context_lines index) ranges
              ≡ some ranges')
            × Added index ranges ranges')
  unfolding add_range
  add_range_cases index [] lt b h = elim (Bool-cases (ltb 0 max_sections)) [
    | inr off ↦ inl (rw off refl, ground arith)
    | inl yes_ ↦ inr (
      around size context_lines index ∷ [],
      rw yes_ refl,
      record {
        sound = record { sections = (omega arith, omega arith, tt, tt); few = ground arith };
        before = omega arith;
        covered = inl (omega arith, omega arith);
        kept = λ j c. elim c [ ];
      },
    )
  ]
  add_range_cases index (last ∷ ranges) lt b h =
      let r = around size context_lines index in
      elim (Bool-cases (leb r.start last.end)) [
        | inl overlaps ↦ inr (
          record last { end = max last.end r.end } ∷ ranges,
          rw overlaps refl,
          record {
            sound = record {
              sections = (
                omega (arith, h.sections.0),
                omega (arith, h.sections.1),
                h.sections.2,
                h.sections.3,
              );
              few = h.few;
            };
            before = b;
            covered = inl (b, omega (arith, lt));
            kept = λ j c. elim c [
              | inl (low, high) ↦ inl (low, omega (arith, high))
              | inr c' ↦ inr c'
            ];
          },
        )
        | inr apart ↦ rw apart (elim (Bool-cases (ltb (length (last ∷ ranges)) max_sections)) [
          | inr off ↦ inl (rw off refl, ground (arith, h.few))
          | inl room ↦ inr (
            r ∷ last ∷ ranges,
            rw room refl,
            record {
              sound = record {
                sections = (omega arith, omega arith, ground arith, h.sections);
                few = ground arith;
              };
              before = omega arith;
              covered = inl (omega arith, omega arith);
              kept = λ j c. inr c;
            },
          )
        ])
      ]

  Before-later : {i j : ℕ} (ranges : List Range) → Before i ranges → i ≤ j → Before j ranges
  Before-later [] b le = tt
  Before-later (last ∷ ranges) b le = omega (arith, b, le)

  -- Every index ends up in a range, unless there are as many as are allowed.
  abbrev Done : List ℕ → List Range → List Range → Type 0
  Done indexes ranges ranges' =
      Sound ranges'
      × ((j : ℕ) → Covered j ranges → Covered j ranges')
      × (All (λ i. Covered i ranges') indexes ⊎ (length ranges' ≡ max_sections))

  add_ranges-Done :
      (low : ℕ) (indexes : List ℕ) (ranges : List Range)
      → Ascending low indexes
      → All (λ i. i < size) indexes
      → Before low ranges
      → Sound ranges
      → Done indexes ranges (add_ranges size context_lines max_sections indexes ranges)
  unfolding add_ranges
  add_ranges-Done low [] ranges up lt b h = (h, λ j c. c, inl tt)
  add_ranges-Done low (i ∷ is) ranges up lt b h =
      elim (add_range_cases i ranges lt.0 (Before-later ranges b up.0) h) [
        | inl (stopped, full) ↦ rw (add_ranges, stopped) (h, λ j c. c, inr full)
        | inr (ranges', e, added) ↦
            let (sound, kept, ends) =
              add_ranges-Done (i + 1) is ranges' up.1 lt.1
                (Before-later ranges' added.before (omega arith)) added.sound in
            let same : add_ranges size context_lines max_sections (i ∷ is) ranges
                ≡ add_ranges size context_lines max_sections is ranges' =
              rw (add_ranges, e) refl in
            subst (Done (i ∷ is) ranges) (sym same) (
              sound,
              λ j c. kept j (added.kept j c),
              elim ends [ inl all_ ↦ inl (kept i added.covered, all_) | inr full ↦ inr full ],
            )
      ]

Ascending-later : {m n : ℕ} (is : List ℕ) → Ascending n is → m ≤ n → Ascending m is
Ascending-later [] up le = tt
Ascending-later (i ∷ is) up le = (omega (arith, up.0, le), up.1)

signal_indexes-Ascending :
    (u : Unicode) (n : ℕ) (lines : List Text) → Ascending n (signal_indexes u n lines)
unfolding signal_indexes
signal_indexes-Ascending u n [] = tt
signal_indexes-Ascending u n (line ∷ lines) = elim (Bool-cases (has_error_signal u line)) [
  | inl yes_ ↦ rw yes_ (omega arith, signal_indexes-Ascending u (n + 1) lines)
  | inr off ↦ rw off (
      Ascending-later (signal_indexes u (n + 1) lines) (signal_indexes-Ascending u (n + 1) lines)
        (omega arith))
]

signal_indexes-bound :
    (u : Unicode) (n : ℕ) (lines : List Text)
    → All (λ i. i < n + length lines) (signal_indexes u n lines)
unfolding signal_indexes
signal_indexes-bound u n [] = tt
signal_indexes-bound u n (line ∷ lines) =
    let ih =
      All-weaker (λ i. i < n + 1 + length lines) (λ i. i < n + suc (length lines))
        (λ i h. omega (arith, h)) (signal_indexes u (n + 1) lines)
        (signal_indexes-bound u (n + 1) lines) in
    elim (Bool-cases (has_error_signal u line)) [
      | inl yes_ ↦ rw yes_ (omega arith, ih)
      | inr off ↦ rw off ih
    ]

-- The sections of a log are at most `max_sections`, none is empty or reaches beyond the log, and
-- between two of them there are lines left out; and each line with an error signal is in one of
-- them, unless `max_sections` are reached.
pub error_ranges-AreSections :
    (u : Unicode) (context_lines max_sections : ℕ) (lines : List Text)
    → let ranges = error_ranges u context_lines max_sections lines in
      AreSections (length lines) ranges
      × (length ranges ≤ max_sections)
      × (All (λ i. Covered i ranges) (signal_indexes u 0 lines) ⊎ (length ranges ≡ max_sections))
unfolding error_ranges
error_ranges-AreSections u context_lines max_sections lines =
    let size = length lines in
    let indexes = signal_indexes u 0 lines in
    let below =
      All-weaker (λ i. i < 0 + size) (λ i. i < size) (λ i h. omega (arith, h)) indexes
        (signal_indexes-bound u 0 lines) in
    let (sound, kept, ends) =
      add_ranges-Done size context_lines max_sections 0 indexes []
        (signal_indexes-Ascending u 0 lines) below tt
        (record { sections = tt; few = omega arith }) in
    (sound.sections, sound.few, ends)
