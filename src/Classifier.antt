-- ===== src/Classifier.antt =====
-- src/pipelens/classifier.py: `classify_log` and `extract_error_context`.
pub mod Rules
pub mod Best
pub mod Sections
mod Tests
use pipe_lens.Common.{
  ℕ, suc, ◌+◌, ◌-◌, ◌*◌, min, max, Text, codes, strip, join, splitlines, Bool, true, false, ◌||◌,
  Option, none, some, List, [], ◌∷◌, ◌++◌, map, ◌==◌, ltb, leb, if◌then◌else◌, length, take, drop,
  any, filter, reverse_onto,
}
use pipe_lens.Models.{Classification, unknown}
use pipe_lens.Regex.{Unicode, search}
use pipe_lens.Classifier.Rules.{DetectionRule, rules, error_line, scanner_finding_row}

module _ (u : Unicode) where
  -- `any(pattern.search(line) for pattern in rule.patterns)`
  unfoldable pub fires : Text → DetectionRule → Bool
  fires line rule = any (λ p. search u p line) rule.patterns

  unfoldable pub has_error_signal : Text → Bool
  unfolding fires rules
  has_error_signal text =
      search u error_line text || search u scanner_finding_row text || any (fires text) rules

  -- `max(matching_rules, key=...)`: of several, the first with the most confidence.
  unfoldable pub best_rule : DetectionRule → List DetectionRule → DetectionRule
  best_rule best [] = best
  best_rule best (rule ∷ rest) =
      best_rule (if ltb best.confidence rule.confidence then rule else best) rest

  -- What a line with matching rules is classified as.
  abbrev pub classified : Text → Option Text → DetectionRule → Classification
  classified line step rule = record {
    category = rule.category;
    confidence = rule.confidence;
    first_error = line;
    related_step = step;
    matched_rules = rule.rule_id ∷ [];
  }

  abbrev of_rules : Text → Option Text → Classification → List DetectionRule → Classification
  of_rules line step otherwise [] = otherwise
  of_rules line step otherwise (rule ∷ rest) = classified line step (best_rule rule rest)

  -- The loop over the lines; `otherwise` is what is returned after it.
  unfoldable pub classify_lines :
      List DetectionRule → Option Text → Classification → List Text → Classification
  unfolding best_rule
  classify_lines rs step otherwise [] = otherwise
  classify_lines rs step otherwise (line ∷ lines) =
      of_rules line step (classify_lines rs step otherwise lines) (filter (fires line) rs)

  -- `[line.strip() for line in log.splitlines() if line.strip()]`
  abbrev is_blank : Text → Bool
  is_blank [] = true
  is_blank (_ ∷ _) = false

  unfoldable pub stripped_lines : Text → List Text
  unfolding strip splitlines
  stripped_lines log =
      filter (λ line. if is_blank line then false else true) (map strip (splitlines log))

  -- `next((line for line in lines if ...), default)`
  abbrev first_or : Text → List Text → Text
  first_or default [] = default
  first_or default (line ∷ _) = line

  unfoldable pub unclassified : Option Text → List Text → Classification
  unfolding error_line
  unclassified step lines = record {
    category = unknown;
    confidence = 200000;
    first_error =
        first_or (first_or (codes "No error output was captured") lines)
          (filter (search u error_line) lines);
    related_step = step;
    matched_rules = [];
  }

  unfoldable pub classify_log : Text → Option Text → Classification
  unfolding classify_lines unclassified stripped_lines rules
  classify_log log step =
      let lines = stripped_lines log in classify_lines rules step (unclassified step lines) lines

  -- The indexes of the lines, from `n` on, with an error signal.
  unfoldable pub signal_indexes : ℕ → List Text → List ℕ
  unfolding has_error_signal
  signal_indexes n [] = []
  signal_indexes n (line ∷ lines) =
      let rest = signal_indexes (n + 1) lines in if has_error_signal line then n ∷ rest else rest

-- An element of `ranges`: from `start` up to `end`, without `end`.
pub record Range : Type 0 where
  pub start : ℕ
  pub end : ℕ

abbrev around : ℕ → ℕ → ℕ → Range
around size context_lines index = record {
  start = index - context_lines;
  end = min size (index + context_lines + 1);
}

-- The body of the loop, with the last range first; `none` is its `break`.
unfoldable pub add_range : ℕ → Range → List Range → Option (List Range)
add_range max_sections r [] = if ltb 0 max_sections then some (r ∷ []) else none
add_range max_sections r (last ∷ ranges) =
    if leb r.start last.end
    then some (record last { end = max last.end r.end } ∷ ranges)
    else if ltb (length (last ∷ ranges)) max_sections
    then some (r ∷ last ∷ ranges)
    else none

unfoldable pub add_ranges : ℕ → ℕ → ℕ → List ℕ → List Range → List Range
unfolding add_range
add_ranges size context_lines max_sections [] ranges = ranges
add_ranges size context_lines max_sections (index ∷ indexes) ranges =
    elim (add_range max_sections (around size context_lines index) ranges) [
      | none ↦ ranges
      | some ranges' ↦ add_ranges size context_lines max_sections indexes ranges'
    ]

-- `ranges` after the loop, the last one first.
unfoldable pub error_ranges : Unicode → ℕ → ℕ → List Text → List Range
unfolding signal_indexes add_ranges
error_ranges u context_lines max_sections lines =
    add_ranges (length lines) context_lines max_sections (signal_indexes u 0 lines) []

abbrev newline : Text
newline = 10 ∷ []

-- `"\n".join(lines[start:end])`
abbrev section : List Text → Range → Text
section lines r = join newline (take (r.end - r.start) (drop r.start lines))

-- `lines[-n:]`, where `-0` is the start.
abbrev last_lines : ℕ → List Text → List Text
last_lines n lines = if n == 0 then lines else drop (length lines - n) lines

unfoldable pub extract_error_context : Unicode → Text → ℕ → ℕ → Text
unfolding signal_indexes error_ranges splitlines join
extract_error_context u log context_lines max_sections =
    let lines = splitlines log in
    elim (signal_indexes u 0 lines) [
      | [] ↦ join newline (last_lines (min (length lines) (context_lines * 2)) lines)
      | index ∷ indexes ↦
          join (codes "\n...\n") (
            map (section lines) (reverse_onto (error_ranges u context_lines max_sections lines) []))
    ]
