-- ===== src/Preprocessing.antt =====
-- src/pipelens/preprocessing.py: `iter_text_chunks`, which cuts a log into chunks of whole lines.
pub mod Chunks
pub mod Logs
mod Tests
use pipe_lens.Common.{
  ℕ, zero, suc, ◌+◌, Text, concat, splitlines_keep, Bool, true, false, not, ◌&&◌, List, [], ◌∷◌,
  ◌++◌, ltb, if◌then◌else◌, length, take, drop,
}

-- `buffered` and `buffered_chars`
pub record Buffer : Type 0 where
  pub lines : List Text
  pub chars : ℕ

abbrev pub empty_buffer : Buffer
empty_buffer = record { lines = []; chars = 0 }

-- `if buffered:`
abbrev is_full : List Text → Bool
is_full [] = false
is_full (_ ∷ _) = true

-- `yield "".join(buffered)`, if there is something buffered.
abbrev flush : List Text → List Text
flush [] = []
flush (l ∷ ls) = concat (l ∷ ls) ∷ []

-- The buffer after that, which is empty.
abbrev flushed : Buffer → Buffer
flushed b = record { lines = []; chars = if is_full b.lines then 0 else b.chars }

-- What a step yields, with the buffer and the part of the line that are left.
pub record Cut : Type 0 where
  pub yielded : List Text
  pub buffer : Buffer
  pub line : Text

-- `while len(line) > max_chars`, on fuel. `max_chars` is positive, as at the only call: with 0 the
-- loop of the source yields empty chunks for ever, which is not modelled.
unfoldable pub cut_line : ℕ → ℕ → Buffer → Text → Cut
cut_line zero max_chars b line = record { yielded = []; buffer = b; line = line }
cut_line (suc fuel) max_chars b line =
    let rest = cut_line fuel max_chars (flushed b) (drop max_chars line) in
    if ltb max_chars (length line)
    then record rest { yielded = flush b.lines ++ take max_chars line ∷ rest.yielded }
    else record { yielded = []; buffer = b; line = line }

-- The rest of the body of the loop over the lines.
unfoldable pub buffer_line : ℕ → Cut → Cut
buffer_line max_chars c =
    if is_full c.buffer.lines && ltb max_chars (c.buffer.chars + length c.line)
    then record c {
      yielded = c.yielded ++ flush c.buffer.lines;
      buffer = record { lines = c.line ∷ []; chars = length c.line };
    }
    else record c {
      buffer = record {
        lines = c.buffer.lines ++ c.line ∷ [];
        chars = c.buffer.chars + length c.line;
      };
    }

unfoldable pub chunk_lines : ℕ → Buffer → List Text → List Text
chunk_lines max_chars b [] = flush b.lines
chunk_lines max_chars b (line ∷ lines) =
    let c = buffer_line max_chars (cut_line (length line) max_chars b line) in
    c.yielded ++ chunk_lines max_chars c.buffer lines

unfoldable pub iter_text_chunks : Text → ℕ → List Text
unfolding chunk_lines cut_line buffer_line
iter_text_chunks text max_chars = chunk_lines max_chars empty_buffer (splitlines_keep text)
