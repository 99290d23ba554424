-- ===== src/Preprocessing/Chunks.antt =====
-- The chunks of a log are the log, and none is larger than the limit.
use pipe_lens.Common.{
  ℕ, zero, suc, ◌+◌, ◌≤◌, ◌<◌, ◌≡◌, refl, ◌∙◌, Text, concat, splitlines_keep,
  concat-splitlines_keep, splitlines_keep_nonempty, true, false, ◌&&◌, List, [], ◌∷◌, ◌++◌,
  append-nil, append_assoc, arith, ltb, ltb→lt, Bool-cases, inl, inr, length, drop, length-append,
  length-take, length-drop, take-append-drop, All, All-append,
}
use pipe_lens.Preprocessing.{
  Buffer, empty_buffer, is_full, flush, flushed, Cut, cut_line, buffer_line, chunk_lines,
  iter_text_chunks,
}

concat-append : (xs ys : List Text) → concat (xs ++ ys) ≡ concat xs ++ concat ys
unfolding concat
concat-append [] ys = refl
concat-append (x ∷ xs) ys = rw (concat-append xs ys, append_assoc)

concat-flush : (ls : List Text) → concat (flush ls) ≡ concat ls
unfolding concat
concat-flush [] = refl
concat-flush (l ∷ ls) = rw append-nil

empty_of_not_full : (ls : List Text) → is_full ls ≡ false → length (concat ls) ≡ 0
unfolding concat
empty_of_not_full [] h = refl
empty_of_not_full (l ∷ ls) h = cc

length-concat_snoc :
    (ls : List Text) (l : Text) → length (concat (ls ++ l ∷ [])) ≡ length (concat ls) + length l
unfolding concat
length-concat_snoc ls l = rw (concat-append ls (l ∷ []), append-nil) (length-append (concat ls) l)

-- What is yielded, buffered and left of the line, in order.
abbrev content : Cut → Text
content c = concat c.yielded ++ (concat c.buffer.lines ++ c.line)

module _ (max_chars : ℕ) where
  cut_line-content :
      (fuel : ℕ) (b : Buffer) (line : Text)
      → content (cut_line fuel max_chars b line) ≡ concat b.lines ++ line
  unfolding cut_line concat
  cut_line-content zero b line = refl
  cut_line-content (suc fuel) b line = elim (Bool-cases (ltb max_chars (length line))) [
    | inl long ↦ rw long (
        simp (
          concat-append,
          concat-flush,
          append_assoc,
          cut_line-content fuel (flushed b) (drop max_chars line),
          take-append-drop,
        ))
    | inr short ↦ rw short refl
  ]

  buffer_line-content :
      (c : Cut)
      → concat (buffer_line max_chars c).yielded ++ concat (buffer_line max_chars c).buffer.lines
        ≡ content c
  unfolding buffer_line concat
  buffer_line-content c =
      elim (Bool-cases (is_full c.buffer.lines && ltb max_chars (c.buffer.chars + length c.line))) [
        | inl over ↦ rw over (simp (concat-append, concat-flush, append_assoc, append-nil))
        | inr fits ↦ rw fits (simp (concat-append, append_assoc, append-nil))
      ]

  chunk_lines-content :
      (b : Buffer) (lines : List Text)
      → concat (chunk_lines max_chars b lines) ≡ concat b.lines ++ concat lines
  unfolding chunk_lines concat
  chunk_lines-content b [] = rw (concat-flush, append-nil)
  chunk_lines-content b (line ∷ lines) =
      let cut = cut_line (length line) max_chars b line in
      let c = buffer_line max_chars cut in
      rw
        (
          concat-append c.yielded (chunk_lines max_chars c.buffer lines),
          chunk_lines-content c.buffer lines,
        )
        (rw (← append_assoc, buffer_line-content cut, cut_line-content (length line) b line)
          (rw append_assoc))

  -- When a chunk may have a character at least, the chunks of a text, joined, are the text: none of it
  -- is lost, doubled or moved.
  pub concat-iter_text_chunks :
      (text : Text) → 0 < max_chars → concat (iter_text_chunks text max_chars) ≡ text
  unfolding iter_text_chunks
  concat-iter_text_chunks text positive =
      chunk_lines-content empty_buffer (splitlines_keep text)
      ∙ (unfold concat in concat-splitlines_keep text)

  abbrev pub Fits : Text → Type 0
  Fits chunk = (0 < length chunk) × (length chunk ≤ max_chars)

  -- The count of the buffered characters is right and within the limit, and no line in it is empty.
  record IsCounted (b : Buffer) : Type 0 where
    counted : b.chars ≡ length (concat b.lines)
    within : b.chars ≤ max_chars
    nonempty : is_full b.lines ≡ true → 0 < b.chars

  flush-Fits : (b : Buffer) → IsCounted b → All Fits (flush b.lines)
  flush-Fits b h = go b.lines h.counted h.within h.nonempty
    where
      go :
          (ls : List Text)
          → b.chars ≡ length (concat ls)
          → b.chars ≤ max_chars
          → (is_full ls ≡ true → 0 < b.chars)
          → All Fits (flush ls)
      go [] e w n = tt
      go (l ∷ ls) e w n = ((omega (arith, n refl, e), omega (arith, e)), tt)

  flushed-IsCounted : (b : Buffer) → IsCounted b → IsCounted (flushed b)
  flushed-IsCounted b h = record {
    counted = unfold concat in ground (arith, empty_of_not_full b.lines, h.counted);
    within = ground (arith, h.within);
    nonempty = λ e. cc;
  }

  -- With enough fuel the line that is left fits.
  record Done (c : Cut) : Type 0 where
    yields : All Fits c.yielded
    buffers : IsCounted c.buffer
    fits : Fits c.line

  module _ (positive : 0 < max_chars) where
    cut_line-Done :
        (fuel : ℕ) (b : Buffer) (line : Text)
        → length line ≤ fuel
        → 0 < length line
        → IsCounted b
        → Done (cut_line fuel max_chars b line)
    unfolding cut_line
    cut_line-Done zero b line h pos k = absurd (omega arith)
    cut_line-Done (suc fuel) b line h pos k = elim (Bool-cases (ltb max_chars (length line))) [
      | inl long ↦
          let lt = ltb→lt max_chars (length line) long in
          let ih =
            cut_line-Done fuel (flushed b) (drop max_chars line)
              (omega (arith, length-drop max_chars line))
              (omega (arith, length-drop max_chars line)) (flushed-IsCounted b k) in
          rw long (record {
            yields = All-append Fits (flush b.lines) _ (flush-Fits b k) (
              (
                omega (arith, length-take max_chars line),
                omega (arith, length-take max_chars line),
              ),
              ih.yields,
            );
            buffers = ih.buffers;
            fits = ih.fits;
          })
      | inr short ↦ rw short (record { yields = tt; buffers = k; fits = (pos, ground arith) })
    ]

    buffer_line-Done :
        (c : Cut)
        → Done c
        → All Fits (buffer_line max_chars c).yielded × IsCounted (buffer_line max_chars c).buffer
    unfolding buffer_line
    buffer_line-Done c h =
        elim (Bool-cases
          (is_full c.buffer.lines && ltb max_chars (c.buffer.chars + length c.line))) [
            | inl over ↦ rw over (
              All-append Fits c.yielded _ h.yields (flush-Fits c.buffer h.buffers),
              record {
                counted = unfold concat in rw append-nil;
                within = h.fits.1;
                nonempty = λ e. h.fits.0;
              },
            )
            | inr fits ↦ rw fits (
              h.yields,
              record {
                counted =
                    omega (arith, h.buffers.counted, length-concat_snoc c.buffer.lines c.line);
                within =
                    ground (arith, empty_of_not_full c.buffer.lines, h.buffers.counted, h.fits.1);
                nonempty = λ e. omega (arith, h.fits.0);
              },
            )
          ]

    chunk_lines-Fits :
        (b : Buffer) (lines : List Text)
        → IsCounted b
        → All (λ l. 0 < length l) lines
        → All Fits (chunk_lines max_chars b lines)
    unfolding chunk_lines
    chunk_lines-Fits b [] k h = flush-Fits b k
    chunk_lines-Fits b (line ∷ lines) k h =
        let cut = cut_line (length line) max_chars b line in
        let (yields, counted) =
          buffer_line-Done cut (cut_line-Done (length line) b line (omega arith) h.0 k) in
        All-append Fits _ _ yields
          (chunk_lines-Fits (buffer_line max_chars cut).buffer lines counted h.1)

    -- No chunk is empty, and none has more than `max_chars` characters, however long the lines are.
    pub iter_text_chunks-Fits : (text : Text) → All Fits (iter_text_chunks text max_chars)
    unfolding iter_text_chunks
    iter_text_chunks-Fits text =
        chunk_lines-Fits empty_buffer (splitlines_keep text)
          (record { counted = unfold concat in refl; within = omega arith; nonempty = λ e. cc })
          (splitlines_keep_nonempty text)
