-- ===== src/Preprocessing/Logs/Counts.antt =====
-- What `preprocess_logs` counts.
use pipe_lens.Common.{
  ℕ, zero, suc, ltb, codes, join, ap, ℕ-cases, List-cases, length-take, true, false, ◌+◌, ◌≤◌, ◌≡◌,
  refl, ◌∙◌, sym, min, max, Text, text_eq, text_eq_iff, Bool, List, [], ◌∷◌, ◌++◌, arith, filter,
  length, if◌then◌else◌, map, take, append-nil, append_assoc, Bool-cases, inl, inr,
}
use pipe_lens.Regex.{Unicode}
use pipe_lens.Sanitizer.{sanitize_log}
use pipe_lens.Classifier.{has_error_signal, extract_error_context}
use pipe_lens.Preprocessing.{iter_text_chunks}
use pipe_lens.Preprocessing.Logs.{
  Progress, add_count, add_counts, keep_sanitized, process_chunks, process_logs, preprocess_logs,
  no_progress, context_or,
}

-- `counts.get(kind, 0)`
unfoldable pub count_of : Text → List (Text × ℕ) → ℕ
count_of kind [] = 0
count_of kind ((k, n) ∷ counts) = if text_eq k kind then n else count_of kind counts

-- The sum of the counts of a kind.
abbrev pub total_of : Text → List (Text × ℕ) → ℕ
total_of kind [] = 0
total_of kind ((k, n) ∷ counts) = (if text_eq k kind then n else 0) + total_of kind counts

count_of-add_count :
    (kind k : Text) (n : ℕ) (counts : List (Text × ℕ))
    → count_of kind (add_count k n counts)
      ≡ count_of kind counts + (if text_eq k kind then n else 0)
unfolding count_of add_count
count_of-add_count kind k n [] = ground arith
count_of-add_count kind k n ((k', m) ∷ counts) = ground (
  arith,
  count_of-add_count kind k n counts,
  text_eq_iff k' k,
  text_eq_iff k' kind,
  text_eq_iff k kind,
)

count_of-add_counts :
    (kind : Text) (counts redactions : List (Text × ℕ))
    → count_of kind (add_counts counts redactions) ≡ count_of kind redactions + total_of kind counts
unfolding add_counts
count_of-add_counts kind [] redactions = omega arith
count_of-add_counts kind ((k, n) ∷ counts) redactions = omega (
  arith,
  count_of-add_counts kind counts (add_count k n redactions),
  count_of-add_count kind k n redactions,
)

-- `a or b`
abbrev pub if_empty : Text → Text → Text
if_empty [] b = b
if_empty (c ∷ s) b = c ∷ s

module _ (u : Unicode) (chunk_chars context_lines max_error_chunks : ℕ) where
  -- The chunks of all logs, in order.
  abbrev pub all_chunks : List Text → List Text
  all_chunks [] = []
  all_chunks (raw ∷ raws) = iter_text_chunks raw (max 1000 chunk_chars) ++ all_chunks raws

  -- Whether a chunk has an error signal once it is sanitized.
  abbrev pub signals : Text → Bool
  signals chunk = has_error_signal u (sanitize_log u chunk).0

  -- How often something of the kind is taken out of the chunks.
  abbrev pub redacted : Text → List Text → ℕ
  redacted kind [] = 0
  redacted kind (chunk ∷ chunks) = total_of kind (sanitize_log u chunk).1 + redacted kind chunks

  abbrev process : List Text → Progress → Progress
  process = process_chunks u chunk_chars context_lines max_error_chunks

  process_chunks-append :
      (xs ys : List Text) (p : Progress) → process (xs ++ ys) p ≡ process ys (process xs p)
  unfolding process_chunks
  process_chunks-append [] ys p = refl
  process_chunks-append (x ∷ xs) ys p = process_chunks-append xs ys _

  process_logs-all_chunks :
      (raws : List Text) (p : Progress)
      → process_logs u chunk_chars context_lines max_error_chunks raws p
        ≡ process (all_chunks raws) p
  unfolding process_logs
  process_logs-all_chunks [] p = unfold process_chunks in refl
  process_logs-all_chunks (raw ∷ raws) p =
      process_logs-all_chunks raws _
      ∙ sym
          (process_chunks-append (iter_text_chunks raw (max 1000 chunk_chars)) (all_chunks raws) p)

  process_chunks-chunks :
      (chunks : List Text) (p : Progress)
      → (process chunks p).chunks_processed ≡ p.chunks_processed + length chunks
  unfolding process_chunks keep_sanitized
  process_chunks-chunks [] p = omega arith
  process_chunks-chunks (chunk ∷ chunks) p = omega (
    arith,
    process_chunks-chunks chunks
        (keep_sanitized u chunk_chars context_lines max_error_chunks (sanitize_log u chunk) p),
  )

  process_chunks-redactions :
      (kind : Text) (chunks : List Text) (p : Progress)
      → count_of kind (process chunks p).redactions
        ≡ count_of kind p.redactions + redacted kind chunks
  unfolding process_chunks keep_sanitized
  process_chunks-redactions kind [] p = omega arith
  process_chunks-redactions kind (chunk ∷ chunks) p =
      let counts = (sanitize_log u chunk).1 in
      omega (
        arith,
        process_chunks-redactions kind chunks
            (keep_sanitized u chunk_chars context_lines max_error_chunks (sanitize_log u chunk) p),
        count_of-add_counts kind counts p.redactions,
      )

  process_chunks-errors :
      (chunks : List Text) (p : Progress)
      → p.error_chunks ≤ max 1 max_error_chunks
      → (process chunks p).error_chunks
        ≡ min (max 1 max_error_chunks) (p.error_chunks + length (filter signals chunks))
  unfolding process_chunks keep_sanitized
  process_chunks-errors [] p le = omega (arith, le)
  process_chunks-errors (chunk ∷ chunks) p le =
      let next =
        keep_sanitized u chunk_chars context_lines max_error_chunks (sanitize_log u chunk) p in
      ground (arith, le, process_chunks-errors chunks next)

  -- What is kept of a chunk.
  abbrev pub excerpt : Text → Text
  excerpt chunk = extract_error_context u (sanitize_log u chunk).0 context_lines 2

  abbrev pub last_sanitized : List Text → Text → Text
  last_sanitized [] s = s
  last_sanitized (chunk ∷ chunks) s = last_sanitized chunks (sanitize_log u chunk).0

  process_chunks-fallback :
      (chunks : List Text) (p : Progress)
      → (process chunks p).fallback ≡ last_sanitized chunks p.fallback
  unfolding process_chunks keep_sanitized
  process_chunks-fallback [] p = refl
  process_chunks-fallback (chunk ∷ chunks) p =
      process_chunks-fallback chunks
        (keep_sanitized u chunk_chars context_lines max_error_chunks (sanitize_log u chunk) p)

  -- The excerpts of the first chunks with a signal, as many as there is room for.
  process_chunks-contexts :
      (room : ℕ) (chunks : List Text) (p : Progress)
      → p.error_chunks + room ≡ max 1 max_error_chunks
      → (process chunks p).contexts ≡ p.contexts ++ map excerpt (take room (filter signals chunks))
  unfolding process_chunks keep_sanitized
  process_chunks-contexts zero [] p e = sym (append-nil p.contexts)
  process_chunks-contexts (suc room) [] p e = sym (append-nil p.contexts)
  process_chunks-contexts room (chunk ∷ chunks) p e =
      let next =
        keep_sanitized u chunk_chars context_lines max_error_chunks (sanitize_log u chunk) p in
      elim (Bool-cases (signals chunk)) [
        | inr off ↦
            let kept : next.contexts ≡ p.contexts = rw off refl in
            let count : next.error_chunks ≡ p.error_chunks = rw off refl in
            rw off (
              process_chunks-contexts room chunks next (rw count e)
              ∙ ap (λ (t : List Text). t ++ map excerpt (take room (filter signals chunks))) kept)
        | inl on ↦ elim (ℕ-cases room) [
          | inl none_ ↦
              let full : ltb p.error_chunks (max 1 max_error_chunks) ≡ false = ground arith in
              let kept : next.contexts ≡ p.contexts = rw (on, full) refl in
              let count : next.error_chunks ≡ p.error_chunks = rw (on, full) refl in
              rw (on, none_)
                (process_chunks-contexts zero chunks next
                    (rw count (ap (λ n. p.error_chunks + n) (sym none_) ∙ e))
                  ∙ ap (λ (t : List Text). t ++ []) kept)
          | inr (left, some_) ↦
              let free : ltb p.error_chunks (max 1 max_error_chunks) ≡ true = ground arith in
              let kept : next.contexts ≡ p.contexts ++ excerpt chunk ∷ [] = rw (on, free) refl in
              let count : next.error_chunks ≡ p.error_chunks + 1 = rw (on, free) refl in
              rw (on, some_)
                (process_chunks-contexts left chunks next (rw count (omega arith))
                  ∙ ap (λ (t : List Text). t ++ map excerpt (take left (filter signals chunks)))
                      kept
                  ∙ append_assoc p.contexts (excerpt chunk ∷ [])
                      (map excerpt (take left (filter signals chunks))))
        ]
      ]

  -- The context of the log: the excerpts with a line between them, or, if they are empty, more of the
  -- last chunk.
  abbrev pub context_of : List Text → Text → Text
  context_of excerpts [] = if_empty (join (codes "\n...\n") excerpts) []
  context_of excerpts (c ∷ s) =
      if_empty (join (codes "\n...\n") excerpts) (extract_error_context u (c ∷ s) context_lines 5)

  context_or-context_of :
      (excerpts : List Text) (s : Text)
      → context_or u chunk_chars context_lines max_error_chunks (join (codes "\n...\n") excerpts) s
        ≡ context_of excerpts s
  context_or-context_of excerpts [] = elim (List-cases (join (codes "\n...\n") excerpts)) [
    | inl e ↦ rw e refl
    | inr (c, s, e) ↦ rw e refl
  ]
  context_or-context_of excerpts (d ∷ t) = elim (List-cases (join (codes "\n...\n") excerpts)) [
    | inl e ↦ rw e refl
    | inr (c, s, e) ↦ rw e refl
  ]

  -- The log counts every chunk of every input. Its context is made of the excerpts of the first
  -- sanitized chunks with an error signal, of all of them up to the greater of one and
  -- `max_error_chunks`, in their order, joined by a line of dots, and it counts them; when that text is
  -- empty, it is the excerpt of the last chunk. For each kind it counts what the sanitizer took out of
  -- all chunks together.
  pub preprocess_logs_counts :
      (raws : List Text) (kind : Text)
      → let log = preprocess_logs u chunk_chars context_lines max_error_chunks raws in
        let kept = take (max 1 max_error_chunks) (filter signals (all_chunks raws)) in
        (log.chunks_processed ≡ length (all_chunks raws))
        × (log.error_chunks ≡ length kept)
        × (log.context ≡ context_of (map excerpt kept) (last_sanitized (all_chunks raws) []))
        × (count_of kind log.redactions ≡ redacted kind (all_chunks raws))
  unfolding preprocess_logs
  preprocess_logs_counts raws kind =
      let p = no_progress u chunk_chars context_lines max_error_chunks in
      let chunks = all_chunks raws in
      rw (process_logs-all_chunks raws p) (
        omega (arith, process_chunks-chunks chunks p),
        omega (
          arith,
          process_chunks-errors chunks p (omega arith),
          length-take (max 1 max_error_chunks) (filter signals chunks),
        ),
        rw
            (
              process_chunks-contexts (max 1 max_error_chunks) chunks p (omega arith),
              process_chunks-fallback chunks p,
            )
            (context_or-context_of
              (map excerpt (take (max 1 max_error_chunks) (filter signals chunks)))
              (last_sanitized chunks [])),
        process_chunks-redactions kind chunks p ∙ (unfold count_of in omega arith),
      )
