-- ===== src/Preprocessing/Logs.antt =====
-- `preprocess_logs`: each chunk of each log is sanitized, and of those with an error signal a
-- limited number is kept. `redactions` is a dict, with its entries in insertion order.
pub mod Counts
use pipe_lens.Common.{
  ℕ, ◌+◌, max, Text, codes, text_eq, join, Bool, true, false, ◌&&◌, List, [], ◌∷◌, ◌++◌, ltb,
  if◌then◌else◌,
}
use pipe_lens.Regex.{Unicode}
use pipe_lens.Sanitizer.{sanitize_log}
use pipe_lens.Classifier.{has_error_signal, extract_error_context}
use pipe_lens.Preprocessing.{iter_text_chunks}

pub record PreprocessedLog : Type 0 where
  pub context : Text
  pub redactions : List (Text × ℕ)
  pub chunks_processed : ℕ
  pub error_chunks : ℕ

-- The variables of the loop.
pub record Progress : Type 0 where
  pub contexts : List Text
  pub fallback : Text
  pub redactions : List (Text × ℕ)
  pub chunks_processed : ℕ
  pub error_chunks : ℕ

-- `redactions[kind] = redactions.get(kind, 0) + count`
unfoldable pub add_count : Text → ℕ → List (Text × ℕ) → List (Text × ℕ)
add_count kind count [] = (kind, count) ∷ []
add_count kind count ((k, n) ∷ counts) =
    if text_eq k kind then (k, n + count) ∷ counts else (k, n) ∷ add_count kind count counts

unfoldable pub add_counts : List (Text × ℕ) → List (Text × ℕ) → List (Text × ℕ)
unfolding add_count
add_counts [] redactions = redactions
add_counts ((kind, count) ∷ counts) redactions = add_counts counts (add_count kind count redactions)

module _ (u : Unicode) (chunk_chars context_lines max_error_chunks : ℕ) where
  abbrev pub limit : ℕ
  limit = max 1 max_error_chunks

  -- What a chunk adds, once it is sanitized.
  unfoldable pub keep_sanitized : Text × List (Text × ℕ) → Progress → Progress
  unfolding add_counts
  keep_sanitized (sanitized, counts) p =
      let kept = has_error_signal u sanitized && ltb p.error_chunks limit in
      record {
        contexts =
            if kept
            then p.contexts ++ extract_error_context u sanitized context_lines 2 ∷ []
            else p.contexts;
        fallback = sanitized;
        redactions = add_counts counts p.redactions;
        chunks_processed = p.chunks_processed + 1;
        error_chunks = if kept then p.error_chunks + 1 else p.error_chunks;
      }

  unfoldable pub process_chunks : List Text → Progress → Progress
  unfolding keep_sanitized
  process_chunks [] p = p
  process_chunks (chunk ∷ chunks) p =
      process_chunks chunks (keep_sanitized (sanitize_log u chunk) p)

  unfoldable pub process_logs : List Text → Progress → Progress
  unfolding process_chunks
  process_logs [] p = p
  process_logs (raw ∷ raws) p =
      process_logs raws (process_chunks (iter_text_chunks raw (max 1000 chunk_chars)) p)

  abbrev no_progress : Progress
  no_progress = record {
    contexts = [];
    fallback = [];
    redactions = [];
    chunks_processed = 0;
    error_chunks = 0;
  }

  abbrev fallback_context : Text → Text
  fallback_context [] = []
  fallback_context (c ∷ s) = extract_error_context u (c ∷ s) context_lines 5

  abbrev context_or : Text → Text → Text
  context_or [] fallback = fallback_context fallback
  context_or (c ∷ s) fallback = c ∷ s

  unfoldable pub preprocess_logs : List Text → PreprocessedLog
  unfolding process_logs join
  preprocess_logs raw_logs =
      let p = process_logs raw_logs no_progress in
      record {
        context = context_or (join (codes "\n...\n") p.contexts) p.fallback;
        redactions = p.redactions;
        chunks_processed = p.chunks_processed;
        error_chunks = p.error_chunks;
      }

  unfoldable pub preprocess_log : Text → PreprocessedLog
  unfolding preprocess_logs
  preprocess_log raw = preprocess_logs (raw ∷ [])
