-- ===== src/Preprocessing/Tests.antt =====
-- Chunks of a log whose second line is longer than a chunk.
use pipe_lens.Common.{
  ◌≡◌, refl, Text, codes, concat, [], ◌∷◌, All, arith, splitlines_keep, length, filter, take, map,
  List,
}
use pipe_lens.Regex.Build.{ascii}
use pipe_lens.Preprocessing.Logs.{preprocess_logs}
use pipe_lens.Preprocessing.Logs.Counts.{
  count_of, all_chunks, signals, redacted, excerpt, last_sanitized, context_of,
  preprocess_logs_counts,
}
use pipe_lens.Preprocessing.{iter_text_chunks}
use pipe_lens.Preprocessing.Chunks.{Fits, concat-iter_text_chunks, iter_text_chunks-Fits}

abbrev log : Text
log = codes "ab\nabcdefg\nc"

log_chunks : iter_text_chunks log 4 ≡ codes "ab\n" ∷ codes "abcd" ∷ codes "efg\n" ∷ codes "c" ∷ []
unfolding iter_text_chunks splitlines_keep concat
log_chunks = refl

concat-iter_text_chunks_example : concat (iter_text_chunks log 4) ≡ log
concat-iter_text_chunks_example = concat-iter_text_chunks 4 log (omega arith)

iter_text_chunks-Fits_example : All (Fits 4) (iter_text_chunks log 4)
iter_text_chunks-Fits_example = iter_text_chunks-Fits 4 (omega arith) log

abbrev noisy : Text
noisy = codes "DB_PASSWORD = x\nerror"

abbrev kept : List Text
kept = take 1 (filter (signals ascii 1000 2 1) (all_chunks ascii 1000 2 1 (noisy ∷ [])))

preprocess_logs_counts_example :
    ((preprocess_logs ascii 1000 2 1 (noisy ∷ [])).chunks_processed
      ≡ length (all_chunks ascii 1000 2 1 (noisy ∷ [])))
    × ((preprocess_logs ascii 1000 2 1 (noisy ∷ [])).error_chunks ≡ length kept)
    × ((preprocess_logs ascii 1000 2 1 (noisy ∷ [])).context
        ≡ context_of ascii 1000 2 1
            (map (excerpt ascii 1000 2 1) kept)
            (last_sanitized ascii 1000 2 1 (all_chunks ascii 1000 2 1 (noisy ∷ [])) []))
    × (count_of (codes "secret_assignment") (preprocess_logs ascii 1000 2 1 (noisy ∷ [])).redactions
        ≡ redacted ascii 1000 2 1
            (codes "secret_assignment")
            (all_chunks ascii 1000 2 1 (noisy ∷ [])))
preprocess_logs_counts_example =
    preprocess_logs_counts ascii 1000 2 1 (noisy ∷ []) (codes "secret_assignment")
