-- ===== src/Llm/Tests.antt =====
-- A context with a log of eight characters, and answers about it.
use pipe_lens.Common.{◌≡◌, refl, Text, codes, concat, map, text_eq, none, some, [], ◌∷◌, ◌++◌}
use pipe_lens.Common.Try.{value, raise}
use pipe_lens.Models.{timeout, RelatedFile}
use pipe_lens.Llm.{
  LlmContext, LlmAnalysis, EvidenceSource, limit_too_small, validate_llm_analysis,
  bounded_context_json, response_output_text,
}
use pipe_lens.Llm.Grounded.{IsSound, validate_llm_analysis-IsSound}
use pipe_lens.Llm.Bounded.{Fits, bounded_context_json-Fits}

abbrev context : LlmContext
context = record {
  classification = record {
    category = timeout;
    confidence = 600000;
    first_error = codes "e";
    related_step = none;
    matched_rules = [];
  };
  log = codes "a failed";
  related_files = [];
  execution_context = none;
  workflow_path = none;
  workflow_content = none;
}

abbrev result : LlmAnalysis
result = record {
  category = timeout;
  summary = codes "s";
  root_cause = codes "r";
  confidence = 700000;
  evidence = record { source = EvidenceSource.log; content = codes "failed"; location = none } ∷ [];
  suggestions = record { description = codes "d"; file = some (codes "x"); patch = none } ∷ [];
}

validate_llm_analysis-IsSound_example :
    IsSound result context (validate_llm_analysis result context)
validate_llm_analysis-IsSound_example = validate_llm_analysis-IsSound result context

-- An encoding of the log alone.
abbrev encode : LlmContext → Text
encode c = codes "log=" ++ c.log

halving_test : bounded_context_json encode 6 context ≡ value (codes "log=a ")
unfolding bounded_context_json
halving_test = refl

too_small_test : bounded_context_json encode 3 context ≡ raise limit_too_small
unfolding bounded_context_json
too_small_test = refl

-- Two related files, and an encoding of their names and the log.
abbrev related : Text → RelatedFile
related name = record { filename = name; score = 500000; reasons = []; patch_excerpt = none }

abbrev with_files : LlmContext
with_files = record context { related_files = related (codes "a") ∷ related (codes "bc") ∷ [] }

abbrev encode_files : LlmContext → Text
encode_files c = concat (map (λ (f : RelatedFile). f.filename) c.related_files) ++ c.log

dropping_test : bounded_context_json encode_files 9 with_files ≡ value (codes "aa failed")
unfolding bounded_context_json concat
dropping_test = refl

bounded_context_json-Fits_example :
    Fits encode_files 9 with_files (bounded_context_json encode_files 9 with_files)
bounded_context_json-Fits_example = bounded_context_json-Fits encode_files 9 with_files

output_test :
    response_output_text (
      record { type_ = some (codes "reasoning"); content = [] }
      ∷ record {
        type_ = some (codes "message");
        content = record { type_ = some (codes "output_text"); text = some (codes "{}") } ∷ [];
      }
      ∷ [])
    ≡ value (codes "{}")
unfolding response_output_text text_eq
output_test = refl
