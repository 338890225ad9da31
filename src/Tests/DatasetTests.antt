-- ===== src/Tests/DatasetTests.antt =====
-- python/predictor/dataset.py: four samples.
use ai_infrastructure_platfo.Prelude.{◌≡◌, String, some, List, [], ◌∷◌, nat_eq, string_eq}
use ai_infrastructure_platfo.Prelude.Int.{ℤ}
use ai_infrastructure_platfo.Prelude.Counts.{count_if}
use ai_infrastructure_platfo.Floats.Fixed.{fixed}
use ai_infrastructure_platfo.Predictor.Dataset.{Sample, deduplicate}
use ai_infrastructure_platfo.Predictor.Dataset.Dedup.{has_hash, first_with, deduplicate-first}
use ai_infrastructure_platfo.Codes.{name_eq}
use ai_infrastructure_platfo.Tests.Setup.{float}

abbrev sample_of : String → Sample ℤ
sample_of prompt = record {
  prompt = prompt;
  features = [];
  actual_output_tokens = float 10;
  metadata = [];
}

abbrev samples : List (Sample ℤ)
samples = sample_of "a" ∷ sample_of "b" ∷ sample_of "a" ∷ sample_of "c" ∷ []

-- The prompt stands for its own hash.
abbrev hash_prompt : String → String
hash_prompt prompt = prompt

deduplicate-first_example :
    (count_if (has_hash hash_prompt "a") (deduplicate hash_prompt samples) ≡ 1)
    × (first_with hash_prompt "a" (deduplicate hash_prompt samples) ≡ some (sample_of "a"))
deduplicate-first_example = deduplicate-first hash_prompt samples "a"
