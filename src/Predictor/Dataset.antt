-- ===== src/Predictor/Dataset.antt =====
-- python/predictor/dataset.py: building and splitting datasets. Feature extraction, the hash and the
-- random numbers are arguments.
pub mod Dedup
pub mod Split
pub mod Sources
use ai_infrastructure_platfo.Prelude.{
  ℕ, zero, suc, ◌+◌, ◌*◌, ◌/◌, ◌≡◌, String, Bool, true, false, Option, none, some, List, [], ◌∷◌,
  length, drop, take, get_elem?, ltb, max, ◌==◌, string_eq, Eq, map, if◌then◌else◌,
}
use ai_infrastructure_platfo.Dict
use ai_infrastructure_platfo.Floats.{Floats, fmax, sum_from}

pub record Sample (F : Type 0) : Type 0 where
  pub prompt : String
  pub features : List F
  pub actual_output_tokens : F
  pub metadata : List (String × String)

-- A parsed line of a JSONL file, or a row of a CSV file.
abbrev pub Row : Type 0
Row = List (String × String)

-- `rec.get(key, default)`
abbrev pub get_or : Row → String → String → String
get_or rec key default = elim (Dict.get rec key) [ some v ↦ v | none ↦ default ]

-- The first two statements of the loop of `_from_records`.
unfoldable pub prompt_of : Row → String
prompt_of rec = get_or rec "prompt" (get_or rec "instruction" (get_or rec "input" ""))

unfoldable output_of : Row → String
output_of rec = get_or rec "output" (get_or rec "response" (get_or rec "completion" ""))

-- `{k: v for k, v in rec.items() if k not in ("prompt", "output")}`
unfoldable meta_of : Row → Row
meta_of rec = Dict.remove (Dict.remove rec "prompt") "output"

abbrev pub is_empty : String → Bool
is_empty s = string_eq.beq s ""

module _ {F : Type 0} ⦃fl : Floats F⦄ (split_words : String → List String)
    (extract : String → List F) where
  -- `max(1, int(len(text.split()) * 1.3))`
  unfoldable estimate_tokens : String → ℕ
  estimate_tokens text =
      max 1 (fl.trunc (fl.mul (fl.lit (length (split_words text)) 0) (fl.lit 13 1)))

  -- `from_prompts` of lists of one length: prompts, outputs and metadata of each sample.
  unfoldable pub from_prompts : List (String × String × Row) → List (Sample F)
  unfolding estimate_tokens
  from_prompts [] = []
  from_prompts ((prompt, output, meta) ∷ rest) =
      record {
        prompt = prompt;
        features = extract prompt;
        actual_output_tokens = fl.lit (estimate_tokens output) 0;
        metadata = meta;
      }
      ∷ from_prompts rest

  -- The loop of `_from_records`, which drops the records without a prompt.
  unfoldable pub kept_records : List Row → List (String × String × Row)
  unfolding prompt_of output_of meta_of
  kept_records [] = []
  kept_records (rec ∷ records) =
      let rest = kept_records records in
      if is_empty (prompt_of rec) then rest else (prompt_of rec, output_of rec, meta_of rec) ∷ rest

  unfoldable pub from_records : List Row → List (Sample F)
  unfolding from_prompts kept_records
  from_records records = from_prompts (kept_records records)

module _ {F : Type 0} (hash_prompt : String → String) where
  -- The loop of `deduplicate` with the hashes seen so far.
  unfoldable pub dedup_from : List String → List (Sample F) → List (Sample F)
  dedup_from seen [] = []
  dedup_from seen (s ∷ samples) =
      let h = hash_prompt s.prompt in
      let fresh = dedup_from (Dict.add seen h) samples in
      let old = dedup_from seen samples in if Dict.contains seen h then old else s ∷ fresh

  unfoldable pub deduplicate : List (Sample F) → List (Sample F)
  unfolding dedup_from
  deduplicate samples = dedup_from [] samples

-- A candidate of `generate_synthetic`: the prompt of one round and its random target.
pub record Candidate (F : Type 0) : Type 0 where
  pub prompt : String
  pub target : F

module _ {F : Type 0} ⦃fl : Floats F⦄ (hash_prompt : String → String)
    (extract : String → List F) where
  -- `max(5.0, target + feat_boost * 0.1)` with the boost from the first five features
  unfoldable blended : List F → F → F
  unfolding sum_from
  blended features target = fmax (fl.lit 5 0) (
      fl.add target
        (fl.mul (fl.mul (sum_from (fl.lit 0 0) (take 5 features)) (fl.lit 5 1)) (fl.lit 1 1)))

  -- The loop of `generate_synthetic` over its candidates: `room` is how many samples are still
  -- wanted.
  unfoldable pub synthesize : ℕ → List String → List (Candidate F) → List (Sample F)
  unfolding blended
  synthesize room seen [] = []
  synthesize zero seen (c ∷ candidates) = []
  synthesize (suc room) seen (c ∷ candidates) =
      let h = hash_prompt c.prompt in
      let fresh = synthesize room (Dict.add seen h) candidates in
      let old = synthesize (suc room) seen candidates in
      if Dict.contains seen h
      then old
      else record {
        prompt = c.prompt;
        features = extract c.prompt;
        actual_output_tokens = blended (extract c.prompt) c.target;
        metadata = ("source", "synthetic") ∷ [];
      }
        ∷ fresh

-- The lists of a split, without the statistics.
pub record DatasetSplits (F : Type 0) : Type 0 where
  pub train : List (Sample F)
  pub val : List (Sample F)
  pub test : List (Sample F)

module _ {F : Type 0} ⦃fl : Floats F⦄ where
  -- `[samples[i] for i in idx]`: `none` is the `IndexError`.
  unfoldable pub gather : List (Sample F) → List ℕ → Option (List (Sample F))
  gather samples [] = some []
  gather samples (i ∷ idx) = elim (get_elem? samples i) [
    | none ↦ none
    | some s ↦ elim (gather samples idx) [ none ↦ none | some rest ↦ some (s ∷ rest) ]
  ]

  -- `split`, with the permutation that the generator gives.
  unfoldable pub split : List (Sample F) → F → F → List ℕ → Option (DatasetSplits F)
  unfolding gather
  split samples train_ratio val_ratio indices =
      let n = length samples in
      let n_train = fl.trunc (fl.mul (fl.lit n 0) train_ratio) in
      let n_val = fl.trunc (fl.mul (fl.lit n 0) val_ratio) in
      elim (gather samples (take n_train indices)) [
        | none ↦ none
        | some train ↦ elim (gather samples (take n_val (drop n_train indices))) [
          | none ↦ none
          | some val ↦ elim (gather samples (drop (n_train + n_val) indices)) [
            | none ↦ none
            | some test ↦ some (record { train = train; val = val; test = test })
          ]
        ]
      ]
