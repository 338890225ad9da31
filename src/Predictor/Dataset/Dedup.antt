-- ===== src/Predictor/Dataset/Dedup.antt =====
-- python/predictor/dataset.py: what deduplication keeps.
use ai_infrastructure_platfo.Prelude.{
  ℕ, zero, suc, ◌≤◌, ◌≡◌, String, Bool, Option, none, some, List, [], ◌∷◌, length, string_eq, arith,
  min, if◌then◌else◌,
}
use text.Mathlib.TextEquality.{eq_iff}
use ai_infrastructure_platfo.Prelude.Counts.{count_if}
use ai_infrastructure_platfo.Dict
use ai_infrastructure_platfo.Dict.{contains-add}
use ai_infrastructure_platfo.Floats.{Floats}
use ai_infrastructure_platfo.Predictor.Dataset.{
  Sample, Candidate, dedup_from, deduplicate, synthesize,
}

module _ {F : Type 0} (hash_prompt : String → String) where
  -- Whether a sample's prompt has the hash `h`.
  abbrev pub has_hash : String → Sample F → Bool
  has_hash h s = string_eq.beq (hash_prompt s.prompt) h

  -- The first sample with the hash `h`.
  abbrev pub first_with : String → List (Sample F) → Option (Sample F)
  first_with h [] = none
  first_with h (s ∷ samples) = if has_hash h s then some s else first_with h samples

  dedup_from-count :
      (seen : List String) (samples : List (Sample F)) (h : String)
      → count_if (has_hash h) (dedup_from hash_prompt seen samples)
        ≡ (if Dict.contains seen h then 0 else min 1 (count_if (has_hash h) samples))
  unfolding dedup_from
  dedup_from-count seen [] h = ground arith
  dedup_from-count seen (s ∷ samples) h =
      let k = hash_prompt s.prompt in
      ground (
        arith,
        dedup_from-count seen samples h,
        dedup_from-count (Dict.add seen k) samples h,
        contains-add seen k h,
        eq_iff k h,
      )

  dedup_from-first :
      (seen : List String) (samples : List (Sample F)) (h : String)
      → first_with h (dedup_from hash_prompt seen samples)
        ≡ (if Dict.contains seen h then none else first_with h samples)
  unfolding dedup_from
  dedup_from-first seen [] h = ground arith
  dedup_from-first seen (s ∷ samples) h =
      let k = hash_prompt s.prompt in
      ground (
        arith,
        dedup_from-first seen samples h,
        dedup_from-first (Dict.add seen k) samples h,
        contains-add seen k h,
        eq_iff k h,
      )

  -- Deduplication keeps one sample of each hash that occurs, the first, and no other.
  pub deduplicate-first :
      (samples : List (Sample F)) (h : String)
      → (count_if (has_hash h) (deduplicate hash_prompt samples)
          ≡ min 1 (count_if (has_hash h) samples))
        × (first_with h (deduplicate hash_prompt samples) ≡ first_with h samples)
  unfolding deduplicate Dict.contains
  deduplicate-first samples h = (dedup_from-count [] samples h, dedup_from-first [] samples h)

module _ {F : Type 0} ⦃fl : Floats F⦄ (hash_prompt : String → String)
    (extract : String → List F) where
  synthesize-count :
      (room : ℕ) (seen : List String) (candidates : List (Candidate F)) (h : String)
      → count_if (has_hash hash_prompt h) (synthesize hash_prompt extract room seen candidates)
        ≤ (if Dict.contains seen h then 0 else 1)
  unfolding synthesize
  synthesize-count room seen [] h = ground arith
  synthesize-count zero seen (c ∷ candidates) h = ground arith
  synthesize-count (suc room) seen (c ∷ candidates) h =
      let k = hash_prompt c.prompt in
      ground (
        arith,
        synthesize-count (suc room) seen candidates h,
        synthesize-count room (Dict.add seen k) candidates h,
        contains-add seen k h,
        eq_iff k h,
      )

  synthesize-length :
      (room : ℕ) (seen : List String) (candidates : List (Candidate F))
      → length (synthesize hash_prompt extract room seen candidates) ≤ room
  unfolding synthesize
  synthesize-length room seen [] = omega arith
  synthesize-length zero seen (c ∷ candidates) = omega arith
  synthesize-length (suc room) seen (c ∷ candidates) =
      let k = hash_prompt c.prompt in
      ground (
        arith,
        synthesize-length (suc room) seen candidates,
        synthesize-length room (Dict.add seen k) candidates,
      )

  -- The synthetic data set has at most as many samples as were wanted, and no two with prompts of
  -- one hash.
  pub synthesize_bounds :
      (n : ℕ) (candidates : List (Candidate F)) (h : String)
      → (length (synthesize hash_prompt extract n [] candidates) ≤ n)
        × (count_if (has_hash hash_prompt h) (synthesize hash_prompt extract n [] candidates) ≤ 1)
  unfolding Dict.contains
  synthesize_bounds n candidates h =
      (synthesize-length n [] candidates, synthesize-count n [] candidates h)
