-- ===== src/Vllm/Weights.antt =====
-- vllm_port/smollm3.py: `load_weights` of `SmolLM3ForCausalLM`.
pub mod Tying
use ai_infrastructure_platfo.Prelude.{
  ap, ◌∙◌, ℕ, ◌≡◌, ◌≢◌, refl, Bool, ◌&&◌, Option, none, some, List, [], ◌∷◌, ◌++◌, arith,
  if◌then◌else◌, Bool-cases, inl, inr,
}
use ai_infrastructure_platfo.Dict
use ai_infrastructure_platfo.Codes.{
  Name, codes, name_eq, same, ends_with, replace, last, last-append, ends_with-last,
}

-- The parts of a merged parameter: "q", "k", "v", 0 and 1.
pub data Shard : Type 0 where
  query key val gate up : Shard

-- A call of a parameter's weight loader, or a copy into the parameter.
pub record Load (W : Type 0) : Type 0 where
  pub param : Name
  pub weight : W
  pub shard : Option Shard

-- The model as `load_weights` sees it: the names of `named_parameters`, the tying of the
-- embeddings, and whether vLLM is there.
pub record Model : Type 0 where
  pub params : List Name
  pub tie_word_embeddings : Bool
  pub vllm_available : Bool

-- Suffix, vLLM's name and shard of the merged projections.
abbrev stacked_params_mapping : List (Name × Name × Shard)
stacked_params_mapping =
    (codes "q_proj", codes "qkv_proj", query)
    ∷ (codes "k_proj", codes "qkv_proj", key)
    ∷ (codes "v_proj", codes "qkv_proj", val)
    ∷ (codes "gate_proj", codes "gate_up_proj", gate)
    ∷ (codes "up_proj", codes "gate_up_proj", up)
    ∷ []

-- The inner `for` loop with its two `break`s: the merged parameter and the shard, if there is one.
unfoldable find_stacked : List Name → Name → List (Name × Name × Shard) → Option (Name × Shard)
unfolding ends_with replace
find_stacked params name [] = none
find_stacked params name ((hf_suffix, vllm_name, shard_id) ∷ mapping) =
    let later = find_stacked params name mapping in
    let vllm_key = replace name hf_suffix vllm_name in
    if ends_with name hf_suffix
    then (if Dict.contains params vllm_key then some (vllm_key, shard_id) else none)
    else later

-- `name == "lm_head.weight" and self.tie_word_embeddings`
unfoldable pub is_tied : Model → Name → Bool
is_tied m name = same name (codes "lm_head.weight") && m.tie_word_embeddings

module _ {W : Type 0} where
  -- The body of the outer `for` loop: what it loads.
  unfoldable load_one : Model → Name × W → List (Load W)
  unfolding find_stacked is_tied
  load_one m (name, loaded_weight) =
      if is_tied m name then [] else elim (find_stacked m.params name stacked_params_mapping) [
        | some (vllm_key, shard_id) ↦
            if m.vllm_available
            then record { param = vllm_key; weight = loaded_weight; shard = some shard_id } ∷ []
            else []
        | none ↦
            if Dict.contains m.params name
            then record { param = name; weight = loaded_weight; shard = none } ∷ []
            else []
      ]

  -- The loop over the checkpoint.
  unfoldable pub load_weights : Model → List (Name × W) → List (Load W)
  unfolding load_one
  load_weights m [] = []
  load_weights m (w ∷ ws) = load_one m w ++ load_weights m ws

-- A suffix whose last character is not the name's is passed over.
find_stacked-skip :
    (params : List Name) (name : Name) (c : ℕ) (cs : Name) (vllm_name : Name) (shard_id : Shard)
    (mapping : List (Name × Name × Shard))
    → last name ≢ last (c ∷ cs)
    → find_stacked params name ((c ∷ cs, vllm_name, shard_id) ∷ mapping)
      ≡ find_stacked params name mapping
unfolding find_stacked
find_stacked-skip params name c cs vllm_name shard_id mapping d =
    elim (Bool-cases (ends_with name (c ∷ cs))) [
      | inl e ↦ absurd (d (ends_with-last name c cs e))
      | inr e ↦ rw e refl
    ]

-- Every suffix of the mapping has a last character, and it is not the name's.
abbrev EndApart : Name → List (Name × Name × Shard) → Type 0
EndApart name [] = Unit
EndApart name (([], _, _) ∷ mapping) = ⊥
EndApart name ((c ∷ cs, _, _) ∷ mapping) = (last name ≢ last (c ∷ cs)) × EndApart name mapping

find_stacked-apart :
    (params : List Name) (name : Name) (mapping : List (Name × Name × Shard))
    → EndApart name mapping
    → find_stacked params name mapping ≡ none
unfolding find_stacked
find_stacked-apart params name [] a = refl
find_stacked-apart params name (([], vllm_name, shard_id) ∷ mapping) a = absurd a
find_stacked-apart params name ((c ∷ cs, vllm_name, shard_id) ∷ mapping) a =
    find_stacked-skip params name c cs vllm_name shard_id mapping a.0
    ∙ find_stacked-apart params name mapping a.1

find_stacked-weight :
    (params : List Name) (stem : Name)
    → find_stacked params (stem ++ codes ".weight") stacked_params_mapping ≡ none
find_stacked-weight params stem =
    let name = stem ++ codes ".weight" in
    let t : last name ≡ b't' = last-append stem b'.' (codes "weight") in
    let differs : last name ≢ b'j' = omega arith in
    find_stacked-apart params name stacked_params_mapping
      (differs, (differs, (differs, (differs, (differs, tt)))))

module _ {W : Type 0} where
  -- The entry loaded under its own name, if the model has that parameter and it is not the tied head.
  abbrev pub own_load : Model → Name → W → List (Load W)
  own_load m name w =
      if is_tied m name
      then []
      else if Dict.contains m.params name
      then record { param = name; weight = w; shard = none } ∷ []
      else []

  load_one-weight :
      (m : Model) (stem : Name) (w : W)
      → load_one m (stem ++ codes ".weight", w) ≡ own_load m (stem ++ codes ".weight") w
  unfolding load_one
  load_one-weight m stem w = rw (find_stacked-weight m.params stem, load_one) refl

  -- A checkpoint with the names that end in ".weight", and what it would load without merging.
  abbrev pub checkpoint_of : List (Name × W) → List (Name × W)
  checkpoint_of [] = []
  checkpoint_of ((stem, w) ∷ ws) = (stem ++ codes ".weight", w) ∷ checkpoint_of ws

  abbrev pub own_loads : Model → List (Name × W) → List (Load W)
  own_loads m [] = []
  own_loads m ((name, w) ∷ ws) = own_load m name w ++ own_loads m ws

  -- Of a checkpoint whose names all end in ".weight", as those of Hugging Face do, nothing is merged:
  -- each entry is loaded under its own name if the model has that parameter and it is not the tied
  -- head, and is dropped without a word if not.
  pub load_weights-checkpoint_of :
      (m : Model) (ws : List (Name × W))
      → load_weights m (checkpoint_of ws) ≡ own_loads m (checkpoint_of ws)
  unfolding load_weights
  load_weights-checkpoint_of m [] = refl
  load_weights-checkpoint_of m ((stem, w) ∷ ws) =
      ap (λ l. l ++ load_weights m (checkpoint_of ws)) (load_one-weight m stem w)
      ∙ ap (λ l. own_load m (stem ++ codes ".weight") w ++ l) (load_weights-checkpoint_of m ws)
