-- ===== src/Tests/VllmTests.antt =====
-- vllm_port/smollm3.py: numbers for tensors, and the parameters of one layer.
use ai_infrastructure_platfo.Prelude.{
  Option, none, length, get_elem?, false, List, ℕ, ◌+◌, ◌*◌, ◌/◌, ◌%◌, ◌≡◌, ◌↔◌, ◌==◌,
  if◌then◌else◌, refl, true, false, some, [], ◌∷◌, arith,
}
use ai_infrastructure_platfo.Prelude.Int.{ℤ}
use ai_infrastructure_platfo.Floats.Fixed.{fixed}
use ai_infrastructure_platfo.Tests.Setup.{float}
use ai_infrastructure_platfo.Vllm.Rope.{Heads, heads, use_rope}
use ai_infrastructure_platfo.Vllm.Build
use ai_infrastructure_platfo.Vllm.Modules
use ai_infrastructure_platfo.Vllm.Build.{causal_lm_init}
use ai_infrastructure_platfo.Vllm.Modules.{
  Config, Platform, standalone, vllm, CausalLm, DecoderLayer, cfg,
}
use ai_infrastructure_platfo.Vllm.Build.Ropes.{Rotates, without_rope, causal_lm_init-without_rope}
use ai_infrastructure_platfo.Vllm.Build.{attention_vllm, attention_init}
use ai_infrastructure_platfo.Vllm.Build.Forward.{Kernels, done, forward, rotated, called, ◌>>=◌}
use ai_infrastructure_platfo.Vllm.Build.Widths.{logits_shape}
use ai_infrastructure_platfo.Vllm.Build.Widths.Logits.{logits_shape-causal_lm_init}
use ai_infrastructure_platfo.Vllm.Layers.{Tensors, Layer, blocks, model_vllm, model_vllm-blocks}
use ai_infrastructure_platfo.Vllm.Weights.{
  Model, load_weights, checkpoint_of, own_loads, load_weights-checkpoint_of,
}
use ai_infrastructure_platfo.Vllm.Weights.{Shard}
use ai_infrastructure_platfo.Vllm.Weights.Tying.{
  head, embed_tokens, load_model, value_after, load_model-tied,
}
use ai_infrastructure_platfo.Dict
use ai_infrastructure_platfo.Codes.{Name, codes, name_eq, same}

abbrev numbers : Tensors ℕ
numbers = record { add = λ a b. a + b; zero = 0 }

abbrev layer : Layer ℕ
layer = record {
  input_layernorm = λ x. x / 2;
  input_fused = λ x r. ((x + r) / 2, x + r);
  self_attn = λ x. 3 * x;
  post_attention_layernorm = λ x. x / 3;
  post_attention_fused = λ x r. ((x + r) / 3, x + r);
  mlp = λ x. 5 * x;
}

model_vllm-blocks_example :
    model_vllm numbers (λ h r. ((h + r) / 7, h + r)) (layer ∷ layer ∷ []) 10
    ≡ some (blocks numbers (layer ∷ layer ∷ []) 10 / 7)
model_vllm-blocks_example =
    model_vllm-blocks numbers (λ x. x / 7) (λ h r. ((h + r) / 7, h + r)) layer (layer ∷ []) 10
      (((λ x r. refl), (λ x r. refl)), (((λ x r. refl), (λ x r. refl)), tt)) (λ h r. refl)

abbrev stem : Name
stem = codes "model.layers.0.self_attn.q_proj"

abbrev parameters : Model
parameters = record {
  params = codes "model.layers.0.self_attn.qkv_proj.weight" ∷ codes "lm_head.weight" ∷ [];
  tie_word_embeddings = true;
  vllm_available = true;
}

-- The query projection and the head of a checkpoint; the model has merged the first into `qkv_proj`.
abbrev entries : List (Name × ℕ)
entries = (stem, 5) ∷ (codes "lm_head", 6) ∷ []

load_weights-checkpoint_of_example :
    load_weights parameters (checkpoint_of entries) ≡ own_loads parameters (checkpoint_of entries)
load_weights-checkpoint_of_example = load_weights-checkpoint_of parameters entries

-- A model with tied embeddings, and a checkpoint with entries for the head and the embeddings.
abbrev tied_model : Model
tied_model = record {
  params = embed_tokens ∷ head ∷ [];
  tie_word_embeddings = true;
  vllm_available = false;
}

abbrev before : List (Name × ℕ)
before = (embed_tokens, 1) ∷ (head, 2) ∷ []

abbrev tied_entries : List (Name × ℕ)
tied_entries = (codes "lm_head", 6) ∷ (codes "model.embed_tokens", 7) ∷ []

before-embed_tokens : Dict.get before embed_tokens ≡ some 1
unfolding Dict.get same
before-embed_tokens = refl

before-head : Dict.has before head ≡ true
unfolding Dict.has same
before-head = refl

tied_model-embed_tokens : Dict.contains tied_model.params embed_tokens ≡ true
unfolding Dict.contains same
tied_model-embed_tokens = refl

abbrev overwrite : ℕ → ℕ → Option Shard → ℕ
overwrite old weight shard = weight

load_model-tied_example :
    (Dict.get (load_model overwrite tied_model before (checkpoint_of tied_entries)) head
      ≡ some (value_after overwrite tied_model embed_tokens 1 (checkpoint_of tied_entries)))
    × (Dict.get (load_model overwrite tied_model before (checkpoint_of tied_entries)) embed_tokens
        ≡ some (value_after overwrite tied_model embed_tokens 1 (checkpoint_of tied_entries)))
load_model-tied_example =
    load_model-tied overwrite tied_model before tied_entries 1 refl tied_model-embed_tokens
      before-embed_tokens before-head

-- Five small layers with a NoPE layer every second one; the rest is left to the defaults.
abbrev small : Config ℤ
small = record {
  hidden_size = some 8;
  num_attention_heads = some 4;
  num_key_value_heads = some 2;
  head_dim = none;
  nope_layer_interval = none;
  rope_theta = none;
  max_position_embeddings = none;
  rms_norm_eps = none;
  intermediate_size = some 16;
  vocab_size = some 10;
  num_hidden_layers = some 5;
  tie_word_embeddings = none;
}

abbrev power : ℕ → ℤ
power n = float n

-- The second layer, which goes without RoPE, on one device; tensors are numbers.
abbrev four_heads : Heads
four_heads = record {
  total_num_heads = 4;
  total_num_kv_heads = 2;
  num_heads = 4;
  num_kv_heads = 2;
  head_dim = 2;
}

abbrev second : Modules.Attention ℤ
second = attention_vllm power small 8 (codes "model.layers.1") false four_heads

abbrev kernels : Kernels ℤ ℕ ℕ ℕ
kernels = record {
  project = λ projection x. some (x + 1);
  split = λ q k v x. some (x, x + 2, x + 3);
  rotate = λ rotary positions q k. some (q + positions, k + positions);
  attend = λ attn q k v cache. if v == 0 then none else some (q * k + v + cache);
  shape = λ x. some (1, x);
  view_heads = λ sizes num_heads head_dim x. if head_dim == 0 then none else some x;
  repeat_interleave = λ repeat x. some (x * repeat);
  weights = λ scaling q k. some (q * k);
  merge = λ sizes scores v. some (scores * v);
}

second_output : forward kernels second 5 40 7 ≡ done 1815
unfolding forward rotated called ◌>>=◌ attention_init
second_output = refl

-- The model that was built; `other` is never reached.
abbrev built : CausalLm ℤ → Option (CausalLm ℤ) → CausalLm ℤ
built other none = other
built other (some lm) = lm

abbrev nothing : CausalLm ℤ
nothing = record {
  tie_word_embeddings = true;
  model = record {
    embed_tokens = record { rows = 0; cols = 0; prefix = [] };
    layers = [];
    norm = Modules.layer_norm 0 (float 0);
  };
  lm_head = record { rows = 0; cols = 0; prefix = [] };
}

abbrev lm_on : Platform → CausalLm ℤ
lm_on platform = built nothing (causal_lm_init power platform small [])

built_vllm : causal_lm_init power (vllm 2) small [] ≡ some (lm_on (vllm 2))
unfolding causal_lm_init heads use_rope Build.layer_init Build.attention_init
built_vllm = refl

built_standalone : causal_lm_init power standalone small [] ≡ some (lm_on standalone)
unfolding causal_lm_init heads use_rope Build.layer_init Build.attention_init
built_standalone = refl

causal_lm_init-without_rope_example :
    (length (lm_on (vllm 2)).model.layers ≡ 5)
    × ((i : ℕ) (l : DecoderLayer ℤ)
        → get_elem? (lm_on (vllm 2)).model.layers i ≡ some l
        → ((l.self_attn.use_rope ≡ false) ↔ ((i + 1) % 2 ≡ 0)) × Rotates (vllm 2) l.self_attn)
    × (without_rope (lm_on (vllm 2)).model.layers ≡ 5 / 2)
unfolding cfg
causal_lm_init-without_rope_example =
    causal_lm_init-without_rope power (vllm 2) small [] (lm_on (vllm 2)) built_vllm (omega arith)

logits_shape-causal_lm_init_example :
    logits_shape (lm_on standalone) 2 3 ≡ some (record { batch = 2; seq = 3; width = 10 })
unfolding cfg
logits_shape-causal_lm_init_example =
    logits_shape-causal_lm_init 2 3 (omega arith) (omega arith) power small (omega arith) refl []
      (lm_on standalone) built_standalone
