-- ===== src/Vllm/Build.antt =====
-- vllm_port/smollm3.py: the constructors of the modules, from the configuration. `none` is a
-- `ZeroDivisionError`.
mod Inversion
pub mod Widths
pub mod Ropes
pub mod Forward
use ai_infrastructure_platfo.Prelude.{
  ℕ, zero, suc, ◌+◌, ◌*◌, ◌/◌, Bool, true, false, Option, none, some, List, [], ◌∷◌, ◌++◌, ◌==◌,
  ◌||◌, if◌then◌else◌,
}
use ai_infrastructure_platfo.Codes.{Name, codes, str}
use ai_infrastructure_platfo.Floats.{Floats}
use ai_infrastructure_platfo.Vllm.Rope.{Heads, heads, use_rope}
use ai_infrastructure_platfo.Vllm.Shapes.{◌>>=◌}
use ai_infrastructure_platfo.Vllm.Modules.{
  Config, cfg, Platform, standalone, vllm, Projection, linear, merged_column, row_parallel,
  qkv_parallel, Mlp, Rotary, Kernel, AttentionModules, merged, separate, Attention, Norm, rms_norm,
  layer_norm, DecoderLayer, Table, Model, CausalLm,
}

-- `SmolLM3MLP.__init__`
unfoldable pub mlp_init : Platform → ℕ → ℕ → Name → Mlp
mlp_init (vllm tp_size) hidden_size intermediate_size prefix = record {
  gate_up_proj =
      merged_column hidden_size (intermediate_size ∷ intermediate_size ∷ [])
        (prefix ++ codes ".gate_up_proj");
  down_proj = row_parallel intermediate_size hidden_size (prefix ++ codes ".down_proj");
}
mlp_init standalone hidden_size intermediate_size prefix = record {
  gate_up_proj = linear hidden_size (intermediate_size * 2);
  down_proj = linear intermediate_size hidden_size;
}

unfoldable pub norm_init : {F : Type 0} → Platform → ℕ → F → Norm F
norm_init (vllm tp_size) hidden_size eps = rms_norm hidden_size eps
norm_init standalone hidden_size eps = layer_norm hidden_size eps

-- `power` is `n ** -0.5`.
module _ {F : Type 0} ⦃fl : Floats F⦄ (power : ℕ → F) where
  -- `SmolLM3Attention.__init__` after the counts of heads, on both branches.
  unfoldable pub attention_vllm : Config F → ℕ → Name → Bool → Heads → Attention F
  unfolding cfg
  attention_vllm config hidden_size prefix rope h = record {
    hidden_size = hidden_size;
    num_heads = h.num_heads;
    num_kv_heads = h.num_kv_heads;
    head_dim = h.head_dim;
    scaling = power h.head_dim;
    use_rope = rope;
    modules =
        merged
          (qkv_parallel hidden_size h.head_dim h.total_num_heads h.total_num_kv_heads
            (prefix ++ codes ".qkv_proj"))
          (row_parallel (h.total_num_heads * h.head_dim) hidden_size (prefix ++ codes ".o_proj"))
          (if rope
            then some (record {
              head_size = h.head_dim;
              rotary_dim = h.head_dim;
              max_position = cfg config.max_position_embeddings 131072;
              base = cfg config.rope_theta (fl.lit 136000 0);
            })
            else none)
          (record {
            num_heads = h.num_heads;
            head_dim = h.head_dim;
            scaling = power h.head_dim;
            num_kv_heads = h.num_kv_heads;
            prefix = prefix ++ codes ".attn";
          });
  }

  unfoldable pub attention_standalone : ℕ → ℕ → ℕ → ℕ → Bool → Attention F
  attention_standalone hidden_size num_heads num_kv_heads head_dim rope = record {
    hidden_size = hidden_size;
    num_heads = num_heads;
    num_kv_heads = num_kv_heads;
    head_dim = head_dim;
    scaling = power head_dim;
    use_rope = rope;
    modules =
        separate (linear hidden_size (num_heads * head_dim))
          (linear hidden_size (num_kv_heads * head_dim))
          (linear hidden_size (num_kv_heads * head_dim))
          (linear (num_heads * head_dim) hidden_size);
  }

  -- The counts of heads on the platform. `self.hidden_size // self.num_heads` is computed also where
  -- the configuration has a `head_dim`, and `self.head_dim ** -0.5` raises for 0.
  unfoldable pub attention_init : Platform → Config F → ℕ → Name → Option (Attention F)
  unfolding attention_vllm attention_standalone cfg
  attention_init (vllm tp_size) config layer_idx prefix =
      let hidden_size : ℕ = cfg config.hidden_size 2048 in
      use_rope layer_idx (cfg config.nope_layer_interval 2) >>= λ rope.
      heads hidden_size (cfg config.num_attention_heads 32) (cfg config.num_key_value_heads 8)
        config.head_dim tp_size
      >>= λ h.
          if h.head_dim == 0 then none else some (attention_vllm config hidden_size prefix rope h)
  attention_init standalone config layer_idx prefix =
      let hidden_size : ℕ = cfg config.hidden_size 2048 in
      let num_heads : ℕ = cfg config.num_attention_heads 32 in
      use_rope layer_idx (cfg config.nope_layer_interval 2) >>= λ rope.
      let head_dim : ℕ = cfg config.head_dim (hidden_size / num_heads) in
      if num_heads == 0 || head_dim == 0
      then none
      else some (
          attention_standalone hidden_size num_heads (cfg config.num_key_value_heads 8) head_dim
            rope)

  -- `SmolLM3DecoderLayer.__init__`
  unfoldable pub layer_init : Platform → Config F → ℕ → Name → Option (DecoderLayer F)
  unfolding mlp_init norm_init cfg
  layer_init platform config layer_idx prefix =
      let hidden_size : ℕ = cfg config.hidden_size 2048 in
      let norm = norm_init platform hidden_size (cfg config.rms_norm_eps (fl.lit 1 5)) in
      attention_init platform config layer_idx (prefix ++ codes ".self_attn") >>= λ attention.
      some (record {
        self_attn = attention;
        mlp =
            mlp_init platform hidden_size (cfg config.intermediate_size 8192)
              (prefix ++ codes ".mlp");
        input_layernorm = norm;
        post_attention_layernorm = norm;
      })

  -- `for i in range(num_layers)`, from the layer `i` on.
  unfoldable pub layers_init : Platform → Config F → Name → ℕ → ℕ → Option (List (DecoderLayer F))
  layers_init platform config prefix i zero = some []
  layers_init platform config prefix i (suc n) =
      let rest = layers_init platform config prefix (i + 1) n in
      layer_init platform config i (prefix ++ codes ".layers." ++ str i) >>= λ layer.
      rest >>= λ layers. some (layer ∷ layers)

  -- `SmolLM3Model.__init__`, with the layers that it makes.
  unfoldable pub model_of : Platform → Config F → Name → List (DecoderLayer F) → Model F
  unfolding norm_init cfg
  model_of platform config prefix layers = record {
    embed_tokens = record {
      rows = cfg config.vocab_size 49152;
      cols = cfg config.hidden_size 2048;
      prefix = prefix ++ codes ".embed_tokens";
    };
    layers = layers;
    norm = norm_init platform (cfg config.hidden_size 2048) (cfg config.rms_norm_eps (fl.lit 1 5));
  }

  unfoldable pub model_init : Platform → Config F → Name → Option (Model F)
  unfolding layers_init model_of cfg
  model_init platform config prefix =
      layers_init platform config prefix 0 (cfg config.num_hidden_layers 32) >>= λ layers.
      some (model_of platform config prefix layers)

  -- `SmolLM3ForCausalLM.__init__`, with the model that it makes.
  unfoldable pub causal_lm_of : Config F → Name → Model F → CausalLm F
  unfolding cfg
  causal_lm_of config prefix model = record {
    tie_word_embeddings = cfg config.tie_word_embeddings true;
    model = model;
    lm_head = record {
      rows = cfg config.vocab_size 49152;
      cols = cfg config.hidden_size 2048;
      prefix = prefix ++ codes ".lm_head";
    };
  }

  unfoldable pub causal_lm_init : Platform → Config F → Name → Option (CausalLm F)
  unfolding model_init causal_lm_of
  causal_lm_init platform config prefix =
      model_init platform config (prefix ++ codes ".model") >>= λ model.
      some (causal_lm_of config prefix model)
