-- ===== src/Vllm/Modules.antt =====
-- vllm_port/smollm3.py: the configuration, and the modules that the constructors make. A module of
-- PyTorch or vLLM is the arguments that it is made with; the quantisation and cache configurations,
-- which the constructors only pass on, are left out.
use ai_infrastructure_platfo.Prelude.{ℕ, Bool, Option, none, some, List}
use ai_infrastructure_platfo.Codes.{Name}

-- The entries of the model's configuration, each of which may be absent.
pub record Config (F : Type 0) : Type 0 where
  pub hidden_size : Option ℕ
  pub num_attention_heads : Option ℕ
  pub num_key_value_heads : Option ℕ
  pub head_dim : Option ℕ
  pub nope_layer_interval : Option ℕ
  pub rope_theta : Option F
  pub max_position_embeddings : Option ℕ
  pub rms_norm_eps : Option F
  pub intermediate_size : Option ℕ
  pub vocab_size : Option ℕ
  pub num_hidden_layers : Option ℕ
  pub tie_word_embeddings : Option Bool

-- `_cfg(config, key, default)`
unfoldable pub cfg : {A : Type 0} → Option A → A → A
cfg none default = default
cfg (some a) default = a

-- Whether vLLM can be imported, and then the number of devices that share a tensor.
pub data Platform : Type 0 where
  standalone : Platform
  vllm : (tp_size : ℕ) → Platform

pub data Projection : Type 0 where
  linear : (inputs outputs : ℕ) → Projection
  merged_column : (inputs : ℕ) (outputs : List ℕ) (prefix : Name) → Projection
  row_parallel : (inputs outputs : ℕ) (prefix : Name) → Projection
  qkv_parallel :
      (hidden_size head_dim total_num_heads total_num_kv_heads : ℕ) (prefix : Name) → Projection

pub record Mlp : Type 0 where
  pub gate_up_proj : Projection
  pub down_proj : Projection

-- `get_rope`, and vLLM's `Attention`
pub record Rotary (F : Type 0) : Type 0 where
  pub head_size : ℕ
  pub rotary_dim : ℕ
  pub max_position : ℕ
  pub base : F

pub record Kernel (F : Type 0) : Type 0 where
  pub num_heads : ℕ
  pub head_dim : ℕ
  pub scaling : F
  pub num_kv_heads : ℕ
  pub prefix : Name

pub data AttentionModules (F : Type 0) : Type 0 where
  merged :
      (qkv_proj o_proj : Projection) (rotary_emb : Option (Rotary F)) (attn : Kernel F)
      → AttentionModules F
  separate : (q_proj k_proj v_proj o_proj : Projection) → AttentionModules F

pub record Attention (F : Type 0) : Type 0 where
  pub hidden_size : ℕ
  pub num_heads : ℕ
  pub num_kv_heads : ℕ
  pub head_dim : ℕ
  pub scaling : F
  pub use_rope : Bool
  pub modules : AttentionModules F

-- `RMSNorm`, or `nn.LayerNorm` without vLLM.
pub data Norm (F : Type 0) : Type 0 where
  rms_norm layer_norm : (hidden_size : ℕ) (eps : F) → Norm F

pub record DecoderLayer (F : Type 0) : Type 0 where
  pub self_attn : Attention F
  pub mlp : Mlp
  pub input_layernorm : Norm F
  pub post_attention_layernorm : Norm F

-- `nn.Embedding`, `VocabParallelEmbedding`, `ParallelLMHead` or `nn.Linear` as a head, by its sizes.
pub record Table : Type 0 where
  pub rows : ℕ
  pub cols : ℕ
  pub prefix : Name

pub record Model (F : Type 0) : Type 0 where
  pub embed_tokens : Table
  pub layers : List (DecoderLayer F)
  pub norm : Norm F

pub record CausalLm (F : Type 0) : Type 0 where
  pub tie_word_embeddings : Bool
  pub model : Model F
  pub lm_head : Table
