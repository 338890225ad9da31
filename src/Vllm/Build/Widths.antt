-- ===== src/Vllm/Build/Widths.antt =====
-- vllm_port/smollm3.py: the forward passes without vLLM as maps of shapes, over the modules that the
-- constructors made. A shape that PyTorch refuses is `none`; `b` and `s` are the sizes of the ids.
pub mod Logits
use ai_infrastructure_platfo.Prelude.{
  ℕ, ◌&&◌, Option, none, some, List, [], ◌∷◌, ◌==◌, if◌then◌else◌,
}
use ai_infrastructure_platfo.Vllm.Shapes.{
  Shape, HeadShape, linear, chunk, view_heads, repeat_of, attend, ◌>>=◌,
}
use ai_infrastructure_platfo.Vllm.Modules.{
  Projection, Mlp, Attention, AttentionModules, merged, separate, Norm, rms_norm, layer_norm,
  DecoderLayer, Model, CausalLm, Table,
}
use ai_infrastructure_platfo.Vllm.Build

-- A projection without vLLM is `nn.Linear`.
unfoldable pub project : Projection → Shape → Option Shape
unfolding linear
project (Projection.linear inputs outputs) x = linear inputs outputs x
project _ x = none

-- `x + y`, for tensors of one shape
unfoldable pub sum_shape : Shape → Shape → Option Shape
sum_shape x y = if x.batch == y.batch && x.seq == y.seq && x.width == y.width then some x else none

unfoldable pub norm_shape : {F : Type 0} → Norm F → Shape → Option Shape
norm_shape (layer_norm hidden_size eps) x = if x.width == hidden_size then some x else none
norm_shape (rms_norm hidden_size eps) x = none

-- `SmolLM3MLP.forward`
unfoldable pub mlp_forward : Mlp → Shape → Option Shape
unfolding project chunk
mlp_forward m x = do
  gate_up ← project m.gate_up_proj x
  half ← chunk gate_up
  project m.down_proj half

-- `SmolLM3Attention.forward`
unfoldable pub attention_forward :
    {F : Type 0} → Attention F → AttentionModules F → Shape → Option Shape
unfolding project view_heads repeat_of attend
attention_forward a (separate q_proj k_proj v_proj o_proj) x = do
  q ← project q_proj x
  k ← project k_proj x
  v ← project v_proj x
  q_heads ← view_heads a.num_heads a.head_dim q
  k_heads ← view_heads a.num_kv_heads a.head_dim k
  v_heads ← view_heads a.num_kv_heads a.head_dim v
  repeat ← repeat_of a.num_heads a.num_kv_heads
  out ← attend repeat q_heads k_heads
  project o_proj out
attention_forward a (merged qkv_proj o_proj rotary_emb attn) x = none

-- `SmolLM3DecoderLayer.forward`: the shapes of the hidden states and of the residual.
unfoldable pub layer_forward :
    {F : Type 0} → DecoderLayer F → Shape → Option Shape → Option (Shape × Shape)
unfolding norm_shape attention_forward mlp_forward sum_shape
layer_forward l x residual = do
  total ← elim residual [ none ↦ some x | some r ↦ sum_shape x r ]
  normed ← norm_shape l.input_layernorm total
  attended ← attention_forward l.self_attn l.self_attn.modules normed
  total' ← sum_shape attended total
  normed' ← norm_shape l.post_attention_layernorm total'
  out ← mlp_forward l.mlp normed'
  some (out, total')

-- The loop of `SmolLM3Model.forward`, and its end.
unfoldable pub layers_forward :
    {F : Type 0} → List (DecoderLayer F) → Shape → Option Shape → Option (Shape × Option Shape)
unfolding layer_forward
layers_forward [] x residual = some (x, residual)
layers_forward (l ∷ ls) x residual =
    layer_forward l x residual >>= λ p. layers_forward ls p.0 (some p.1)

unfoldable pub model_forward : {F : Type 0} → Model F → ℕ → ℕ → Option Shape
unfolding layers_forward norm_shape sum_shape
model_forward m b s = do
  p ← layers_forward m.layers (record { batch = b; seq = s; width = m.embed_tokens.cols }) none
  total ← elim p.1 [ none ↦ some p.0 | some r ↦ sum_shape p.0 r ]
  norm_shape m.norm total

-- `forward` of `SmolLM3ForCausalLM` and `compute_logits` of what it gives.
unfoldable pub logits_shape : {F : Type 0} → CausalLm F → ℕ → ℕ → Option Shape
unfolding model_forward linear
logits_shape lm b s = model_forward lm.model b s >>= linear lm.lm_head.cols lm.lm_head.rows
