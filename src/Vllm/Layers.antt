-- ===== src/Vllm/Layers.antt =====
-- vllm_port/smollm3.py: the decoder layers and the model's forward pass, over abstract tensors.
use ai_infrastructure_platfo.Prelude.{◌≡◌, refl, ap, ◌∙◌, Option, none, some, List, [], ◌∷◌}
use ai_infrastructure_platfo.Prelude.Counts.{All}

-- Tensors with their sum, and the modules of a layer. `fused_norm` is vLLM's `RMSNorm` of a tensor
-- and a residual.
pub record Tensors (T : Type 0) : Type 0 where
  pub add : T → T → T
  pub zero : T

pub record Layer (T : Type 0) : Type 0 where
  pub input_layernorm : T → T
  pub input_fused : T → T → T × T
  pub self_attn : T → T
  pub post_attention_layernorm : T → T
  pub post_attention_fused : T → T → T × T
  pub mlp : T → T

module _ {T : Type 0} (ts : Tensors T) where
  -- `SmolLM3DecoderLayer.forward` without vLLM.
  unfoldable pub forward_standalone : Layer T → T → Option T → T × T
  forward_standalone l hidden_states residual =
      let total : T = elim residual [ none ↦ hidden_states | some r ↦ ts.add hidden_states r ] in
      let attended = ts.add (l.self_attn (l.input_layernorm total)) total in
      (l.mlp (l.post_attention_layernorm attended), attended)

  -- The end of both branches of `forward` with vLLM.
  unfoldable finish_vllm : Layer T → T × T → T × T
  finish_vllm l (hidden_states, residual) =
      let (normed, residual') = l.post_attention_fused (l.self_attn hidden_states) residual in
      (l.mlp normed, residual')

  -- `SmolLM3DecoderLayer.forward` with vLLM.
  unfoldable pub forward_vllm : Layer T → T → Option T → T × T
  unfolding finish_vllm
  forward_vllm l hidden_states none = finish_vllm l (l.input_layernorm hidden_states, hidden_states)
  forward_vllm l hidden_states (some r) = finish_vllm l (l.input_fused hidden_states r)

  -- The loop of `SmolLM3Model.forward`, with the layers' `forward` as an argument.
  unfoldable run_layers :
      (Layer T → T → Option T → T × T) → List (Layer T) → T → Option T → T × Option T
  run_layers forward [] hidden_states residual = (hidden_states, residual)
  run_layers forward (l ∷ layers) hidden_states residual =
      let (h, r) = forward l hidden_states residual in run_layers forward layers h (some r)

  -- `SmolLM3Model.forward` of the embedded input, without and with vLLM. vLLM's final norm wants a
  -- residual, so its pass fails on a model with no layers.
  unfoldable pub model_standalone : (T → T) → List (Layer T) → T → T
  unfolding run_layers
  model_standalone norm layers hidden_states =
      let (h, r) = run_layers forward_standalone layers hidden_states none in
      norm (ts.add h (elim r [ none ↦ ts.zero | some t ↦ t ]))

  -- `hidden_states, _ = self.norm(hidden_states, residual)`
  abbrev final_norm : (T → T → T × T) → T × Option T → Option T
  final_norm fused_norm (h, none) = none
  final_norm fused_norm (h, some t) = some (fused_norm h t).0

  unfoldable pub model_vllm : (T → T → T × T) → List (Layer T) → T → Option T
  unfolding run_layers
  model_vllm fused_norm layers hidden_states =
      final_norm fused_norm (run_layers forward_vllm layers hidden_states none)

  -- The pre-norm transformer block of the documentation: x + Attention(Norm(x)), then
  -- x + MLP(Norm(x)), the sums written as the code writes them.
  abbrev block : Layer T → T → T
  block l x =
      let y = ts.add (l.self_attn (l.input_layernorm x)) x in
      ts.add (l.mlp (l.post_attention_layernorm y)) y

  abbrev pub blocks : List (Layer T) → T → T
  blocks [] x = x
  blocks (l ∷ layers) x = blocks layers (block l x)

  abbrev total_of : T × Option T → T
  total_of (h, none) = h
  total_of (h, some r) = ts.add h r

  run_layers-blocks :
      (layers : List (Layer T)) (h : T) (r : Option T)
      → total_of (run_layers forward_standalone layers h r) ≡ blocks layers (total_of (h, r))
  unfolding run_layers forward_standalone
  run_layers-blocks [] h r = refl
  run_layers-blocks (l ∷ layers) h none = run_layers-blocks layers _ (some _)
  run_layers-blocks (l ∷ layers) h (some r) = run_layers-blocks layers _ (some _)

  -- Without vLLM the model computes the stack of pre-norm blocks under the final norm: the carried
  -- residual is nothing but their running sums. A tensor plus zero is that tensor.
  pub model_standalone-blocks :
      (norm : T → T) (layers : List (Layer T)) (x : T)
      → ((t : T) → ts.add t ts.zero ≡ t)
      → model_standalone norm layers x ≡ norm (blocks layers x)
  unfolding model_standalone run_layers
  model_standalone-blocks norm layers x zero_right =
      ap norm
        (final (run_layers forward_standalone layers x none) ∙ run_layers-blocks layers x none)
    where
      final :
          (p : T × Option T) → ts.add p.0 (elim p.1 [ none ↦ ts.zero | some t ↦ t ]) ≡ total_of p
      final (h, none) = zero_right h
      final (h, some r) = refl

  -- What vLLM documents of its fused norm: the norm of the sum, and the sum.
  abbrev Fused : Layer T → Type 0
  Fused l =
      ((x r : T) → l.input_fused x r ≡ (l.input_layernorm (ts.add x r), ts.add x r))
      × ((x r : T)
          → l.post_attention_fused x r ≡ (l.post_attention_layernorm (ts.add x r), ts.add x r))

  forward_vllm-standalone :
      (l : Layer T) (h : T) (r : Option T) → Fused l → forward_vllm l h r ≡ forward_standalone l h r
  unfolding forward_vllm forward_standalone finish_vllm
  forward_vllm-standalone l h none f =
      ap (λ (t : T × T). (l.mlp t.0, t.1)) (f.1 (l.self_attn (l.input_layernorm h)) h)
  forward_vllm-standalone l h (some r) f =
      ap (finish_vllm l) (f.0 h r)
      ∙ ap (λ (t : T × T). (l.mlp t.0, t.1))
          (f.1 (l.self_attn (l.input_layernorm (ts.add h r))) (ts.add h r))

  run_layers-vllm :
      (layers : List (Layer T)) (h : T) (r : Option T)
      → All Fused layers
      → run_layers forward_vllm layers h r ≡ run_layers forward_standalone layers h r
  unfolding run_layers
  run_layers-vllm [] h r f = refl
  run_layers-vllm (l ∷ layers) h r f =
      rw (forward_vllm-standalone l h r f.0) (run_layers-vllm layers _ _ f.1)

  final_norm-blocks :
      (norm : T → T) (fused_norm : T → T → T × T) (layers : List (Layer T)) (h r : T)
      → ((h r : T) → (fused_norm h r).0 ≡ norm (ts.add h r))
      → final_norm fused_norm (run_layers forward_standalone layers h (some r))
        ≡ some (norm (blocks layers (ts.add h r)))
  unfolding run_layers forward_standalone
  final_norm-blocks norm fused_norm [] h r n = ap some (n h r)
  final_norm-blocks norm fused_norm (l ∷ layers) h r n =
      final_norm-blocks norm fused_norm layers _ _ n

  -- With vLLM, whose fused norms do what it documents, a model with a layer computes the same stack
  -- of pre-norm blocks under the final norm.
  pub model_vllm-blocks :
      (norm : T → T) (fused_norm : T → T → T × T) (l : Layer T) (layers : List (Layer T)) (x : T)
      → All Fused (l ∷ layers)
      → ((h r : T) → (fused_norm h r).0 ≡ norm (ts.add h r))
      → model_vllm fused_norm (l ∷ layers) x ≡ some (norm (blocks (l ∷ layers) x))
  unfolding model_vllm run_layers forward_standalone
  model_vllm-blocks norm fused_norm l layers x f n =
      ap (final_norm fused_norm) (run_layers-vllm (l ∷ layers) x none f)
      ∙ final_norm-blocks norm fused_norm layers _ _ n
