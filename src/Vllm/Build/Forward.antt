-- ===== src/Vllm/Build/Forward.antt =====
-- vllm_port/smollm3.py: `SmolLM3Attention.forward` on both platforms, over abstract tensors `T`,
-- positions `P` and caches `C`.
use ai_infrastructure_platfo.Prelude.{ℕ, ◌*◌, ◌≡◌, ◌⊎◌, Bool, true, false, Option, none, some}
use ai_infrastructure_platfo.Floats.{Floats}
use ai_infrastructure_platfo.Vllm.Rope.{use_rope}
use ai_infrastructure_platfo.Vllm.Shapes.{repeat_of}
use ai_infrastructure_platfo.Vllm.Modules.{
  Projection, Rotary, Kernel, AttentionModules, merged, separate, Attention,
}

-- What the code calls of PyTorch and vLLM, where `none` is whatever exception the call raises, for
-- shapes that do not fit above all: a projection, the split of the merged one, the rotary embedding,
-- vLLM's attention, `b, s, _ = hidden_states.shape`, `view(b, s, ...).transpose(1, 2)` into heads,
-- `repeat_interleave`, the softmax of the scaled scores, and
-- `(attn @ v).transpose(1, 2).reshape(b, s, -1)`.
pub record Kernels (F T P C : Type 0) : Type 0 where
  pub project : Projection → T → Option T
  pub split : ℕ → ℕ → ℕ → T → Option (T × T × T)
  pub rotate : Rotary F → P → T → T → Option (T × T)
  pub attend : Kernel F → T → T → T → C → Option T
  pub shape : T → Option (ℕ × ℕ)
  pub view_heads : ℕ × ℕ → ℕ → ℕ → T → Option T
  pub repeat_interleave : ℕ → T → Option T
  pub weights : F → T → T → Option T
  pub merge : ℕ × ℕ → T → T → Option T

-- The exceptions: those of the calls, and the two that the method's own code can raise.
pub data Raised : Type 0 where
  kernel_error attribute_error zero_division_error : Raised

pub data Outcome (A : Type 0) : Type 0 where
  done : A → Outcome A
  raised : Raised → Outcome A

infixl 10 ◌>>=◌
unfoldable pub ◌>>=◌ : {A B : Type 0} → Outcome A → (A → Outcome B) → Outcome B
done a >>= f = f a
raised e >>= f = raised e

unfoldable pub called : {A : Type 0} → Option A → Outcome A
called none = raised kernel_error
called (some a) = done a

unfoldable pub divided : Option ℕ → Outcome ℕ
divided none = raised zero_division_error
divided (some n) = done n

module _ {F T P C : Type 0} (ks : Kernels F T P C) where
  -- `if self.use_rope: q, k = self.rotary_emb(positions, q, k)`
  unfoldable pub rotated : Bool → Option (Rotary F) → P → T → T → Outcome (T × T)
  rotated false rotary_emb positions q k = done (q, k)
  rotated true none positions q k = raised attribute_error
  rotated true (some rotary_emb) positions q k = called (ks.rotate rotary_emb positions q k)

  unfoldable forward_of : Attention F → AttentionModules F → P → T → C → Outcome T
  unfolding rotated repeat_of
  forward_of a (merged qkv_proj o_proj rotary_emb attn) positions hidden_states kv_cache = do
    let size = a.num_kv_heads * a.head_dim
    qkv ← called (ks.project qkv_proj hidden_states)
    (q, k, v) ← called (ks.split (a.num_heads * a.head_dim) size size qkv)
    (q', k') ← rotated a.use_rope rotary_emb positions q k
    attn_output ← called (ks.attend attn q' k' v kv_cache)
    called (ks.project o_proj attn_output)
  forward_of a (separate q_proj k_proj v_proj o_proj) positions hidden_states kv_cache = do
    shape ← called (ks.shape hidden_states)
    q ← called (ks.project q_proj hidden_states)
    k ← called (ks.project k_proj hidden_states)
    v ← called (ks.project v_proj hidden_states)
    q' ← called (ks.view_heads shape a.num_heads a.head_dim q)
    k' ← called (ks.view_heads shape a.num_kv_heads a.head_dim k)
    v' ← called (ks.view_heads shape a.num_kv_heads a.head_dim v)
    repeat ← divided (repeat_of a.num_heads a.num_kv_heads)
    keys ← called (ks.repeat_interleave repeat k')
    values ← called (ks.repeat_interleave repeat v')
    attn ← called (ks.weights a.scaling q' keys)
    out ← called (ks.merge shape attn values)
    called (ks.project o_proj out)

  -- `SmolLM3Attention.forward`
  unfoldable pub forward : Attention F → P → T → C → Outcome T
  unfolding forward_of
  forward a positions hidden_states kv_cache =
      forward_of a a.modules positions hidden_states kv_cache

-- No exception but those of the calls.
pub data OnlyCallsRaise {A : Type 0} : Outcome A → Type 0 where
  returns : {a : A} → OnlyCallsRaise (done a)
  call_raises : OnlyCallsRaise (raised kernel_error)

module _ {F T P C : Type 0} ⦃fl : Floats F⦄ (power : ℕ → F) (ks : Kernels F T P C) where
  -- Only the calls raise, and the outcome depends on the positions only if the layer uses RoPE.
  abbrev Runs : Attention F → Type 0
  Runs a =
      (p q : P) (x : T) (c : C)
      → OnlyCallsRaise (forward ks a p x c)
        × ((forward ks a p x c ≡ forward ks a q x c) ⊎ (a.use_rope ≡ true))
