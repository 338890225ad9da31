-- ===== src/Vllm/Shapes.antt =====
-- vllm_port/smollm3.py: the shapes of the tensors in `SmolLM3MLP` and `SmolLM3Attention`, on the path
-- without vLLM. A shape that PyTorch refuses is `none`.
pub mod Kept
use ai_infrastructure_platfo.Prelude.{
  ℕ, zero, suc, ◌*◌, ◌/◌, ◌%◌, Bool, true, false, ◌&&◌, ◌||◌, Option, none, some, ◌==◌, max,
  if◌then◌else◌,
}

infixl 10 ◌>>=◌
abbrev pub ◌>>=◌ {ℓ κ} : {A : Type ℓ} {B : Type κ} → Option A → (A → Option B) → Option B
none >>= f = none
some a >>= f = f a

-- A tensor of three dimensions, and one of four.
pub record Shape : Type 0 where
  pub batch : ℕ
  pub seq : ℕ
  pub width : ℕ

pub record HeadShape : Type 0 where
  pub batch : ℕ
  pub heads : ℕ
  pub rows : ℕ
  pub cols : ℕ

-- `nn.Linear(size, out, bias=False)`
unfoldable pub linear : ℕ → ℕ → Shape → Option Shape
linear size out x = if x.width == size then some (record x { width = out }) else none

-- `x.chunk(2, dim=-1)`: each half, where the width is even.
unfoldable pub chunk : Shape → Option Shape
chunk x = if x.width % 2 == 0 then some (record x { width = x.width / 2 }) else none

-- `SmolLM3MLP.forward`
unfoldable pub mlp_shape : ℕ → ℕ → Shape → Option Shape
unfolding linear chunk
mlp_shape hidden_size intermediate_size x = do
  gate_up ← linear hidden_size (intermediate_size * 2) x
  half ← chunk gate_up
  linear intermediate_size hidden_size half

-- `x.view(b, s, heads, head_dim).transpose(1, 2)`
unfoldable pub view_heads : ℕ → ℕ → Shape → Option HeadShape
view_heads heads head_dim x =
    if x.width == heads * head_dim
    then some (record { batch = x.batch; heads = heads; rows = x.seq; cols = head_dim })
    else none

-- `x.repeat_interleave(repeat, dim=1)` and `x.transpose(-2, -1)`
abbrev repeat_interleave : ℕ → HeadShape → HeadShape
repeat_interleave repeat x = record x { heads = x.heads * repeat }

abbrev transposed : HeadShape → HeadShape
transposed x = record x { rows = x.cols; cols = x.rows }

-- A dimension of both factors of a product: one size, or the other where one is 1.
unfoldable pub common : ℕ → ℕ → Option ℕ
common a b = if a == b then some a else if b == 1 then some a else if a == 1 then some b else none

-- `x @ y`
unfoldable pub matmul : HeadShape → HeadShape → Option HeadShape
unfolding common
matmul x y = do
  batch ← common x.batch y.batch
  heads ← common x.heads y.heads
  if x.cols == y.rows
      then some (record { batch = batch; heads = heads; rows = x.rows; cols = y.cols })
      else none

-- `x.transpose(1, 2).reshape(b, s, -1)`, which cannot tell the last size without elements.
unfoldable pub merge_heads : HeadShape → Option Shape
merge_heads x =
    if x.batch == 0 || x.rows == 0
    then none
    else some (record { batch = x.batch; seq = x.rows; width = x.heads * x.cols })

-- `self.num_heads // self.num_kv_heads`: `none` is the `ZeroDivisionError`.
unfoldable pub repeat_of : ℕ → ℕ → Option ℕ
repeat_of num_heads num_kv_heads =
    if num_kv_heads == 0 then none else some (num_heads / num_kv_heads)

-- `SmolLM3Attention.forward` on queries, keys and values.
unfoldable pub attend : ℕ → HeadShape → HeadShape → Option Shape
unfolding matmul merge_heads
attend repeat q k = do
  scores ← matmul q (transposed (repeat_interleave repeat k))
  out ← matmul scores (repeat_interleave repeat k)
  merge_heads out

-- `SmolLM3Attention.forward`
unfoldable pub attention_shape : ℕ → ℕ → ℕ → ℕ → Shape → Option Shape
unfolding linear view_heads repeat_of attend
attention_shape hidden_size num_heads num_kv_heads head_dim x = do
  q ← linear hidden_size (num_heads * head_dim) x
  k ← linear hidden_size (num_kv_heads * head_dim) x
  q_heads ← view_heads num_heads head_dim q
  k_heads ← view_heads num_kv_heads head_dim k
  repeat ← repeat_of num_heads num_kv_heads
  out ← attend repeat q_heads k_heads
  linear (num_heads * head_dim) hidden_size out
