-- ===== src/Vllm/Rope.antt =====
-- vllm_port/smollm3.py: the choice of RoPE or NoPE, and the head counts, of `SmolLM3Attention`.
use native.Mathlib.Nat.{
  div-add-mod, mod-lt, mod-eq_of_lt, div-eq_of_lt, mul-add-div, mul-add-mod_self_left,
  mul-mod_right, div-eq_of_eq-mul_right,
}
use native.Mathlib.Decide.{dec_lt}
use ai_infrastructure_platfo.Prelude.{
  ◌⊎◌, inl, inr, ℕ, zero, suc, ◌+◌, ◌*◌, ◌/◌, ◌%◌, ◌<◌, ◌≡◌, ◌↔◌, Bool, false, not, ◌||◌, ap, ◌∙◌,
  Option, none, some, arith, ◌==◌, if◌then◌else◌, max,
}

-- `(layer_idx % nope_interval) != (nope_interval - 1)`; the interval 0 raises.
unfoldable pub use_rope : ℕ → ℕ → Option Bool
use_rope layer_idx zero = none
use_rope layer_idx (suc n) = some (not (layer_idx % suc n == n))

-- The counts of heads that the layer has, all in all and on its share of `tp_size` devices.
pub record Heads : Type 0 where
  pub total_num_heads : ℕ
  pub total_num_kv_heads : ℕ
  pub num_heads : ℕ
  pub num_kv_heads : ℕ
  pub head_dim : ℕ

-- `none` is the `ZeroDivisionError`.
unfoldable pub heads : ℕ → ℕ → ℕ → Option ℕ → ℕ → Option Heads
heads hidden_size num_heads num_kv_heads head_dim tp_size =
    if tp_size == 0 || num_heads == 0
    then none
    else some (record {
      total_num_heads = num_heads;
      total_num_kv_heads = num_kv_heads;
      num_heads = num_heads / tp_size;
      num_kv_heads = max 1 (num_kv_heads / tp_size);
      head_dim = elim head_dim [ some d ↦ d | none ↦ hidden_size / num_heads ];
    })

-- The sizes into which the merged projection is split for q, k and v.
unfoldable qkv_split : Heads → ℕ × ℕ × ℕ
qkv_split h = (h.num_heads * h.head_dim, h.num_kv_heads * h.head_dim, h.num_kv_heads * h.head_dim)

-- How many of the first `layers` layers go without RoPE.
unfoldable pub nope_layers : ℕ → ℕ → ℕ
unfolding use_rope
nope_layers interval zero = 0
nope_layers interval (suc i) = elim (use_rope i interval) [
  | some false ↦ suc (nope_layers interval i)
  | _ ↦ nope_layers interval i
]

-- One more is divided by n + 1 as is said here.
div_step :
    (i n : ℕ)
    → ((i % suc n ≡ n) × ((i + 1) / suc n ≡ i / suc n + 1) × ((i + 1) % suc n ≡ 0))
      ⊎ ((i % suc n < n) × ((i + 1) / suc n ≡ i / suc n) × ((i + 1) % suc n ≡ i % suc n + 1))
div_step i n =
    let q = i / suc n in
    let r = i % suc n in
    let whole = div-add-mod i (suc n) in
    let small = mod-lt i {m = suc n} (omega arith) in
    let m_pos : 0 < suc n = omega arith in
    elim (dec_lt r n) [
      | yes h ↦
          let e : i + 1 ≡ suc n * q + (r + 1) = omega arith in
          let fits : r + 1 < suc n = omega arith in
          inr (
            h,
            rw e (mul-add-div m_pos q (r + 1) ∙ ap (λ t. q + t) (div-eq_of_lt fits) ∙ omega arith),
            rw e (mul-add-mod_self_left (suc n) q (r + 1) ∙ mod-eq_of_lt fits),
          )
      | no h ↦
          let last : r ≡ n = omega arith in
          let e : i + 1 ≡ suc n * (q + 1) = omega arith in
          inl (last, div-eq_of_eq-mul_right m_pos e, rw e (mul-mod_right (suc n) (q + 1)))
    ]

-- A layer goes without RoPE exactly if its number, counted from one, is a multiple of the interval.
use_rope_multiple :
    (layer_idx interval : ℕ)
    → 0 < interval
    → (use_rope layer_idx interval ≡ some false) ↔ ((layer_idx + 1) % interval ≡ 0)
unfolding use_rope
use_rope_multiple layer_idx zero h = absurd (omega arith)
use_rope_multiple layer_idx (suc n) h =
    (λ e. ground (arith, div_step layer_idx n), λ e. ground (arith, div_step layer_idx n))

nope_layers-div :
    (interval layers : ℕ) → 0 < interval → nope_layers interval layers ≡ layers / interval
unfolding nope_layers use_rope
nope_layers-div zero layers h = absurd (omega arith)
nope_layers-div (suc n) zero h = omega arith
nope_layers-div (suc n) (suc i) h = ground (arith, div_step i n, nope_layers-div (suc n) i)

-- With an interval that is not zero, a layer goes without RoPE exactly if its number, counted from
-- one, is a multiple of the interval, and of the first layers as many do as the interval goes into
-- their number.
pub nope_layers-use_rope :
    (interval layers : ℕ)
    → 0 < interval
    → ((i : ℕ) → (use_rope i interval ≡ some false) ↔ ((i + 1) % interval ≡ 0))
      × (nope_layers interval layers ≡ layers / interval)
nope_layers-use_rope interval layers h =
    (λ i. use_rope_multiple i interval h, nope_layers-div interval layers h)
