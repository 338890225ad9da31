-- ===== src/Vllm/Shapes/Kept.antt =====
-- vllm_port/smollm3.py: when the attention and the MLP give back the shape of their input.
use native.Mathlib.Nat.{div-add-mod, mod-lt}
use ai_infrastructure_platfo.Prelude.{
  ℕ, zero, suc, ◌+◌, ◌*◌, ◌/◌, ◌%◌, ◌≡◌, ◌≢◌, ◌≤◌, ◌<◌, ◌↔◌, refl, ap, ◌∙◌, true, false, none, some,
  arith, ◌==◌, ==_iff, Bool-cases, inl, inr,
}
use ai_infrastructure_platfo.Vllm.Shapes.{
  linear, chunk, mlp_shape, view_heads, common, matmul, merge_heads, repeat_of, attend,
  attention_shape, ◌>>=◌,
}

common-same : (a : ℕ) → common a a ≡ some a
unfolding common
common-same a = ground arith

common-apart : (a b : ℕ) → a ≢ b → 2 ≤ a → 2 ≤ b → common a b ≡ none
unfolding common
common-apart a b d h k = ground arith

pub linear-same :
    (n out : ℕ) (b s : ℕ)
    → linear n out (record { batch = b; seq = s; width = n })
      ≡ some (record { batch = b; seq = s; width = out })
unfolding linear
linear-same n out b s = ground arith

pub view_heads-same :
    (h d b s : ℕ)
    → view_heads h d (record { batch = b; seq = s; width = h * d })
      ≡ some (record { batch = b; heads = h; rows = s; cols = d })
unfolding view_heads
view_heads-same h d b s = rw ((==_iff (h * d) (h * d)).1 refl) refl

matmul-same :
    (b h r c e : ℕ)
    → matmul
        (record { batch = b; heads = h; rows = r; cols = c })
        (record { batch = b; heads = h; rows = c; cols = e })
      ≡ some (record { batch = b; heads = h; rows = r; cols = e })
unfolding matmul
matmul-same b h r c e = rw (common-same b, common-same h, (==_iff c c).1 refl, matmul) refl

matmul-apart :
    (b h k r c e : ℕ)
    → h ≢ k
    → 2 ≤ h
    → 2 ≤ k
    → matmul
        (record { batch = b; heads = h; rows = r; cols = c })
        (record { batch = b; heads = k; rows = c; cols = e })
      ≡ none
unfolding matmul
matmul-apart b h k r c e d p q = rw (common-same b, common-apart h k d p q, matmul) refl

-- The queries of `h` heads with keys and values of `k` heads that are repeated `r` times.
pub attend-same :
    (b s d h k r : ℕ)
    → k * r ≡ h
    → 0 < b
    → 0 < s
    → attend r
        (record { batch = b; heads = h; rows = s; cols = d })
        (record { batch = b; heads = k; rows = s; cols = d })
      ≡ some (record { batch = b; seq = s; width = h * d })
unfolding attend merge_heads
attend-same b s d h k r e p q =
    rw (e, matmul-same b h s d s, matmul-same b h s s d, attend) (ground arith)

attend-apart :
    (b s d h k r : ℕ)
    → h ≢ k * r
    → 2 ≤ h
    → 2 ≤ k * r
    → attend r
        (record { batch = b; heads = h; rows = s; cols = d })
        (record { batch = b; heads = k; rows = s; cols = d })
      ≡ none
unfolding attend
attend-apart b s d h k r e p q = rw (matmul-apart b h (k * r) s d s e p q, attend) refl

-- The attention is its product of queries and keys, between two linear maps.
attention_shape-attend :
    (n h k d b s : ℕ)
    → 0 < k
    → attention_shape n h k d (record { batch = b; seq = s; width = n }) ≡ (
        attend
          (h / k)
          (record { batch = b; heads = h; rows = s; cols = d })
          (record { batch = b; heads = k; rows = s; cols = d })
        >>= λ out. linear (h * d) n out)
unfolding attention_shape repeat_of
attention_shape-attend n h k d b s p =
    let whole : (k == 0) ≡ false = ground arith in
    rw
      (
        linear-same n (h * d) b s,
        linear-same n (k * d) b s,
        view_heads-same h d b s,
        view_heads-same k d b s,
        whole,
        attention_shape,
      )
      refl

repeated_two : (h k : ℕ) → 2 ≤ k → k ≤ h → 2 ≤ k * (h / k)
repeated_two h k p q =
    let whole = div-add-mod h k in
    let small = mod-lt h {m = k} (omega arith) in go (h / k) (omega arith)
  where
    go : (t : ℕ) → k ≤ k * t + h % k → 2 ≤ k * t
    go zero e = let small = mod-lt h {m = k} (omega arith) in absurd (omega arith)
    go (suc t) e = omega arith

attention_shape-some :
    (n h k d b s : ℕ)
    → 0 < b
    → 0 < s
    → 0 < k
    → h % k ≡ 0
    → attention_shape n h k d (record { batch = b; seq = s; width = n })
      ≡ some (record { batch = b; seq = s; width = n })
attention_shape-some n h k d b s p q pos e =
    let whole = div-add-mod h k in
    let same : k * (h / k) ≡ h = omega arith in
    attention_shape-attend n h k d b s pos
    ∙ ap (λ o. o >>= λ out. linear (h * d) n out) (attend-same b s d h k (h / k) same p q)
    ∙ linear-same (h * d) n b s

attention_shape-none :
    (n h k d b s : ℕ)
    → 2 ≤ k
    → k ≤ h
    → h % k ≢ 0
    → attention_shape n h k d (record { batch = b; seq = s; width = n }) ≡ none
attention_shape-none n h k d b s two fits e =
    let whole = div-add-mod h k in
    let apart : h ≢ k * (h / k) = λ same. e (omega arith) in
    attention_shape-attend n h k d b s (omega arith)
    ∙ ap (λ o. o >>= λ out. linear (h * d) n out)
        (attend-apart b s d h k (h / k) apart (omega arith) (repeated_two h k two fits))

pub double-mod : (m : ℕ) → ((m * 2 % 2 == 0) ≡ true) × (m * 2 / 2 ≡ m)
double-mod m = (ground arith, omega arith)

mlp_shape-same :
    (n m b s : ℕ)
    → mlp_shape n m (record { batch = b; seq = s; width = n })
      ≡ some (record { batch = b; seq = s; width = n })
unfolding mlp_shape chunk
mlp_shape-same n m b s =
    let (even, half) = double-mod m in
    rw (linear-same n (m * 2) b s, even, half, linear-same m n b s, mlp_shape) refl

attention_shape-divides :
    (n h k d b s : ℕ)
    → 2 ≤ k
    → k ≤ h
    → attention_shape n h k d (record { batch = b; seq = s; width = n })
      ≡ some (record { batch = b; seq = s; width = n })
    → h % k ≡ 0
attention_shape-divides n h k d b s two fits e = elim (Bool-cases (h % k == 0)) [
  | inl f ↦ (==_iff (h % k) 0).0 f
  | inr f ↦
      let no : h % k ≢ 0 = λ zero_mod. ground arith in
      cc (attention_shape-none n h k d b s two fits no, e)
]

-- On an input of the hidden size that is not empty, the MLP gives back the input's shape; the
-- attention with two or more key heads, and not fewer query heads, does so exactly if the number of
-- key heads divides that of the query heads.
pub mlp_shape-attention_shape :
    (hidden_size intermediate_size num_heads num_kv_heads head_dim b s : ℕ)
    → 0 < b
    → 0 < s
    → 2 ≤ num_kv_heads
    → num_kv_heads ≤ num_heads
    → (mlp_shape hidden_size intermediate_size (record { batch = b; seq = s; width = hidden_size })
        ≡ some (record { batch = b; seq = s; width = hidden_size }))
      × ((attention_shape hidden_size num_heads num_kv_heads head_dim
              (record { batch = b; seq = s; width = hidden_size })
            ≡ some (record { batch = b; seq = s; width = hidden_size }))
          ↔ (num_heads % num_kv_heads ≡ 0))
mlp_shape-attention_shape n m h k d b s p q two fits = (
  mlp_shape-same n m b s,
  (
    attention_shape-divides n h k d b s two fits,
    λ e. attention_shape-some n h k d b s p q (omega arith) e,
  ),
)
