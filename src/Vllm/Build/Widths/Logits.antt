-- ===== src/Vllm/Build/Widths/Logits.antt =====
-- vllm_port/smollm3.py: from token ids to logits, without vLLM.
use mathlib.Core.Path.{subst}
use mathlib.Core.Option.{some-injective}
use ai_infrastructure_platfo.Prelude.{
  ℕ, zero, suc, ◌+◌, ◌*◌, ◌/◌, ◌%◌, ◌<◌, ◌≡◌, refl, Bool, false, Option, none, some, List, [], ◌∷◌,
  ◌++◌, arith, ◌==◌, ◌||◌,
}
use native.Mathlib.Nat.{div-add-mod}
use ai_infrastructure_platfo.Prelude.Counts.{All}
use ai_infrastructure_platfo.Codes.{Name, codes, str}
use ai_infrastructure_platfo.Floats.{Floats}
use ai_infrastructure_platfo.Vllm.Shapes.{Shape, chunk, repeat_of, ◌>>=◌}
use ai_infrastructure_platfo.Vllm.Shapes.Kept.{
  linear-same, view_heads-same, attend-same, double-mod,
}
use ai_infrastructure_platfo.Vllm.Rope.{use_rope}
use ai_infrastructure_platfo.Vllm.Build.Inversion.{
  causal_lm_init-eq-some, >>=-eq-some, cons-eq-some, guarded-eq-some,
}
use ai_infrastructure_platfo.Vllm.Build.{
  mlp_init, norm_init, attention_standalone, attention_init, layer_init, layers_init, model_of,
  causal_lm_of, causal_lm_init,
}
use ai_infrastructure_platfo.Vllm.Modules.{
  Config, cfg, standalone, Attention, DecoderLayer, Model, CausalLm,
}
use ai_infrastructure_platfo.Vllm.Build.Widths.{
  project, sum_shape, norm_shape, mlp_forward, attention_forward, layer_forward, layers_forward,
  model_forward, logits_shape,
}

-- Of a batch of `b` texts of `s` tokens.
module _ (b s : ℕ) where
  abbrev wide : ℕ → Shape
  wide n = record { batch = b; seq = s; width = n }

  sum_shape-same : (n : ℕ) → sum_shape (wide n) (wide n) ≡ some (wide n)
  unfolding sum_shape
  sum_shape-same n = ground arith

  norm_shape-same :
      {F : Type 0} (n : ℕ) (eps : F)
      → norm_shape (norm_init standalone n eps) (wide n) ≡ some (wide n)
  unfolding norm_shape norm_init
  norm_shape-same n eps = ground arith

  mlp_forward-same :
      (n m : ℕ) (prefix : Name)
      → mlp_forward (mlp_init standalone n m prefix) (wide n) ≡ some (wide n)
  unfolding mlp_forward mlp_init project chunk
  mlp_forward-same n m prefix =
      let (even, half) = double-mod m in
      rw (linear-same n (m * 2) b s, even, half, linear-same m n b s, mlp_forward) refl

  module _ (some_texts : 0 < b) (some_tokens : 0 < s) {F : Type 0} ⦃fl : Floats F⦄
      (power : ℕ → F) where
    abbrev Keeps : ℕ → Attention F → Type 0
    Keeps n a = attention_forward a a.modules (wide n) ≡ some (wide n)

    attention_standalone-Keeps :
        (n h k d : ℕ) (rope : Bool)
        → 0 < k
        → h % k ≡ 0
        → Keeps n (attention_standalone power n h k d rope)
    unfolding attention_forward attention_standalone project repeat_of
    attention_standalone-Keeps n h k d rope pos divides =
        let whole : (k == 0) ≡ false = ground arith in
        let same : k * (h / k) ≡ h = let e = div-add-mod h k in omega arith in
        rw
          (
            linear-same n (h * d) b s,
            linear-same n (k * d) b s,
            view_heads-same h d b s,
            view_heads-same k d b s,
            whole,
            attend-same b s d h k (h / k) same some_texts some_tokens,
            attention_forward,
          )
          (linear-same (h * d) n b s)

    module _ (config : Config F) where
      abbrev pub hidden : ℕ
      hidden = cfg config.hidden_size 2048

      abbrev pub heads_of : ℕ
      heads_of = cfg config.num_attention_heads 32

      abbrev pub kv_heads_of : ℕ
      kv_heads_of = cfg config.num_key_value_heads 8

      module _ (pos : 0 < kv_heads_of) (divides : heads_of % kv_heads_of ≡ 0) where
        attention_init-Keeps :
            (i : ℕ) (prefix : Name) (a : Attention F)
            → attention_init power standalone config i prefix ≡ some a
            → Keeps hidden a
        unfolding attention_init
        attention_init-Keeps i prefix a e =
            let d = cfg config.head_dim (hidden / heads_of) in
            let (rope, r, k) =
              guarded-eq-some (use_rope i (cfg config.nope_layer_interval 2))
                (λ rope. heads_of == 0 || d == 0)
                (attention_standalone power hidden heads_of kv_heads_of d) e in
            subst (Keeps hidden) k
              (attention_standalone-Keeps hidden heads_of kv_heads_of d rope pos divides)

        abbrev LayerKeeps : DecoderLayer F → Type 0
        LayerKeeps l =
            (layer_forward l (wide hidden) none ≡ some (wide hidden, wide hidden))
            × (layer_forward l (wide hidden) (some (wide hidden)) ≡ some (wide hidden, wide hidden))

        layer_init-LayerKeeps :
            (i : ℕ) (prefix : Name) (l : DecoderLayer F)
            → layer_init power standalone config i prefix ≡ some l
            → LayerKeeps l
        unfolding layer_init layer_forward
        layer_init-LayerKeeps i prefix l e =
            let (a, r, k) = >>=-eq-some _ _ e in
            let eps : F = cfg config.rms_norm_eps (fl.lit 1 5) in
            let size : ℕ = cfg config.intermediate_size 8192 in
            let keeps = attention_init-Keeps i (prefix ++ codes ".self_attn") a r in
            let sums = sum_shape-same hidden in
            let norms = norm_shape-same hidden eps in
            let mlps = mlp_forward-same hidden size (prefix ++ codes ".mlp") in
            subst LayerKeeps (some-injective _ _ k) (
              rw (norms, keeps, sums, norms, mlps, layer_forward) refl,
              rw (sums, norms, keeps, sums, norms, mlps, layer_forward) refl,
            )

        layers_init-LayerKeeps :
            (prefix : Name) (i n : ℕ) (ls : List (DecoderLayer F))
            → layers_init power standalone config prefix i n ≡ some ls
            → All LayerKeeps ls
        unfolding layers_init
        layers_init-LayerKeeps prefix i zero ls e = subst (All LayerKeeps) (some-injective _ _ e) tt
        layers_init-LayerKeeps prefix i (suc n) ls e =
            let (l, rest, r, q, m) =
              cons-eq-some
                (layer_init power standalone config i (prefix ++ codes ".layers." ++ str i))
                (layers_init power standalone config prefix (i + 1) n) e in
            subst (All LayerKeeps) {x = l ∷ rest} m
              (layer_init-LayerKeeps i _ l r, layers_init-LayerKeeps prefix (i + 1) n rest q)

        -- The layers carry the shape on; after the first there is a residual of the same shape.
        abbrev residual_of : List (DecoderLayer F) → Option Shape → Option Shape
        residual_of [] r = r
        residual_of (l ∷ ls) r = some (wide hidden)

        layers_forward-later :
            (ls : List (DecoderLayer F))
            → All LayerKeeps ls
            → layers_forward ls (wide hidden) (some (wide hidden))
              ≡ some (wide hidden, some (wide hidden))
        unfolding layers_forward
        layers_forward-later [] k = refl
        layers_forward-later (l ∷ ls) k = rw (k.0.1, layers_forward) (layers_forward-later ls k.1)

        layers_forward-first :
            (ls : List (DecoderLayer F))
            → All LayerKeeps ls
            → layers_forward ls (wide hidden) none ≡ some (wide hidden, residual_of ls none)
        unfolding layers_forward
        layers_forward-first [] k = refl
        layers_forward-first (l ∷ ls) k = rw (k.0.0, layers_forward) (layers_forward-later ls k.1)

        model_forward-same :
            (m : Model F) (eps : F)
            → All LayerKeeps m.layers
            → m.embed_tokens.cols ≡ hidden
            → m.norm ≡ norm_init standalone hidden eps
            → model_forward m b s ≡ some (wide hidden)
        unfolding model_forward
        model_forward-same m eps k c n =
            rw (c, n, layers_forward-first m.layers k, model_forward) (ending m.layers)
          where
            ending :
                (ls : List (DecoderLayer F))
                → ((elim (residual_of ls none) [
                  | none ↦ some (wide hidden)
                  | some r ↦ sum_shape (wide hidden) r
                ])
                    >>= norm_shape (norm_init standalone hidden eps))
                  ≡ some (wide hidden)
            ending [] = norm_shape-same hidden eps
            ending (l ∷ ls) = rw (sum_shape-same hidden) (norm_shape-same hidden eps)

        -- A model built without vLLM, with key heads whose number divides that of the query heads,
        -- carries every batch of token ids that is not empty through its layers and its head to logits
        -- over the vocabulary, whatever else the configuration says.
        pub logits_shape-causal_lm_init :
            (prefix : Name) (lm : CausalLm F)
            → causal_lm_init power standalone config prefix ≡ some lm
            → logits_shape lm b s ≡ some (wide (cfg config.vocab_size 49152))
        unfolding causal_lm_of model_of logits_shape
        logits_shape-causal_lm_init prefix lm e =
            let (ls, q, m) = causal_lm_init-eq-some power standalone config prefix lm e in
            let inner = prefix ++ codes ".model" in
            let keeps = layers_init-LayerKeeps inner 0 (cfg config.num_hidden_layers 32) ls q in
            let same =
              model_forward-same (model_of power standalone config inner ls)
                (cfg config.rms_norm_eps (fl.lit 1 5)) keeps refl refl in
            subst
              (λ (c : CausalLm F). logits_shape c b s ≡ some (wide (cfg config.vocab_size 49152))) m
              (rw (same, logits_shape) (linear-same hidden (cfg config.vocab_size 49152) b s))
