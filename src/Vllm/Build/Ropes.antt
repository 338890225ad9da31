-- ===== src/Vllm/Build/Ropes.antt =====
-- vllm_port/smollm3.py: the layers of a built model that have a rotary embedding.
use ai_infrastructure_platfo.Prelude.{
  ℕ, zero, suc, ◌+◌, ◌/◌, ◌%◌, ◌<◌, ◌≡◌, ◌↔◌, refl, sym, ap, ◌∙◌, Bool, true, false, none, some,
  List, [], ◌∷◌, ◌++◌, arith, get_elem?, length, ◌==◌, ◌||◌, if◌then◌else◌,
}
use mathlib.Core.Option.{some-injective}
use mathlib.Core.Path.{subst}
use native.Mathlib.Nat.{div-eq_of_lt}
use ai_infrastructure_platfo.Codes.{Name, codes, str}
use ai_infrastructure_platfo.Floats.{Floats}
use ai_infrastructure_platfo.Vllm.Rope.{Heads, use_rope, nope_layers, nope_layers-use_rope}
use ai_infrastructure_platfo.Vllm.Build.Inversion.{
  causal_lm_init-eq-some, >>=-eq-some, cons-eq-some, guarded-eq-some, attention_init-eq-some,
}
use ai_infrastructure_platfo.Vllm.Build.{
  attention_vllm, attention_standalone, attention_init, layer_init, layers_init, model_of,
  causal_lm_of, causal_lm_init,
}
use ai_infrastructure_platfo.Vllm.Modules.{
  Config, cfg, Platform, standalone, vllm, Attention, AttentionModules, merged, separate,
  DecoderLayer, CausalLm,
}

nope_layers-step :
    (interval i : ℕ) (b : Bool)
    → use_rope i interval ≡ some b
    → nope_layers interval (i + 1) ≡ nope_layers interval i + (if b then 0 else 1)
unfolding nope_layers
nope_layers-step interval i true h =
    ap (nope_layers interval) {x = i + 1} {y = suc i} (omega arith)
    ∙ rw (h, nope_layers) (omega arith)
nope_layers-step interval i false h =
    ap (nope_layers interval) {x = i + 1} {y = suc i} (omega arith)
    ∙ rw (h, nope_layers) (omega arith)

module _ {F : Type 0} where
  abbrev rotary_in : AttentionModules F → Bool
  rotary_in (merged qkv_proj o_proj none attn) = false
  rotary_in (merged qkv_proj o_proj (some rotary_emb) attn) = true
  rotary_in (separate q_proj k_proj v_proj o_proj) = false

  -- With vLLM a layer has a rotary embedding exactly if it uses RoPE; without vLLM none has.
  abbrev pub Rotates : Platform → Attention F → Type 0
  Rotates standalone a = rotary_in a.modules ≡ false
  Rotates (vllm tp_size) a = rotary_in a.modules ≡ a.use_rope

  abbrev pub without_rope : List (DecoderLayer F) → ℕ
  without_rope [] = 0
  without_rope (l ∷ ls) = (if l.self_attn.use_rope then 0 else 1) + without_rope ls

module _ {F : Type 0} ⦃fl : Floats F⦄ (power : ℕ → F) where
  abbrev pub interval_of : Config F → ℕ
  interval_of config = cfg config.nope_layer_interval 2

  abbrev pub RopeIs : Platform → Config F → ℕ → Attention F → Type 0
  RopeIs platform config i a =
      (use_rope i (interval_of config) ≡ some a.use_rope) × Rotates platform a

  attention_vllm-Rotates :
      (tp_size : ℕ) (config : Config F) (n : ℕ) (prefix : Name) (rope : Bool) (h : Heads)
      → Rotates (vllm tp_size) (attention_vllm power config n prefix rope h)
  unfolding attention_vllm
  attention_vllm-Rotates tp_size config n prefix true h = refl
  attention_vllm-Rotates tp_size config n prefix false h = refl

  pub attention_init-RopeIs :
      (platform : Platform) (config : Config F) (i : ℕ) (prefix : Name) (a : Attention F)
      → attention_init power platform config i prefix ≡ some a
      → RopeIs platform config i a
  unfolding attention_init
  attention_init-RopeIs standalone config i prefix a e =
      let hidden = cfg config.hidden_size 2048 in
      let h = cfg config.num_attention_heads 32 in
      let (rope, r, k) =
        guarded-eq-some (use_rope i (interval_of config))
          (λ rope. h == 0 || cfg config.head_dim (hidden / h) == 0)
          (attention_standalone power hidden h (cfg config.num_key_value_heads 8)
            (cfg config.head_dim (hidden / h)))
          e in
      subst (RopeIs standalone config i) k (unfold attention_standalone in (r, refl))
  attention_init-RopeIs (vllm tp_size) config i prefix a e =
      let (rope, h, r, l) = attention_init-eq-some power tp_size config i prefix a e in
      subst (RopeIs (vllm tp_size) config i) l (
        unfold attention_vllm in
        (r, attention_vllm-Rotates tp_size config (cfg config.hidden_size 2048) prefix rope h))

  layer_init-RopeIs :
      (platform : Platform) (config : Config F) (i : ℕ) (prefix : Name) (l : DecoderLayer F)
      → layer_init power platform config i prefix ≡ some l
      → RopeIs platform config i l.self_attn
  unfolding layer_init
  layer_init-RopeIs platform config i prefix l e =
      let (a, r, k) = >>=-eq-some _ _ e in
      subst (λ (d : DecoderLayer F). RopeIs platform config i d.self_attn) (some-injective _ _ k)
        (attention_init-RopeIs platform config i _ a r)

  -- The layers of a model from the layer `i` on.
  abbrev LayersFrom : Platform → Config F → ℕ → List (DecoderLayer F) → Type 0
  LayersFrom platform config i [] = Unit
  LayersFrom platform config i (l ∷ ls) =
      RopeIs platform config i l.self_attn × LayersFrom platform config (i + 1) ls

  layers_init-LayersFrom :
      (platform : Platform) (config : Config F) (prefix : Name) (i n : ℕ)
      (ls : List (DecoderLayer F))
      → layers_init power platform config prefix i n ≡ some ls
      → LayersFrom platform config i ls × (length ls ≡ n)
  unfolding layers_init
  layers_init-LayersFrom platform config prefix i zero ls e =
      subst (λ ls. LayersFrom platform config i ls × (length ls ≡ 0)) (some-injective _ _ e)
        (tt, refl)
  layers_init-LayersFrom platform config prefix i (suc n) ls e =
      let (l, rest, r, q, m) =
        cons-eq-some (layer_init power platform config i (prefix ++ codes ".layers." ++ str i))
          (layers_init power platform config prefix (i + 1) n) e in
      let (later, size) = layers_init-LayersFrom platform config prefix (i + 1) n rest q in
      subst (λ ls. LayersFrom platform config i ls × (length ls ≡ suc n)) {x = l ∷ rest} m
        ((layer_init-RopeIs platform config i _ l r, later), ap suc size)

  -- Every layer of a list from the layer `i` on is the layer of its number.
  LayersFrom-get_elem? :
      (platform : Platform) (config : Config F) (i j : ℕ) (ls : List (DecoderLayer F))
      (l : DecoderLayer F)
      → LayersFrom platform config i ls
      → get_elem? ls j ≡ some l
      → RopeIs platform config (j + i) l.self_attn
  LayersFrom-get_elem? platform config i j [] l f e = cc
  LayersFrom-get_elem? platform config i zero (m ∷ ls) l f e =
      subst (λ (d : DecoderLayer F). RopeIs platform config (0 + i) d.self_attn)
        (some-injective _ _ e)
        (subst (λ (k : ℕ). RopeIs platform config k m.self_attn) {x = i} (omega arith) f.0)
  LayersFrom-get_elem? platform config i (suc j) (m ∷ ls) l f e =
      subst (λ (k : ℕ). RopeIs platform config k l.self_attn) {x = j + (i + 1)} (omega arith)
        (LayersFrom-get_elem? platform config (i + 1) j ls l f.1 e)

  without_rope-nope_layers :
      (platform : Platform) (config : Config F) (i : ℕ) (ls : List (DecoderLayer F))
      → LayersFrom platform config i ls
      → nope_layers (interval_of config) i + without_rope ls
        ≡ nope_layers (interval_of config) (length ls + i)
  without_rope-nope_layers platform config i [] f =
      omega (arith, ap (nope_layers (interval_of config)) {x = 0 + i} {y = i} (omega arith))
  without_rope-nope_layers platform config i (l ∷ ls) f = omega (
    arith,
    nope_layers-step (interval_of config) i l.self_attn.use_rope f.0.0,
    without_rope-nope_layers platform config (i + 1) ls f.1,
    ap (nope_layers (interval_of config)) {x = length ls + (i + 1)} {y = length (l ∷ ls) + i}
        (omega arith),
  )

  model_layers :
      (platform : Platform) (config : Config F) (prefix : Name) (lm : CausalLm F)
      → causal_lm_init power platform config prefix ≡ some lm
      → LayersFrom platform config 0 lm.model.layers
        × (length lm.model.layers ≡ cfg config.num_hidden_layers 32)
  unfolding causal_lm_of model_of
  model_layers platform config prefix lm e =
      let (ls, q, m) = causal_lm_init-eq-some power platform config prefix lm e in
      subst
        (λ (c : CausalLm F).
          LayersFrom platform config 0 c.model.layers
          × (length c.model.layers ≡ cfg config.num_hidden_layers 32))
        m
        (layers_init-LayersFrom platform config (prefix ++ codes ".model") 0
          (cfg config.num_hidden_layers 32) ls q)

  use_rope-multiple :
      (interval i : ℕ) (b : Bool)
      → 0 < interval
      → use_rope (i + 0) interval ≡ some b
      → (b ≡ false) ↔ ((i + 1) % interval ≡ 0)
  use_rope-multiple interval i b pos e =
      let at : use_rope i interval ≡ some b =
        ap (λ (k : ℕ). use_rope k interval) {x = i} {y = i + 0} (omega arith) ∙ e in
      let (layer, _) = nope_layers-use_rope interval 0 pos in
      let h = layer i in (λ f. h.0 (at ∙ ap some f), λ f. some-injective _ _ (sym at ∙ h.1 f))

  -- A model that was built has the layers that its configuration asks for. With an interval that is
  -- not zero, a layer goes without RoPE exactly if its number, counted from one, is a multiple of the
  -- interval, and as many do as the interval goes into the number of layers. With vLLM the layers
  -- that use RoPE have a rotary embedding and no others do, and without vLLM none has.
  pub causal_lm_init-without_rope :
      (platform : Platform) (config : Config F) (prefix : Name) (lm : CausalLm F)
      → causal_lm_init power platform config prefix ≡ some lm
      → 0 < interval_of config
      → (length lm.model.layers ≡ cfg config.num_hidden_layers 32)
        × ((i : ℕ) (l : DecoderLayer F)
            → get_elem? lm.model.layers i ≡ some l
            → ((l.self_attn.use_rope ≡ false) ↔ ((i + 1) % interval_of config ≡ 0))
              × Rotates platform l.self_attn)
        × (without_rope lm.model.layers ≡ cfg config.num_hidden_layers 32 / interval_of config)
  causal_lm_init-without_rope platform config prefix lm e pos =
      let (layers, size) = model_layers platform config prefix lm e in
      let count = without_rope-nope_layers platform config 0 lm.model.layers layers in
      let (_, none_at_first) = nope_layers-use_rope (interval_of config) 0 pos in
      let (_, all_layers) =
        nope_layers-use_rope (interval_of config) (cfg config.num_hidden_layers 32) pos in
      let zero_of : 0 / interval_of config ≡ 0 = div-eq_of_lt pos in
      (
        size,
        λ i l f.
            let (rope, rotates) =
              LayersFrom-get_elem? platform config 0 i lm.model.layers l layers f in
            (use_rope-multiple (interval_of config) i l.self_attn.use_rope pos rope, rotates),
        omega (
          arith,
          ap (nope_layers (interval_of config)) {x = length lm.model.layers + 0}
              {y = cfg config.num_hidden_layers 32} (omega arith),
        ),
      )
