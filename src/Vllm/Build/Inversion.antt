-- ===== src/Vllm/Build/Inversion.antt =====
-- vllm_port/smollm3.py: what a construction that did not raise was made of.
use mathlib.Core.Option.{some-injective}
use ai_infrastructure_platfo.Prelude.{
  ℕ, ap, ◌∙◌, ◌++◌, ◌≡◌, ◌==◌, refl, Bool, true, false, Option, none, some, List, ◌∷◌,
  if◌then◌else◌,
}
use ai_infrastructure_platfo.Vllm.Shapes.{◌>>=◌}
use ai_infrastructure_platfo.Codes.{Name, codes}
use ai_infrastructure_platfo.Floats.{Floats}
use ai_infrastructure_platfo.Vllm.Rope.{Heads, heads, use_rope}
use ai_infrastructure_platfo.Vllm.Build.{
  attention_vllm, attention_init, layers_init, model_of, model_init, causal_lm_of, causal_lm_init,
}
use ai_infrastructure_platfo.Vllm.Modules.{
  Config, cfg, Platform, vllm, Attention, DecoderLayer, CausalLm,
}

pub >>=-eq-some :
    {A B : Type 0} (m : Option A) (f : A → Option B) {b : B}
    → (m >>= f) ≡ some b
    → (a : A) × (m ≡ some a) × (f a ≡ some b)
>>=-eq-some none f h = cc
>>=-eq-some (some a) f h = (a, refl, h)

pub cons-eq-some :
    {A : Type 0} (m : Option A) (ms : Option (List A)) {bs : List A}
    → (m >>= λ a. ms >>= λ xs. some (a ∷ xs)) ≡ some bs
    → (a : A) × (rest : List A) × (m ≡ some a) × (ms ≡ some rest) × (a ∷ rest ≡ bs)
cons-eq-some none ms h = cc
cons-eq-some (some a) none h = cc
cons-eq-some (some a) (some rest) h = (a, rest, refl, refl, some-injective _ _ h)

unguarded :
    {B : Type 0} (guard : Bool) (x : B) {b : B} → (if guard then none else some x) ≡ some b → x ≡ b
unguarded true x h = cc
unguarded false x h = some-injective _ _ h

-- A construction behind a guard.
pub guarded-eq-some :
    {A B : Type 0} (m : Option A) (guard : A → Bool) (f : A → B) {b : B}
    → (m >>= λ a. if guard a then none else some (f a)) ≡ some b
    → (a : A) × (m ≡ some a) × (f a ≡ b)
guarded-eq-some none guard f h = cc
guarded-eq-some (some a) guard f h = (a, refl, unguarded (guard a) (f a) h)

pub mapped-eq-some :
    {A B : Type 0} (m : Option A) (f : A → B) {b : B}
    → (m >>= λ a. some (f a)) ≡ some b
    → (a : A) × (m ≡ some a) × (f a ≡ b)
mapped-eq-some none f h = cc
mapped-eq-some (some a) f h = (a, refl, some-injective _ _ h)

module _ {F : Type 0} ⦃fl : Floats F⦄ (power : ℕ → F) where
  -- Attention that was built under vLLM, its choice of RoPE and its counts of heads.
  pub attention_init-eq-some :
      (tp_size : ℕ) (config : Config F) (i : ℕ) (prefix : Name) (a : Attention F)
      → attention_init power (vllm tp_size) config i prefix ≡ some a
      → (rope : Bool) × (h : Heads) × (use_rope i (cfg config.nope_layer_interval 2) ≡ some rope)
        × (attention_vllm power config (cfg config.hidden_size 2048) prefix rope h ≡ a)
  unfolding attention_init
  attention_init-eq-some tp_size config i prefix a e =
      let m =
        heads (cfg config.hidden_size 2048) (cfg config.num_attention_heads 32)
          (cfg config.num_key_value_heads 8) config.head_dim tp_size in
      let build = attention_vllm power config (cfg config.hidden_size 2048) prefix in
      let (rope, r, k) =
        >>=-eq-some (use_rope i (cfg config.nope_layer_interval 2))
          (λ rope. m >>= λ h. if h.head_dim == 0 then none else some (build rope h)) e in
      let (h, _, l) = guarded-eq-some m (λ h. h.head_dim == 0) (build rope) k in (rope, h, r, l)

  -- A model that was built, and the layers that it is built of.
  pub causal_lm_init-eq-some :
      (platform : Platform) (config : Config F) (prefix : Name) (lm : CausalLm F)
      → causal_lm_init power platform config prefix ≡ some lm
      → (ls : List (DecoderLayer F)) × (layers_init power platform config
            (prefix ++ codes ".model")
            0
            (cfg config.num_hidden_layers 32)
          ≡ some ls)
        × (causal_lm_of power config prefix
              (model_of power platform config (prefix ++ codes ".model") ls)
            ≡ lm)
  unfolding causal_lm_init model_init
  causal_lm_init-eq-some platform config prefix lm e =
      let inner = prefix ++ codes ".model" in
      let (model, r, k) =
        mapped-eq-some (model_init power platform config inner) (causal_lm_of power config prefix)
          e in
      let (ls, q, m) =
        mapped-eq-some (layers_init power platform config inner 0 (cfg config.num_hidden_layers 32))
          (model_of power platform config inner) r in
      (ls, q, ap (causal_lm_of power config prefix) m ∙ k)
