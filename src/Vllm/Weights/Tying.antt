-- ===== src/Vllm/Weights/Tying.antt =====
-- vllm_port/smollm3.py: the parameters after `load_weights`, with the head that is tied to the
-- embeddings. What a parameter's weight loader makes of it is an argument.
use ai_infrastructure_platfo.Prelude.{
  ◌≡◌, refl, ap, sym, ◌∙◌, true, false, ◌&&◌, Option, none, some, List, [], ◌∷◌, ◌++◌, arith,
  if◌then◌else◌, Bool-cases, Option-cases, inl, inr,
}
use mathlib.Core.Path.{subst}
use ai_infrastructure_platfo.Dict
use ai_infrastructure_platfo.Dict.{get-put, has-put, get-has}
use ai_infrastructure_platfo.Codes.{Name, codes, name_eq, same, same_iff}
use ai_infrastructure_platfo.Vllm.Weights.{
  Shard, Load, Model, is_tied, load_weights, own_load, own_loads, checkpoint_of,
  load_weights-checkpoint_of,
}

abbrev pub head : Name
head = codes "lm_head.weight"

abbrev pub embed_tokens : Name
embed_tokens = codes "model.embed_tokens.weight"

module _ {W : Type 0} (weight_loader : W → W → Option Shard → W) where
  -- The value of a parameter after a load: what its loader makes of it, or a copy without vLLM.
  unfoldable pub loaded : Model → W → W → Option Shard → W
  loaded m old weight shard = if m.vllm_available then weight_loader old weight shard else weight

  -- A load into `params_dict`
  unfoldable pub apply : Model → List (Name × W) → Load W → List (Name × W)
  unfolding loaded Dict.get Dict.put
  apply m params l = elim (Dict.get params l.param) [
    | none ↦ params
    | some old ↦ Dict.put params l.param (loaded m old l.weight l.shard)
  ]

  unfoldable pub apply_all : Model → List (Name × W) → List (Load W) → List (Name × W)
  unfolding apply
  apply_all m params [] = params
  apply_all m params (l ∷ loads) = apply_all m (apply m params l) loads

  -- The statement after the loop
  unfoldable pub tie : Model → List (Name × W) → List (Name × W)
  unfolding Dict.has Dict.get Dict.put
  tie m params = elim (Dict.get params embed_tokens) [
    | none ↦ params
    | some w ↦
        if m.tie_word_embeddings && Dict.has params head then Dict.put params head w else params
  ]

  -- `load_weights`, from the parameters before it to those after it
  unfoldable pub load_model : Model → List (Name × W) → List (Name × W) → List (Name × W)
  unfolding tie apply_all load_weights
  load_model m params weights = tie m (apply_all m params (load_weights m weights))

  -- What becomes of the value `v` of a parameter by the entries of its name, one after the other.
  abbrev pub value_after : Model → Name → W → List (Name × W) → W
  value_after m k v [] = v
  value_after m k v ((name, w) ∷ ws) =
      value_after m k (if same name k then loaded m v w none else v) ws

  apply_all-append :
      (m : Model) (params : List (Name × W)) (xs ys : List (Load W))
      → apply_all m params (xs ++ ys) ≡ apply_all m (apply_all m params xs) ys
  unfolding apply_all
  apply_all-append m params [] ys = refl
  apply_all-append m params (x ∷ xs) ys = apply_all-append m (apply m params x) xs ys

  -- A load keeps the keys, and the value of every other parameter.
  apply-has :
      (m : Model) (params : List (Name × W)) (l : Load W) (k : Name)
      → Dict.has (apply m params l) k ≡ Dict.has params k
  unfolding apply
  apply-has m params l k = elim (Option-cases (Dict.get params l.param)) [
    | inl absent ↦ rw (absent, apply) refl
    | inr (old, there) ↦
        rw (there, apply)
          (ground (
            arith,
            has-put params l.param k (loaded m old l.weight l.shard),
            get-has params l.param,
            name_eq.beq_iff l.param k,
          ))
  ]

  apply-get :
      (m : Model) (params : List (Name × W)) (name k : Name) (w v : W)
      → Dict.get params k ≡ some v
      → Dict.get (apply m params (record { param = name; weight = w; shard = none })) k
        ≡ some (if same name k then loaded m v w none else v)
  unfolding apply
  apply-get m params name k w v e = elim (Bool-cases (same name k)) [
    | inl h ↦
        let there : Dict.get params name ≡ some v =
          ap (Dict.get params) ((same_iff name k).0 h) ∙ e in
        rw (there, h, apply) (get-put params name k (loaded m v w none) ∙ rw h refl)
    | inr h ↦ elim (Option-cases (Dict.get params name)) [
      | inl absent ↦ rw (absent, h, apply) e
      | inr (old, there) ↦
          rw (there, h, apply) (get-put params name k (loaded m old w none) ∙ rw h e)
    ]
  ]

  apply_all-has :
      (m : Model) (params : List (Name × W)) (loads : List (Load W)) (k : Name)
      → Dict.has (apply_all m params loads) k ≡ Dict.has params k
  unfolding apply_all
  apply_all-has m params [] k = refl
  apply_all-has m params (l ∷ loads) k =
      apply_all-has m (apply m params l) loads k ∙ apply-has m params l k

  embed_tokens_untied : (m : Model) → is_tied m embed_tokens ≡ false
  unfolding is_tied same
  embed_tokens_untied m = refl

  -- An entry under its own name, where the model has embeddings.
  own_load-get :
      (m : Model) (params : List (Name × W)) (name : Name) (w v : W)
      → Dict.contains m.params embed_tokens ≡ true
      → Dict.get params embed_tokens ≡ some v
      → Dict.get (apply_all m params (own_load m name w)) embed_tokens
        ≡ some (if same name embed_tokens then loaded m v w none else v)
  unfolding apply_all
  own_load-get m params name w v c e = elim (Bool-cases (same name embed_tokens)) [
    | inl h ↦
        subst
          (λ (n : Name).
            Dict.get (apply_all m params (own_load m n w)) embed_tokens
            ≡ some (if same n embed_tokens then loaded m v w none else v))
          (sym ((same_iff name embed_tokens).0 h))
          (rw (embed_tokens_untied m, c) (apply-get m params embed_tokens embed_tokens w v e))
    | inr h ↦ elim (Bool-cases (is_tied m name)) [
      | inl t ↦ rw (t, h) e
      | inr t ↦ elim (Bool-cases (Dict.contains m.params name)) [
        | inl there ↦ rw (t, there) (apply-get m params name embed_tokens w v e)
        | inr absent ↦ rw (t, absent, h) e
      ]
    ]
  ]

  own_loads-get :
      (m : Model) (params : List (Name × W)) (ws : List (Name × W)) (v : W)
      → Dict.contains m.params embed_tokens ≡ true
      → Dict.get params embed_tokens ≡ some v
      → Dict.get (apply_all m params (own_loads m ws)) embed_tokens
        ≡ some (value_after m embed_tokens v ws)
  unfolding apply_all
  own_loads-get m params [] v c e = e
  own_loads-get m params ((name, w) ∷ ws) v c e =
      ap (λ p. Dict.get p embed_tokens) (apply_all-append m params (own_load m name w) _)
      ∙ own_loads-get m (apply_all m params (own_load m name w)) ws
          (if same name embed_tokens then loaded m v w none else v) c
          (own_load-get m params name w v c e)

  tie-put :
      (m : Model) (params : List (Name × W)) (w : W)
      → m.tie_word_embeddings ≡ true
      → Dict.get params embed_tokens ≡ some w
      → Dict.has params head ≡ true
      → tie m params ≡ Dict.put params head w
  unfolding tie
  tie-put m params w t e h = rw (e, t, h, tie) refl

  -- After the loading of a checkpoint whose names all end in ".weight" into a model with tied
  -- embeddings, the head and the embeddings have one value: that which the entries of the embeddings
  -- in the checkpoint make of the old value, whatever the checkpoint has for the head.
  pub load_model-tied :
      (m : Model) (params : List (Name × W)) (ws : List (Name × W)) (v : W)
      → m.tie_word_embeddings ≡ true
      → Dict.contains m.params embed_tokens ≡ true
      → Dict.get params embed_tokens ≡ some v
      → Dict.has params head ≡ true
      → (Dict.get (load_model m params (checkpoint_of ws)) head
          ≡ some (value_after m embed_tokens v (checkpoint_of ws)))
        × (Dict.get (load_model m params (checkpoint_of ws)) embed_tokens
            ≡ some (value_after m embed_tokens v (checkpoint_of ws)))
  unfolding load_model same
  load_model-tied m params ws v t c e h =
      let q = apply_all m params (load_weights m (checkpoint_of ws)) in
      let value = value_after m embed_tokens v (checkpoint_of ws) in
      let embedded : Dict.get q embed_tokens ≡ some value =
        ap (λ l. Dict.get (apply_all m params l) embed_tokens) (load_weights-checkpoint_of m ws)
        ∙ own_loads-get m params (checkpoint_of ws) v c e in
      let headed : Dict.has q head ≡ true =
        apply_all-has m params (load_weights m (checkpoint_of ws)) head ∙ h in
      let tied : load_model m params (checkpoint_of ws) ≡ Dict.put q head value =
        tie-put m q value t embedded headed in
      (
        ap (λ p. Dict.get p head) tied ∙ get-put q head head value,
        ap (λ p. Dict.get p embed_tokens) tied ∙ get-put q head embed_tokens value ∙ embedded,
      )
