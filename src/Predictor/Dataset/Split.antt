-- ===== src/Predictor/Dataset/Split.antt =====
-- python/predictor/dataset.py: the samples of a split, and those of records.
use mathlib.Core.Option.{some-injective}
use mathlib.Core.Path.{subst}
use ai_infrastructure_platfo.Prelude.{
  ℕ, zero, suc, ◌+◌, ◌≡◌, refl, ap, sym, ◌∙◌, String, some, List, [], ◌∷◌, ◌++◌, length, take, drop,
  get_elem?, take-append-drop, string_eq, arith, if◌then◌else◌, Option-cases, inl, inr,
}
use ai_infrastructure_platfo.Floats.{Floats}
use ai_infrastructure_platfo.Predictor.Dataset.{
  Sample, DatasetSplits, gather, split, from_records, kept_records, from_prompts, prompt_of,
  is_empty, Row,
}

drop-nil : (n : ℕ) → drop {A = ℕ} n [] ≡ []
drop-nil zero = refl
drop-nil (suc n) = refl

drop-drop : (a b : ℕ) (xs : List ℕ) → drop b (drop a xs) ≡ drop (a + b) xs
drop-drop zero b xs = let e : b ≡ 0 + b = omega arith in ap (λ n. drop n xs) e
drop-drop (suc a) b [] = drop-nil b ∙ sym (drop-nil (suc a + b))
drop-drop (suc a) b (x ∷ xs) =
    let e : suc (a + b) ≡ suc a + b = omega arith in drop-drop a b xs ∙ ap (λ n. drop n (x ∷ xs)) e

three_parts : (a b : ℕ) (xs : List ℕ) → take a xs ++ (take b (drop a xs) ++ drop (a + b) xs) ≡ xs
three_parts a b xs =
    ap (λ t. take a xs ++ (take b (drop a xs) ++ t)) (sym (drop-drop a b xs))
    ∙ ap (λ t. take a xs ++ t) (take-append-drop b (drop a xs))
    ∙ take-append-drop a xs

module _ {F : Type 0} ⦃fl : Floats F⦄ where
  gather-append :
      (samples : List (Sample F)) (idx jdx : List ℕ) (xs ys : List (Sample F))
      → gather samples idx ≡ some xs
      → gather samples jdx ≡ some ys
      → gather samples (idx ++ jdx) ≡ some (xs ++ ys)
  unfolding gather
  gather-append samples [] jdx xs ys e f = ground arith
  gather-append samples (i ∷ idx) jdx xs ys e f = elim (Option-cases (get_elem? samples i)) [
    | inl none_there ↦ cc (rw (none_there, gather) at e)
    | inr (s, there) ↦ elim (Option-cases (gather samples idx)) [
      | inl stuck ↦ cc (rw (there, stuck, gather) at e)
      | inr (rest, got) ↦
          let same : (s ∷ rest) ≡ xs = some-injective _ _ (rw (there, got, gather) at e) in
          let tail = gather-append samples idx jdx rest ys got f in
          rw (there, tail, gather) (ap (λ l. some (l ++ ys)) same)
    ]
  ]

  gather_parts :
      (samples : List (Sample F)) (a b : ℕ) (indices : List ℕ) (train val test : List (Sample F))
      → gather samples (take a indices) ≡ some train
      → gather samples (take b (drop a indices)) ≡ some val
      → gather samples (drop (a + b) indices) ≡ some test
      → gather samples indices ≡ some (train ++ (val ++ test))
  gather_parts samples a b indices train val test e f g =
      ap (gather samples) (sym (three_parts a b indices))
      ∙ gather-append samples (take a indices) _ train _ e
          (gather-append samples (take b (drop a indices)) (drop (a + b) indices) val test f g)

  -- A split that is made puts the samples of all indices into its three lists, each once and in the
  -- order of the indices.
  pub split-gather :
      (samples : List (Sample F)) (train_ratio val_ratio : F) (indices : List ℕ)
      (r : DatasetSplits F)
      → split samples train_ratio val_ratio indices ≡ some r
      → gather samples indices ≡ some (r.train ++ (r.val ++ r.test))
  unfolding split
  split-gather samples train_ratio val_ratio indices r e =
      let a = fl.trunc (fl.mul (fl.lit (length samples) 0) train_ratio) in
      let b = fl.trunc (fl.mul (fl.lit (length samples) 0) val_ratio) in
      elim (Option-cases (gather samples (take a indices))) [
        | inl f ↦ cc (rw (f, split) at e)
        | inr (train, f) ↦ elim (Option-cases (gather samples (take b (drop a indices)))) [
          | inl g ↦ cc (rw (f, g, split) at e)
          | inr (val, g) ↦ elim (Option-cases (gather samples (drop (a + b) indices))) [
            | inl h ↦ cc (rw (f, g, h, split) at e)
            | inr (test, h) ↦
                subst
                  (λ (t : DatasetSplits F).
                    gather samples indices ≡ some (t.train ++ (t.val ++ t.test)))
                  (some-injective _ _ (rw (f, g, h, split) at e))
                  (gather_parts samples a b indices train val test f g h)
          ]
        ]
      ]

module _ {F : Type 0} ⦃fl : Floats F⦄ (split_words : String → List String)
    (extract : String → List F) where
  abbrev pub prompts : List (Sample F) → List String
  prompts [] = []
  prompts (s ∷ samples) = s.prompt ∷ prompts samples

  -- The prompts of the records that have one.
  abbrev given_prompts : List Row → List String
  given_prompts [] = []
  given_prompts (rec ∷ records) =
      let rest = given_prompts records in
      if is_empty (prompt_of rec) then rest else prompt_of rec ∷ rest

  -- From records come samples for exactly those that have a prompt, in their order.
  from_records-prompts :
      (records : List Row)
      → prompts (from_records split_words extract records) ≡ given_prompts records
  unfolding from_records from_prompts kept_records
  from_records-prompts [] = refl
  from_records-prompts (rec ∷ records) = ground (arith, from_records-prompts records)
