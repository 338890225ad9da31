-- ===== src/Predictor/Extractor/Ranges.antt =====
-- python/predictor/feature_extractor.py: the results of extractions, and the ranges of features.
use mathlib.Core.Path.{subst}
use ai_infrastructure_platfo.Prelude.{
  ℕ, suc, ◌+◌, ◌≤◌, ◌≡◌, refl, ap, sym, ◌∙◌, ◌⊎◌, ltb→lt, Bool-cases, String, true, false, none,
  some, List, [], ◌∷◌, length, ltb, arith, string_eq, nat_eq, ==_iff, inl, inr,
}
use ai_infrastructure_platfo.Prelude.Counts.{All}
use ai_infrastructure_platfo.Floats.{Floats, FloatOrder, fmin}
use ai_infrastructure_platfo.Floats.Laws.{Le}
use ai_infrastructure_platfo.Codes.{Name, name_eq}
use ai_infrastructure_platfo.Dict
use ai_infrastructure_platfo.Predictor.Features.{num_features, feature_vector, as_dict, from_dict}
use ai_infrastructure_platfo.Predictor.Features.RoundTrip.{from_dict-as_dict}
use ai_infrastructure_platfo.Predictor.Extractor.Counting.{
  Unicode, Patterns, vocabulary, counter_from, best_of, detect_language, token_count_of,
  sentence_count_of,
}
use ai_infrastructure_platfo.Predictor.Extractor.Values.{
  FeatureExtractor, ExtractionResult, values_of, extract_features, extract, reasoning_score,
  coding_probability,
}

-- How often the expression of a language matches.
abbrev score_of : Patterns → Name → String → ℕ
score_of p text lang =
    elim (Dict.get
      (("en", p.en text) ∷ ("es", p.es text) ∷ ("fr", p.fr text) ∷ ("de", p.de text) ∷ []) lang) [
        | some n ↦ n
        | none ↦ 0
      ]

abbrev Held : String × ℕ → List (String × ℕ) → Type 0
Held r [] = ⊥
Held r (e ∷ l) = (r ≡ e) ⊎ Held r l

abbrev Most : ℕ → List (String × ℕ) → String × ℕ → Type 0
Most score l r = (score ≤ r.1) × All (λ (e : String × ℕ). e.1 ≤ r.1) l

best_of-better :
    (best lang : String) (score n : ℕ) (l : List (String × ℕ))
    → ltb score n ≡ true
    → best_of lang n l ≡ best_of best score ((lang, n) ∷ l)
best_of-better best lang score n l h = rw h refl

best_of-worse :
    (best lang : String) (score n : ℕ) (l : List (String × ℕ))
    → ltb score n ≡ false
    → best_of best score l ≡ best_of best score ((lang, n) ∷ l)
best_of-worse best lang score n l h = rw h refl

-- The best entry is one of the entries, and none has a higher score.
best_of-Held :
    (best : String) (score : ℕ) (l : List (String × ℕ))
    → Held (best_of best score l) ((best, score) ∷ l)
best_of-Held best score [] = inl refl
best_of-Held best score ((lang, n) ∷ l) = elim (Bool-cases (ltb score n)) [
  | inl h ↦
      subst (λ r. Held r ((best, score) ∷ (lang, n) ∷ l)) (best_of-better best lang score n l h)
        (inr (best_of-Held lang n l))
  | inr h ↦
      subst (λ r. Held r ((best, score) ∷ (lang, n) ∷ l)) (best_of-worse best lang score n l h)
        (elim (best_of-Held best score l) [ inl e ↦ inl e | inr e ↦ inr (inr e) ])
]

best_of-Most :
    (best : String) (score : ℕ) (l : List (String × ℕ)) → Most score l (best_of best score l)
best_of-Most best score [] = (omega arith, tt)
best_of-Most best score ((lang, n) ∷ l) = elim (Bool-cases (ltb score n)) [
  | inl h ↦
      let m = best_of-Most lang n l in
      subst (Most score ((lang, n) ∷ l)) (best_of-better best lang score n l h)
        (omega (arith, ltb→lt score n h, m.0), m)
  | inr h ↦
      let m = best_of-Most best score l in
      let above : n ≤ score = ground arith in
      subst (Most score ((lang, n) ∷ l)) (best_of-worse best lang score n l h)
        (m.0, (omega (arith, m.0, above), m.1))
]

-- No language has more matches than the one that is detected.
detect_language-most :
    (p : Patterns) (text : Name)
    → (p.en text ≤ score_of p text (detect_language p text))
      × (p.es text ≤ score_of p text (detect_language p text))
      × (p.fr text ≤ score_of p text (detect_language p text))
      × (p.de text ≤ score_of p text (detect_language p text))
unfolding detect_language Dict.get
detect_language-most p text =
    let others : List (String × ℕ) =
      ("es", p.es text) ∷ ("fr", p.fr text) ∷ ("de", p.de text) ∷ [] in
    let r : String × ℕ = best_of "en" (p.en text) others in
    let score : score_of p text r.0 ≡ r.1 = elim (best_of-Held "en" (p.en text) others) [
      | inl e ↦ ap (λ q. score_of p text q.0) e ∙ sym (ap (λ q. q.1) e)
      | inr (inl e) ↦ ap (λ q. score_of p text q.0) e ∙ sym (ap (λ q. q.1) e)
      | inr (inr (inl e)) ↦ ap (λ q. score_of p text q.0) e ∙ sym (ap (λ q. q.1) e)
      | inr (inr (inr (inl e))) ↦ ap (λ q. score_of p text q.0) e ∙ sym (ap (λ q. q.1) e)
      | inr (inr (inr (inr e))) ↦ absurd e
    ] in
    let (en, (es, (fr, (de, _)))) = best_of-Most "en" (p.en text) others in
    elim (Bool-cases (ltb 0 r.1)) [
      | inl h ↦ rw h (omega arith, omega arith, omega arith, omega arith)
      | inr h ↦
          let zero_score : r.1 ≡ 0 = ground arith in
          rw h (omega arith, omega arith, omega arith, omega arith)
    ]

-- The sum of the counts.
abbrev pub total : List (ℕ × ℕ) → ℕ
total [] = 0
total ((c, n) ∷ counts) = n + total counts

total-put :
    (counts : List (ℕ × ℕ)) (c : ℕ)
    → total (Dict.put counts c (elim (Dict.get counts c) [ none ↦ 1 | some n ↦ n + 1 ]))
      ≡ total counts + 1
unfolding Dict.put Dict.get
total-put [] c = refl
total-put ((d, n) ∷ counts) c = ground (arith, total-put counts c)

-- A `Counter` counts every character once.
counter_from-length :
    (counts : List (ℕ × ℕ)) (text : Name)
    → total (counter_from counts text) ≡ total counts + length text
unfolding counter_from
counter_from-length counts [] = omega arith
counter_from-length counts (c ∷ cs) =
    let more = Dict.put counts c (elim (Dict.get counts c) [ none ↦ 1 | some n ↦ n + 1 ]) in
    omega (arith, counter_from-length more cs, total-put counts c)

length-add : (d : List Name) (w : Name) → length (Dict.add d w) ≤ suc (length d)
unfolding Dict.add
length-add d w = ground arith

length-vocabulary : (u : Unicode) (words : List Name) → length (vocabulary u words) ≤ length words
unfolding vocabulary
length-vocabulary u [] = omega arith
length-vocabulary u (w ∷ words) =
    omega (arith, length-add (vocabulary u words) (u.lower w), length-vocabulary u words)

module _ {F : Type 0} ⦃fl : Floats F⦄ where
  length-values_of :
      (x : FeatureExtractor F) (u : Unicode) (p : Patterns) (text : Name)
      → length (values_of x u p text) ≡ num_features
  unfolding values_of
  length-values_of x u p text = refl

  -- Every prompt, the empty one too, has a vector of features that survives the way to a dictionary
  -- and back, and the counts that the features are divided by are not zero.
  pub extract-from_dict :
      (x : FeatureExtractor F) (u : Unicode) (p : Patterns) (t0 t1 : F) (text : Name)
      → (r : ExtractionResult F) × (extract x u p t0 t1 text ≡ some r)
        × ((d : List (String × F)) × (as_dict r.features ≡ some d)
            × (from_dict d ≡ some r.features))
        × (1 ≤ token_count_of u p text)
        × (1 ≤ sentence_count_of u p text)
        × (length (vocabulary u (p.words text)) ≤ length (p.words text))
  unfolding extract extract_features feature_vector token_count_of sentence_count_of
  extract-from_dict x u p t0 t1 text =
      let size = length-values_of x u p text in
      (
        record {
          features = values_of x u p text;
          latency_ms = fl.mul (fl.sub t1 t0) (fl.lit 1000 0);
          prompt = text;
        },
        rw ((==_iff _ num_features).1 size, extract) refl,
        from_dict-as_dict (values_of x u p text) size,
        ground arith,
        omega arith,
        length-vocabulary u (p.words text),
      )

  module _ (fo : FloatOrder fl) where
    fmin_first : (a b : F) → Le (fmin a b) a
    fmin_first a b = ground (arith, fo.lt_irrefl a, fo.lt_trans a b a)

    -- The reasoning score and the coding probability are at most one.
    scores_at_most_one :
        (u : Unicode) (p : Patterns) (text : Name) (q_marks word_count : ℕ)
        → Le (reasoning_score u p text q_marks word_count) (fl.lit 1 0)
          × Le (coding_probability u p text) (fl.lit 1 0)
    unfolding reasoning_score coding_probability
    scores_at_most_one u p text q_marks word_count =
        (fmin_first (fl.lit 1 0) _, fmin_first (fl.lit 1 0) _)
