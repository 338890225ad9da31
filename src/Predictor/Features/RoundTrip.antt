-- ===== src/Predictor/Features/RoundTrip.antt =====
-- python/predictor/features.py: feature vectors as dictionaries, and back.
use ai_infrastructure_platfo.Prelude.{
  ◌≡◌, refl, ap, ◌∙◌, String, Bool, true, false, ◌&&◌, not, some, List, [], ◌∷◌, length, ==_iff,
  string_eq, arith,
}
use text.Mathlib.TextEquality.{eq_iff}
use ai_infrastructure_platfo.Dict
use ai_infrastructure_platfo.Dict.{get-put}
use ai_infrastructure_platfo.Predictor.Features.{
  feature_names, num_features, feature_vector, zip_strict, dict_from, as_dict, pick, from_dict,
}

-- No name stands twice in the list.
abbrev all_distinct : List String → Bool
all_distinct [] = true
all_distinct (k ∷ names) = not (Dict.contains names k) && all_distinct names

names_distinct : all_distinct feature_names ≡ true
unfolding Dict.contains
names_distinct = refl

module _ {F : Type 0} where
  keys : List (String × F) → List String
  keys [] = []
  keys ((k, v) ∷ pairs) = k ∷ keys pairs

  dict_from-other :
      (d pairs : List (String × F)) (j : String)
      → Dict.contains (keys pairs) j ≡ false
      → Dict.get (dict_from d pairs) j ≡ Dict.get d j
  unfolding dict_from keys Dict.contains
  dict_from-other d [] j n = refl
  dict_from-other d ((k, v) ∷ pairs) j n =
      ground (arith, dict_from-other (Dict.put d k v) pairs j, get-put d k j v)

  pick-zip :
      (names : List String) (values : List F) (d : List (String × F))
      → length values ≡ length names
      → all_distinct names ≡ true
      → (pairs : List (String × F)) × (zip_strict names values ≡ some pairs)
        × (keys pairs ≡ names)
        × (pick (dict_from d pairs) names ≡ some values)
  unfolding zip_strict dict_from pick keys
  pick-zip [] [] d e n = ([], refl, refl, refl)
  pick-zip [] (v ∷ values) d e n = absurd (omega arith)
  pick-zip (k ∷ names) [] d e n = absurd (omega arith)
  pick-zip (k ∷ names) (v ∷ values) d e n =
      let (pairs, zipped, same, picked) =
        pick-zip names values (Dict.put d k v) (omega arith) (ground arith) in
      let fresh : Dict.contains (keys pairs) k ≡ false =
        ap (λ ks. Dict.contains ks k) same ∙ ground arith in
      let here : Dict.get (dict_from (Dict.put d k v) pairs) k ≡ some v =
        dict_from-other (Dict.put d k v) pairs k fresh
        ∙ ground (arith, get-put d k k v, eq_iff k k) in
      (
        (k, v) ∷ pairs,
        rw (zipped, zip_strict) refl,
        ap (λ ks. k ∷ ks) same,
        rw (here, picked, pick) refl,
      )

  -- A feature vector of the right length becomes a dictionary, and `from_dict` gives it back.
  pub from_dict-as_dict :
      (values : List F)
      → length values ≡ num_features
      → (d : List (String × F)) × (as_dict values ≡ some d) × (from_dict d ≡ some values)
  unfolding as_dict from_dict feature_vector
  from_dict-as_dict values e =
      let (pairs, zipped, _, picked) = pick-zip feature_names values [] e names_distinct in
      (
        dict_from [] pairs,
        rw (zipped, as_dict) refl,
        rw (picked, from_dict) (rw ((==_iff (length values) num_features).1 e) refl),
      )
