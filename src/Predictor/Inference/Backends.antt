-- ===== src/Predictor/Inference/Backends.antt =====
-- python/predictor/inference.py: whether the three backends feed their networks alike.
use ai_infrastructure_platfo.Prelude.{
  ◌≡◌, refl, ap, ◌∙◌, ◌≤◌, false, Option, none, some, List, [], ◌∷◌, length, length-map, map, arith,
  ◌==◌, ==_iff,
}
use ai_infrastructure_platfo.Floats.{Floats}
use ai_infrastructure_platfo.Predictor.Inference.{
  Metadata, entry_of, Backend, pytorch, onnx, torchscript, checkpoint_norm, load_norm_arrays,
  zip_with, broadcast, safe, standardize, to_tensor, onnx_array, input_of,
}

module _ {G : Type 0} ⦃gl : Floats G⦄ where
  -- A metadata file with a mean and a deviation for each of two or more features.
  abbrev Complete : Metadata G → List G → List G → List G → Type 0
  Complete meta mean std arr =
      (meta.feature_mean ≡ some mean)
      × (meta.feature_std ≡ some std)
      × (length mean ≡ length arr)
      × (length std ≡ length arr)
      × (2 ≤ length arr)

  abbrev scaled : List G → List G → List G → List G
  scaled mean std arr = zip_with gl.div (zip_with gl.sub arr mean) (map safe std)

  broadcast-zip_with :
      (f : G → G → G) (xs ys : List G)
      → length xs ≡ length ys
      → 2 ≤ length xs
      → broadcast f xs ys ≡ some (zip_with f xs ys)
  unfolding broadcast
  broadcast-zip_with f (a ∷ b ∷ xs) (c ∷ d ∷ ys) e h =
      rw ((==_iff (length (a ∷ b ∷ xs)) (length (c ∷ d ∷ ys))).1 e) refl
  broadcast-zip_with f [] ys e h = absurd (omega arith)
  broadcast-zip_with f (a ∷ []) ys e h = absurd (omega arith)
  broadcast-zip_with f (a ∷ b ∷ xs) [] e h = absurd (omega arith)
  broadcast-zip_with f (a ∷ b ∷ xs) (c ∷ []) e h = absurd (omega arith)

  length-zip_with :
      (f : G → G → G) (xs ys : List G)
      → length xs ≡ length ys
      → length (zip_with f xs ys) ≡ length xs
  length-zip_with f [] ys e = refl
  length-zip_with f (x ∷ xs) [] e = absurd (omega arith)
  length-zip_with f (x ∷ xs) (y ∷ ys) e = omega (arith, length-zip_with f xs ys)

  standardize-scaled :
      (mean std arr : List G)
      → length mean ≡ length arr
      → length std ≡ length arr
      → 2 ≤ length arr
      → standardize mean std arr ≡ some (scaled mean std arr)
  unfolding standardize
  standardize-scaled mean std arr e f h =
      let centred = broadcast-zip_with gl.sub arr mean (omega arith) h in
      let size = length-zip_with gl.sub arr mean (omega arith) in
      ap {B = Option (List G)}
        (λ (t : Option (List G)). elim t [
          | none ↦ none
          | some c ↦ broadcast gl.div c (map safe std)
        ])
        centred
      ∙ broadcast-zip_with gl.div (zip_with gl.sub arr mean) (map safe std)
          (omega (arith, length-map std safe)) (omega arith)

  -- Without a metadata file the three backends give the features to the network as they are. With a
  -- file that has a mean and a deviation for each of two or more features, all three give it the
  -- features less the mean, divided by the deviation, where a deviation below 1e-8 counts as one.
  pub input_of-scaled :
      (b : Backend) (meta : Metadata G) (mean std arr : List G)
      → Complete meta mean std arr
      → (input_of b none arr ≡ some arr) × (input_of b (some meta) arr ≡ some (scaled mean std arr))
  unfolding input_of checkpoint_norm load_norm_arrays to_tensor onnx_array
  input_of-scaled pytorch meta mean std arr (m, s, e, f, h) =
      let some_mean : (length mean == 0) ≡ false = ground arith in
      (refl, rw (m, s, some_mean) (standardize-scaled mean std arr e f h))
  input_of-scaled onnx meta mean std arr (m, s, e, f, h) =
      (refl, rw (m, s) (standardize-scaled mean std arr e f h))
  input_of-scaled torchscript meta mean std arr (m, s, e, f, h) =
      (refl, rw (m, s) (standardize-scaled mean std arr e f h))

  broadcast-empty : (f : G → G → G) (a b : G) (arr : List G) → broadcast f (a ∷ b ∷ arr) [] ≡ none
  unfolding broadcast
  broadcast-empty f a b arr = ground arith

  standardize-empty :
      (std : List G) (a b : G) (arr : List G) → standardize [] std (a ∷ b ∷ arr) ≡ none
  unfolding standardize
  standardize-empty std a b arr = rw (broadcast-empty gl.sub a b arr, standardize) refl

  -- With a metadata file that has no mean, and for two or more features, the predictor of PyTorch
  -- uses the features as they are, and those of ONNX and TorchScript raise.
  input_of-without_mean :
      (meta : Metadata G) (a b : G) (arr : List G)
      → meta.feature_mean ≡ none
      → (input_of pytorch (some meta) (a ∷ b ∷ arr) ≡ some (a ∷ b ∷ arr))
        × (input_of onnx (some meta) (a ∷ b ∷ arr) ≡ none)
        × (input_of torchscript (some meta) (a ∷ b ∷ arr) ≡ none)
  unfolding input_of checkpoint_norm load_norm_arrays to_tensor onnx_array
  input_of-without_mean meta a b arr m =
      let raises = standardize-empty (entry_of meta.feature_std) a b arr in
      (rw m refl, rw m raises, rw m raises)
