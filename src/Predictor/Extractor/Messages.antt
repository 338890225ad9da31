-- ===== src/Predictor/Extractor/Messages.antt =====
-- python/predictor/feature_extractor.py: the features of several prompts, and of a chat.
use ai_infrastructure_platfo.Prelude.{
  ◌≡◌, refl, Option, none, some, List, [], ◌∷◌, ◌++◌, length, arith,
}
use ai_infrastructure_platfo.Floats.{Floats}
use ai_infrastructure_platfo.Codes.{Name, codes, join}
use ai_infrastructure_platfo.Predictor.Extractor.{
  FeatureExtractor, ExtractionResult, Unicode, Patterns, extract,
}
use ai_infrastructure_platfo.Predictor.Extractor.Ranges.{extract-from_dict}

-- An element of a list of contents: a dictionary with its "text", if it has one, and with how `str`
-- writes it, or something else.
pub data Part : Type 0 where
  dictionary : (text : Option Name) (shown : Name) → Part
  other : Part

-- The content of a message: a list, or something that is written as `shown`.
pub data Content : Type 0 where
  listed : (parts : List Part) → Content
  plain : (shown : Name) → Content

-- A message of a chat, as `str` writes its role; `none` is a missing entry.
pub record ChatMessage : Type 0 where
  pub role : Option Name
  pub content : Option Content

-- `str(c.get("text", c)) for c in content if isinstance(c, dict)`
unfoldable texts_of : List Part → List Name
texts_of [] = []
texts_of (other ∷ parts) = texts_of parts
texts_of (dictionary (some text) shown ∷ parts) = text ∷ texts_of parts
texts_of (dictionary none shown ∷ parts) = shown ∷ texts_of parts

unfoldable content_text : Option Content → Name
unfolding join texts_of
content_text none = []
content_text (some (plain shown)) = shown
content_text (some (listed parts)) = join (codes " ") (texts_of parts)

-- `f"{role}: {content}"`
unfoldable line_of : ChatMessage → Name
unfolding content_text
line_of msg =
    elim msg.role [ none ↦ codes "user" | some role ↦ role ]
    ++ (codes ": " ++ content_text msg.content)

unfoldable lines_of : List ChatMessage → List Name
unfolding line_of
lines_of [] = []
lines_of (msg ∷ messages) = line_of msg ∷ lines_of messages

module _ {F : Type 0} ⦃fl : Floats F⦄ (u : Unicode) (p : Patterns) where
  -- `extract_from_messages`, with the `FeatureExtractor()` of the call
  unfoldable extract_from_messages :
      FeatureExtractor F → F → F → List ChatMessage → Option (ExtractionResult F)
  unfolding extract join lines_of
  extract_from_messages x t0 t1 messages =
      extract x u p t0 t1 (join (codes "\n") (lines_of messages))

  -- `extract_batch`, with the times of each prompt
  unfoldable extract_batch :
      FeatureExtractor F → List (F × F × Name) → Option (List (ExtractionResult F))
  extract_batch x [] = some []
  extract_batch x ((t0, t1, prompt) ∷ prompts) = elim (extract x u p t0 t1 prompt) [
    | none ↦ none
    | some result ↦ elim (extract_batch x prompts) [
      | none ↦ none
      | some results ↦ some (result ∷ results)
    ]
  ]

  -- A batch of prompts always has its features, one vector for each prompt.
  extract_batch_whole :
      (x : FeatureExtractor F) (prompts : List (F × F × Name))
      → (results : List (ExtractionResult F)) × (extract_batch x prompts ≡ some results)
        × (length results ≡ length prompts)
  unfolding extract_batch
  extract_batch_whole x [] = ([], refl, refl)
  extract_batch_whole x ((t0, t1, prompt) ∷ prompts) =
      let (r, found, _, _, _, _) = extract-from_dict x u p t0 t1 prompt in
      let (results, rest, size) = extract_batch_whole x prompts in
      (r ∷ results, rw (found, rest, extract_batch) refl, omega (arith, size))
