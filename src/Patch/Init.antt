-- ===== src/Patch/Init.antt =====
-- scripts/patch_init.py: the export of SmolLM3 from the package of vLLM's models.
use ai_infrastructure_platfo.Prelude.{
  ℕ, ◌≡◌, ◌⊎◌, refl, ap, ◌∙◌, Bool, true, false, ◌&&◌, Option, none, some, List, [], ◌∷◌, ◌++◌,
  if◌then◌else◌, Bool-cases, Option-cases, inl, inr,
}
use ai_infrastructure_platfo.Codes.{Name, codes}
use ai_infrastructure_platfo.Patch.{
  Piece, lit, spaces, word, word_with, all_but, search_for, occurs, insert_after,
}
use ai_infrastructure_platfo.Patch.Found.{search_for-insert_after}

abbrev pub model_name : Name
model_name = codes "SmolLM3ForCausalLM"

abbrev import_line : Name
import_line = codes "from .smollm3 import SmolLM3ForCausalLM  # native SmolLM3 port"

-- `(from \.\w+ import \w+ForCausalLM\n)`
abbrev import_re : List Piece
import_re =
    lit (codes "from .")
    ∷ word
    ∷ lit (codes " import ")
    ∷ word_with (codes "ForCausalLM")
    ∷ lit (codes "\n")
    ∷ []

-- `(__all__\s*=\s*\[[^\]]*)`
abbrev all_re : List Piece
all_re =
    lit (codes "__all__") ∷ spaces ∷ lit (codes "=") ∷ spaces ∷ lit (codes "[") ∷ all_but b']' ∷ []

abbrev export_line : Name
export_line = codes "\n    \"SmolLM3ForCausalLM\","

-- How the script ends: without vLLM, without the file, with nothing to do for two reasons, or with
-- the file written.
pub data Done : Type 0 where
  no_vllm no_file by_generation_models already : Done
  wrote : Name → Done

module _ (is_word : ℕ → Bool) where
  -- The import goes behind the first import of a model, or to the front.
  unfoldable pub add_import : Name → Name
  unfolding search_for insert_after
  add_import content =
      if occurs is_word (codes "from .smollm3 import") content
      then content
      else elim (insert_after is_word import_re (import_line ++ codes "\n") content) [
        | some patched ↦ patched
        | none ↦ import_line ++ codes "\n" ++ content
      ]

  unfoldable pub add_export : Name → Name
  unfolding search_for insert_after
  add_export content =
      if occurs is_word (codes "__all__") content
      then elim (insert_after is_word all_re export_line content) [
        | some patched ↦ patched
        | none ↦ content
      ]
      else content

  unfoldable pub patch : Name → Done
  unfolding add_import add_export search_for
  patch content =
      if occurs is_word (codes "_GENERATION_MODELS") content
        && occurs is_word (codes "\"SmolLM3ForCausalLM\"") content
      then by_generation_models
      else if occurs is_word model_name content
      then already
      else wrote (add_export (add_import content))

  -- The script: whether vLLM is installed, and the content of the file.
  unfoldable pub main : Bool → Option Name → Done
  unfolding patch
  main false file = no_vllm
  main true none = no_file
  main true (some content) = patch content

  -- What the file holds afterwards.
  unfoldable pub content_after : Name → Done → Name
  content_after content (wrote patched) = patched
  content_after content _ = content

  import_named :
      (rest : Name) → occurs is_word model_name ((import_line ++ codes "\n") ++ rest) ≡ true
  unfolding search_for
  import_named rest = refl

  import_named_first :
      (rest : Name) → occurs is_word model_name (import_line ++ codes "\n" ++ rest) ≡ true
  unfolding search_for
  import_named_first rest = refl

  export_named : (rest : Name) → occurs is_word model_name (export_line ++ rest) ≡ true
  unfolding search_for
  export_named rest = refl

  -- An edit that changes the text puts the name in.
  add_import-cases :
      (content : Name)
      → (occurs is_word model_name (add_import content) ≡ true)
        ⊎ ((add_import content ≡ content)
            × (occurs is_word (codes "from .smollm3 import") content ≡ true))
  unfolding add_import
  add_import-cases content =
      elim (Bool-cases (occurs is_word (codes "from .smollm3 import") content)) [
        | inl e ↦ inr (rw (e, add_import) refl, e)
        | inr e ↦
            elim (Option-cases
              (insert_after is_word import_re (import_line ++ codes "\n") content)) [
                | inl f ↦ inl (rw (e, f, add_import) (import_named_first content))
                | inr (t, f) ↦ inl (
                    rw (e, f, add_import)
                      (search_for-insert_after is_word import_re (lit model_name ∷ [])
                        (import_line ++ codes "\n") import_named content f))
              ]
      ]

  add_export-cases :
      (content : Name)
      → (occurs is_word model_name (add_export content) ≡ true) ⊎ (add_export content ≡ content)
  unfolding add_export
  add_export-cases content = elim (Bool-cases (occurs is_word (codes "__all__") content)) [
    | inl e ↦ elim (Option-cases (insert_after is_word all_re export_line content)) [
      | inl f ↦ inr (rw (e, f, add_export) refl)
      | inr (t, f) ↦ inl (
          rw (e, f, add_export)
            (search_for-insert_after is_word all_re (lit model_name ∷ []) export_line export_named
              content f))
    ]
    | inr e ↦ inr (rw (e, add_export) refl)
  ]

  edited-cases :
      (content : Name)
      → (occurs is_word model_name (add_export (add_import content)) ≡ true)
        ⊎ ((add_export (add_import content) ≡ content)
            × (occurs is_word (codes "from .smollm3 import") content ≡ true))
  edited-cases content = elim (add_export-cases (add_import content)) [
    | inl e ↦ inl e
    | inr e ↦ elim (add_import-cases content) [
      | inl f ↦ inl (ap (occurs is_word model_name) e ∙ f)
      | inr (f, g) ↦ inr (e ∙ f, g)
    ]
  ]

  -- The content after the script.
  abbrev pub after : Name → Name
  after content = content_after content (patch content)

  patch-named :
      (content : Name) → occurs is_word model_name content ≡ true → after content ≡ content
  unfolding patch content_after
  patch-named content e =
      elim (Bool-cases (
        occurs is_word (codes "_GENERATION_MODELS") content
        && occurs is_word (codes "\"SmolLM3ForCausalLM\"") content)) [
          | inl f ↦ rw (f, patch) refl
          | inr f ↦ rw (f, e, patch) refl
        ]

  -- The script leaves the file as it is, or the file has the name afterwards. Where no import was
  -- there it names the model, if it does not rest on the lazy table.
  patch-cases :
      (content : Name)
      → ((occurs is_word model_name (after content) ≡ true) ⊎ (after content ≡ content))
        × ((occurs is_word model_name (after content) ≡ true)
            ⊎ ((patch content ≡ by_generation_models)
                ⊎ (occurs is_word (codes "from .smollm3 import") content ≡ true)))
  unfolding patch content_after
  patch-cases content =
      elim (Bool-cases (
        occurs is_word (codes "_GENERATION_MODELS") content
        && occurs is_word (codes "\"SmolLM3ForCausalLM\"") content)) [
          | inl f ↦ (inr (rw (f, patch) refl), inr (inl (rw (f, patch) refl)))
          | inr f ↦ elim (Bool-cases (occurs is_word model_name content)) [
            | inl e ↦ (inr (rw (f, e, patch) refl), inl (rw (f, e, patch) e))
            | inr e ↦ elim (edited-cases content) [
              | inl g ↦ (inl (rw (f, e, patch) g), inl (rw (f, e, patch) g))
              | inr (g, h) ↦ (inr (rw (f, e, patch) g), inr (inr h))
            ]
          ]
        ]

  -- A second run of the script changes nothing, whatever the file held before the first.
  pub after-after : (content : Name) → after (after content) ≡ after content
  after-after content = elim (patch-cases content).0 [
    | inl e ↦ patch-named (after content) e
    | inr e ↦ ap after e
  ]

  -- Where nothing is imported from the module of the model, the file names the model afterwards,
  -- unless the script leaves that to the lazy table.
  pub after-model_name :
      (content : Name)
      → occurs is_word (codes "from .smollm3 import") content ≡ false
      → (occurs is_word model_name (after content) ≡ true) ⊎ (patch content ≡ by_generation_models)
  after-model_name content h = elim (patch-cases content).1 [
    | inl e ↦ inl e
    | inr rest ↦ elim rest [ inl e ↦ inr e | inr e ↦ cc ]
  ]
