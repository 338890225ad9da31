-- ===== src/Patch/Registry.antt =====
-- scripts/patch_registry.py: the native entry for SmolLM3 in vLLM's registry of models.
mod Entries
pub mod Twice
use ai_infrastructure_platfo.Prelude.{
  ℕ, ◌≡◌, ◌⊎◌, refl, sym, ap, Bool, true, false, Option, none, some, List, [], ◌∷◌, ◌++◌,
  if◌then◌else◌, Bool-cases, inl, inr,
}
use mathlib.Core.Path.{subst}
use ai_infrastructure_platfo.Codes.{Name, codes, replace}
use ai_infrastructure_platfo.Patch.{Piece, lit, spaces, search_for, occurs, delete_from}
use ai_infrastructure_platfo.Patch.Found.{delete_from-absent, search_for-replace}

-- `NATIVE_ENTRY`, `TRANSFORMERS_ENTRY_RE` and `NATIVE_ENTRY_RE`
abbrev native_entry : Name
native_entry = codes "\"SmolLM3ForCausalLM\": (\"smollm3\", \"SmolLM3ForCausalLM\"),"

abbrev pub transformers_entry_re : List Piece
transformers_entry_re =
    spaces
    ∷ lit (codes "\"SmolLM3ForCausalLM\":")
    ∷ spaces
    ∷ lit (codes "(")
    ∷ spaces
    ∷ lit (codes "\"transformers\",")
    ∷ spaces
    ∷ lit (codes "\"TransformersForCausalLM\",")
    ∷ spaces
    ∷ lit (codes "),")
    ∷ []

abbrev pub native_entry_re : List Piece
native_entry_re =
    lit (codes "\"SmolLM3ForCausalLM\":")
    ∷ spaces
    ∷ lit (codes "(")
    ∷ spaces
    ∷ lit (codes "\"smollm3\",")
    ∷ spaces
    ∷ lit (codes "\"SmolLM3ForCausalLM\",")
    ∷ spaces
    ∷ lit (codes ")")
    ∷ []

-- `INSERT_CANDIDATES`
abbrev stablelm : Name
stablelm = codes "\"StableLmForCausalLM\": (\"stablelm\", \"StablelmForCausalLM\"),"

abbrev starcoder : Name
starcoder = codes "\"Starcoder2ForCausalLM\": (\"starcoder2\", \"Starcoder2ForCausalLM\"),"

abbrev native_line : Name
native_line = codes "\n    " ++ native_entry ++ codes "  # native SmolLM3 port"

-- What `patch_content` prints.
pub data Report : Type 0 where
  already registered not_found : Report

-- What the script did: it skips without vLLM and without a registry, and writes one file otherwise.
pub data Done : Type 0 where
  skipped : Done
  wrote_registry wrote_init : Name → Report → Done

module _ (is_word : ℕ → Bool) where
  -- The loop over the candidates, both of which are written out.
  unfoldable pub insert_native : Name → Name × Report
  unfolding search_for replace
  insert_native content =
      if occurs is_word stablelm content
      then (replace content stablelm (stablelm ++ native_line), registered)
      else if occurs is_word starcoder content
      then (replace content starcoder (starcoder ++ native_line), registered)
      else (content, not_found)

  unfoldable pub patch_content : Name → Name × Report
  unfolding delete_from search_for insert_native
  patch_content content =
      let content' = delete_from is_word 0 transformers_entry_re content in
      if search_for is_word native_entry_re content'
      then (content', already)
      else insert_native content'

  -- The module, with the contents of the two files if they are there.
  unfoldable pub main : Bool → Option Name → Option Name → Done
  unfolding patch_content
  main false registry init = skipped
  main true (some content) init =
      let (patched, report) = patch_content content in wrote_registry patched report
  main true none (some content) =
      let (patched, report) = patch_content content in wrote_init patched report
  main true none none = skipped

  stablelm_native :
      (rest : Name) → occurs is_word native_entry ((stablelm ++ native_line) ++ rest) ≡ true
  unfolding search_for
  stablelm_native rest = refl

  starcoder_native :
      (rest : Name) → occurs is_word native_entry ((starcoder ++ native_line) ++ rest) ≡ true
  unfolding search_for
  starcoder_native rest = refl

  -- What each report says of the text after the deletion and of the text that is written.
  abbrev pub Reported : Report → Name → Name → Type 0
  Reported already cleaned patched =
      (patched ≡ cleaned) × (search_for is_word native_entry_re cleaned ≡ true)
  Reported registered cleaned patched =
      (search_for is_word native_entry_re cleaned ≡ false)
      × (occurs is_word native_entry patched ≡ true)
  Reported not_found cleaned patched =
      (patched ≡ cleaned)
      × (search_for is_word native_entry_re cleaned ≡ false)
      × (occurs is_word stablelm cleaned ≡ false)
      × (occurs is_word starcoder cleaned ≡ false)

  insert_native-Reported :
      (content : Name)
      → search_for is_word native_entry_re content ≡ false
      → Reported (insert_native content).1 content (insert_native content).0
  unfolding insert_native
  insert_native-Reported content absent = elim (Bool-cases (occurs is_word stablelm content)) [
    | inl e ↦
        rw e (
          absent,
          search_for-replace is_word (lit native_entry ∷ []) _ _ _ stablelm_native content e,
        )
    | inr e ↦ elim (Bool-cases (occurs is_word starcoder content)) [
      | inl f ↦
          rw (e, f)
            (
              absent,
              search_for-replace is_word (lit native_entry ∷ []) _ _ _ starcoder_native content f,
            )
      | inr f ↦ rw (e, f) (refl, absent, e, f)
    ]
  ]

  -- What the script reports is so.
  pub patch_content-Reported :
      (content : Name)
      → Reported
          (patch_content content).1
          (delete_from is_word 0 transformers_entry_re content)
          (patch_content content).0
  unfolding patch_content
  patch_content-Reported content =
      let cleaned = delete_from is_word 0 transformers_entry_re content in
      elim (Bool-cases (search_for is_word native_entry_re cleaned)) [
        | inl e ↦ rw (e, patch_content) (refl, e)
        | inr e ↦ rw (e, patch_content) (insert_native-Reported cleaned e)
      ]
