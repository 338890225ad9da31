-- ===== src/Tests/PatchTests.antt =====
-- scripts/patch_registry.py and scripts/patch_init.py: small files.
use ai_infrastructure_platfo.Prelude.{ℕ, ◌≡◌, refl, Bool, false, ◌&&◌, ◌||◌, leb, ◌==◌, ◌++◌}
use ai_infrastructure_platfo.Codes.{Name, codes}
use ai_infrastructure_platfo.Patch.{search_for, occurs, delete_from}
use ai_infrastructure_platfo.Patch.Registry.{
  registered, transformers_entry_re, patch_content, Reported,
}
use ai_infrastructure_platfo.Patch.Registry.Twice.{Second, patch_content-patch_content}
use ai_infrastructure_platfo.Patch.Init.{
  Done, patch, model_name, by_generation_models, after, after-after, after-model_name,
}

abbrev is_word : ℕ → Bool
is_word c =
    leb b'a' c && leb c b'z' || leb b'A' c && leb c b'Z' || leb b'0' c && leb c b'9' || c == b'_'

abbrev registry : Name
registry =
    codes "    \"StableLmForCausalLM\": (\"stablelm\", \"StablelmForCausalLM\"),"
    ++ codes
        "\n    \"SmolLM3ForCausalLM\": (\n \"transformers\", \"TransformersForCausalLM\",\n),\n"

registry-registered : (patch_content is_word registry).1 ≡ registered
unfolding patch_content
registry-registered = refl

registry-cleaned :
    search_for is_word transformers_entry_re (delete_from is_word 0 transformers_entry_re registry)
    ≡ false
unfolding search_for delete_from
registry-cleaned = refl

patch_content-patch_content_example :
    Reported is_word
      (patch_content is_word registry).1
      (delete_from is_word 0 transformers_entry_re registry)
      (patch_content is_word registry).0
    × Second is_word
        (patch_content is_word registry).1
        (patch_content is_word registry).0
        (patch_content is_word (patch_content is_word registry).0)
patch_content-patch_content_example = patch_content-patch_content is_word registry registry-cleaned

abbrev init_file : Name
init_file = codes "from .llama import LlamaForCausalLM\n__all__ = [\"LlamaForCausalLM\"]\n"

init_file_patched :
    after is_word init_file
    ≡ codes
        "from .llama import LlamaForCausalLM\nfrom .smollm3 import SmolLM3ForCausalLM  # native SmolLM3 port\n__all__ = [\"LlamaForCausalLM\"\n    \"SmolLM3ForCausalLM\",]\n"
unfolding patch ai_infrastructure_platfo.Patch.Init.content_after
init_file_patched = refl

after-after_example : after is_word (after is_word init_file) ≡ after is_word init_file
after-after_example = after-after is_word init_file
