-- ===== src/Patch/Registry/Entries.antt =====
-- scripts/patch_registry.py: where the two expressions and the first candidate are found.
use ai_infrastructure_platfo.Prelude.{ℕ, ◌≡◌, refl, Bool, [], ◌∷◌, ◌++◌, arith, length}
use ai_infrastructure_platfo.Codes.{Name, codes, replace}
use ai_infrastructure_platfo.Patch.{lit, search_for, occurs}
use ai_infrastructure_platfo.Patch.Doubled.{search_for-doubled}
use ai_infrastructure_platfo.Patch.Registry.{
  native_entry_re, transformers_entry_re, stablelm, starcoder, native_line,
}

-- The candidates around a character that neither expression can take.
abbrev pub le_lm : Name
le_lm = codes "leLmForCausalLM\": (\"stablelm\", \"StablelmForCausalLM\"),"

abbrev pub er2 : Name
er2 = codes "er2ForCausalLM\": (\"starcoder2\", \"Starcoder2ForCausalLM\"),"

module _ (is_word : ℕ → Bool) where
  -- Neither expression is found in what is put in behind a candidate.
  pub stablelm-native :
      (s : Name)
      → search_for is_word native_entry_re (replace s stablelm (stablelm ++ native_line))
        ≡ search_for is_word native_entry_re s
  unfolding search_for
  stablelm-native s =
      search_for-doubled b'"' (codes "Sta") b'b' le_lm native_line is_word native_entry_re
        (refl, (refl, (refl, (refl, (refl, (refl, (refl, (refl, (refl, tt))))))))) (λ r. refl)
        (λ r. refl) (length s) s (omega arith)

  pub stablelm-transformers :
      (s : Name)
      → search_for is_word transformers_entry_re (replace s stablelm (stablelm ++ native_line))
        ≡ search_for is_word transformers_entry_re s
  unfolding search_for
  stablelm-transformers s =
      search_for-doubled b'"' (codes "Sta") b'b' le_lm native_line is_word transformers_entry_re
        (refl, (refl, (refl, (refl, (refl, (refl, (refl, (refl, (refl, (refl, tt))))))))))
        (λ r. refl) (λ r. refl) (length s) s (omega arith)

  pub starcoder-native :
      (s : Name)
      → search_for is_word native_entry_re (replace s starcoder (starcoder ++ native_line))
        ≡ search_for is_word native_entry_re s
  unfolding search_for
  starcoder-native s =
      search_for-doubled b'"' (codes "Starco") b'd' er2 native_line is_word native_entry_re
        (refl, (refl, (refl, (refl, (refl, (refl, (refl, (refl, (refl, tt))))))))) (λ r. refl)
        (λ r. refl) (length s) s (omega arith)

  pub starcoder-transformers :
      (s : Name)
      → search_for is_word transformers_entry_re (replace s starcoder (starcoder ++ native_line))
        ≡ search_for is_word transformers_entry_re s
  unfolding search_for
  starcoder-transformers s =
      search_for-doubled b'"' (codes "Starco") b'd' er2 native_line is_word transformers_entry_re
        (refl, (refl, (refl, (refl, (refl, (refl, (refl, (refl, (refl, (refl, tt))))))))))
        (λ r. refl) (λ r. refl) (length s) s (omega arith)

  pub starcoder-stablelm :
      (s : Name)
      → occurs is_word stablelm (replace s starcoder (starcoder ++ native_line))
        ≡ occurs is_word stablelm s
  unfolding search_for
  starcoder-stablelm s =
      search_for-doubled b'"' (codes "Starco") b'd' er2 native_line is_word (lit stablelm ∷ [])
        (refl, tt) (λ r. refl) (λ r. refl) (length s) s (omega arith)
