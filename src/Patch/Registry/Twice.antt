-- ===== src/Patch/Registry/Twice.antt =====
-- scripts/patch_registry.py: a second run of the script.
use mathlib.Core.Path.{subst}
use ai_infrastructure_platfo.Prelude.{
  ℕ, ◌+◌, ◌≤◌, ◌≡◌, ◌⊎◌, refl, sym, ap, ◌∙◌, Bool, true, false, [], ◌∷◌, ◌++◌, arith, length,
  Bool-cases, inl, inr,
}
use ai_infrastructure_platfo.Codes.{Name, codes, replace}
use ai_infrastructure_platfo.Patch.{lit, search_for, occurs, delete_from}
use ai_infrastructure_platfo.Patch.Found.{delete_from-absent, search_for-replace}
use ai_infrastructure_platfo.Patch.Doubled.{length-doubled}
use ai_infrastructure_platfo.Patch.Registry.{
  native_entry_re, transformers_entry_re, stablelm, starcoder, native_line, Report, already,
  not_found, Reported, patch_content-Reported, registered, insert_native, patch_content,
}
use ai_infrastructure_platfo.Patch.Registry.Entries.{
  le_lm, er2, stablelm-native, stablelm-transformers, starcoder-native, starcoder-transformers,
  starcoder-stablelm,
}

module _ (is_word : ℕ → Bool) where
  stablelm-stablelm :
      (rest : Name) → occurs is_word stablelm ((stablelm ++ native_line) ++ rest) ≡ true
  unfolding search_for
  stablelm-stablelm rest = refl

  starcoder-starcoder :
      (rest : Name) → occurs is_word starcoder ((starcoder ++ native_line) ++ rest) ≡ true
  unfolding search_for
  starcoder-starcoder rest = refl

  patch_content-absent :
      (s : Name)
      → search_for is_word transformers_entry_re s ≡ false
      → search_for is_word native_entry_re s ≡ false
      → patch_content is_word s ≡ insert_native is_word s
  unfolding patch_content
  patch_content-absent s absent none_yet =
      rw (delete_from-absent is_word transformers_entry_re s absent, none_yet) refl

  -- The script does not see an entry, puts one in and reports that it did.
  abbrev pub Again : Name → Name × Report → Type 0
  Again s second =
      (search_for is_word native_entry_re s ≡ false)
      × (second.1 ≡ registered)
      × (length s + length native_line ≤ length second.0)

  -- What a run does with the text that an earlier run with this report wrote.
  abbrev pub Second : Report → Name → Name × Report → Type 0
  Second already patched second = second ≡ (patched, already)
  Second registered patched second = Again patched second
  Second not_found patched second = second ≡ (patched, not_found)

  abbrev SecondAfter : Name × Report → Type 0
  SecondAfter first = Second first.1 first.0 (patch_content is_word first.0)

  stablelm-Again :
      (s : Name)
      → search_for is_word transformers_entry_re s ≡ false
      → search_for is_word native_entry_re s ≡ false
      → occurs is_word stablelm s ≡ true
      → Again s (patch_content is_word s)
  unfolding insert_native
  stablelm-Again s absent none_yet there =
      let whole : patch_content is_word s
          ≡ (replace s stablelm (stablelm ++ native_line), registered) =
        patch_content-absent s absent none_yet ∙ rw (there, insert_native) refl in
      let (_, grown) =
        length-doubled b'"' (codes "Sta") b'b' le_lm native_line is_word (length s) s
          (omega arith) in
      (
        none_yet,
        ap (λ (p : Name × Report). p.1) whole,
        subst (λ (p : Name × Report). length s + length native_line ≤ length p.0) (sym whole)
            (elim grown [ inl e ↦ cc | inr longer ↦ longer ]),
      )

  starcoder-Again :
      (s : Name)
      → search_for is_word transformers_entry_re s ≡ false
      → search_for is_word native_entry_re s ≡ false
      → occurs is_word stablelm s ≡ false
      → occurs is_word starcoder s ≡ true
      → Again s (patch_content is_word s)
  unfolding insert_native
  starcoder-Again s absent none_yet missing there =
      let whole : patch_content is_word s
          ≡ (replace s starcoder (starcoder ++ native_line), registered) =
        patch_content-absent s absent none_yet ∙ rw (missing, there, insert_native) refl in
      let (_, grown) =
        length-doubled b'"' (codes "Starco") b'd' er2 native_line is_word (length s) s
          (omega arith) in
      (
        none_yet,
        ap (λ (p : Name × Report). p.1) whole,
        subst (λ (p : Name × Report). length s + length native_line ≤ length p.0) (sym whole)
            (elim grown [ inl e ↦ cc | inr longer ↦ longer ]),
      )

  insert_native-SecondAfter :
      (s : Name)
      → search_for is_word transformers_entry_re s ≡ false
      → search_for is_word native_entry_re s ≡ false
      → SecondAfter (insert_native is_word s)
  unfolding insert_native
  insert_native-SecondAfter s absent none_yet = elim (Bool-cases (occurs is_word stablelm s)) [
    | inl e ↦ rw e (
        stablelm-Again (replace s stablelm (stablelm ++ native_line))
          (stablelm-transformers is_word s ∙ absent) (stablelm-native is_word s ∙ none_yet)
          (search_for-replace is_word (lit stablelm ∷ []) _ _ _ stablelm-stablelm s e))
    | inr e ↦ elim (Bool-cases (occurs is_word starcoder s)) [
      | inl f ↦
          rw (e, f)
            (starcoder-Again (replace s starcoder (starcoder ++ native_line))
              (starcoder-transformers is_word s ∙ absent) (starcoder-native is_word s ∙ none_yet)
              (starcoder-stablelm is_word s ∙ e)
              (search_for-replace is_word (lit starcoder ∷ []) _ _ _ starcoder-starcoder s f))
      | inr f ↦
          let whole : insert_native is_word s ≡ (s, not_found) = rw (e, f, insert_native) refl in
          subst SecondAfter (sym whole) (patch_content-absent s absent none_yet ∙ whole)
    ]
  ]

  -- A text from which the deletion has nothing more to take, with a native entry.
  already-SecondAfter :
      (s : Name)
      → search_for is_word transformers_entry_re s ≡ false
      → search_for is_word native_entry_re s ≡ true
      → SecondAfter (s, already)
  unfolding patch_content
  already-SecondAfter s absent there =
      rw (delete_from-absent is_word transformers_entry_re s absent, there) refl

  patch_content_cases :
      (content : Name)
      → let cleaned = delete_from is_word 0 transformers_entry_re content in
        ((search_for is_word native_entry_re cleaned ≡ true)
          × (patch_content is_word content ≡ (cleaned, already)))
        ⊎ ((search_for is_word native_entry_re cleaned ≡ false)
            × (patch_content is_word content ≡ insert_native is_word cleaned))
  unfolding patch_content
  patch_content_cases content =
      let cleaned = delete_from is_word 0 transformers_entry_re content in
      elim (Bool-cases (search_for is_word native_entry_re cleaned)) [
        | inl e ↦ inl (e, rw (e, patch_content) refl)
        | inr e ↦ inr (e, rw (e, patch_content) refl)
      ]

  -- Where the deletion leaves no fallback entry, two runs of the script do this. The first one
  -- reports that the model is registered only where its expression matches, and that it registered
  -- the model only where the expression did not match, and then the text has the entry; it warns
  -- only where neither place for an entry occurs; and unless it registered the model it has only
  -- taken the fallback entry out. The second run reports the same. It changes nothing, unless the
  -- first one registered the model: then it does not find the entry that the first one put in, and
  -- the text becomes longer by an entry at least.
  pub patch_content-patch_content :
      (content : Name)
      → search_for is_word transformers_entry_re
          (delete_from is_word 0 transformers_entry_re content)
        ≡ false
      → Reported is_word
          (patch_content is_word content).1
          (delete_from is_word 0 transformers_entry_re content)
          (patch_content is_word content).0
        × Second
            (patch_content is_word content).1
            (patch_content is_word content).0
            (patch_content is_word (patch_content is_word content).0)
  patch_content-patch_content content absent =
      let cleaned = delete_from is_word 0 transformers_entry_re content in
      (
        patch_content-Reported is_word content,
        elim (patch_content_cases content) [
          | inl (e, first) ↦ subst SecondAfter (sym first) (already-SecondAfter cleaned absent e)
          | inr (e, first) ↦
              subst SecondAfter (sym first) (insert_native-SecondAfter cleaned absent e)
        ],
      )
