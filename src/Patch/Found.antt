-- ===== src/Patch/Found.antt =====
-- scripts/patch_registry.py and scripts/patch_init.py: searching in a text that was edited.
use ai_infrastructure_platfo.Prelude.{
  ℕ, ◌-◌, ◌≡◌, refl, ap, ◌∙◌, Bool, true, false, some, List, [], ◌∷◌, ◌++◌, arith, length, take,
  Bool-cases, inl, inr, Option-cases,
}
use mathlib.Core.Path.{subst}
use mathlib.Core.Option.{some-injective}
use ai_infrastructure_platfo.Codes.{Name, starts_with, replace_from, replace}
use ai_infrastructure_platfo.Patch.{Piece, match_at, search_for, occurs, delete_from, insert_after}

module _ (is_word : ℕ → Bool) where
  -- What is found in the end of a text is found in the text.
  pub search_for-append :
      (ps : List Piece) (xs ys : Name)
      → search_for is_word ps ys ≡ true
      → search_for is_word ps (xs ++ ys) ≡ true
  unfolding search_for
  search_for-append ps [] ys h = h
  search_for-append ps (x ∷ xs) ys h = let later = search_for-append ps xs ys h in ground arith

  -- What is not found is not deleted.
  pub delete_from-absent :
      (ps : List Piece) (s : Name)
      → search_for is_word ps s ≡ false
      → delete_from is_word 0 ps s ≡ s
  unfolding delete_from search_for
  delete_from-absent ps [] h = refl
  delete_from-absent ps (c ∷ cs) h = elim (Option-cases (match_at is_word ps (c ∷ cs))) [
    | inl e ↦ rw (e, delete_from) (ap (λ t. c ∷ t) (delete_from-absent ps cs (rw e at h)))
    | inr (rest, e) ↦ cc (rw e at h)
  ]

  replace_hit :
      (c : ℕ) (cs : Name) (w : ℕ) (ws new : Name)
      → starts_with (c ∷ cs) (w ∷ ws) ≡ true
      → (rest : Name) × (replace (c ∷ cs) (w ∷ ws) new ≡ new ++ rest)
  unfolding replace replace_from
  replace_hit c cs w ws new e =
      (replace_from (length (w ∷ ws) - 1) (w ∷ ws) new cs, rw (e, replace_from) refl)

  replace_miss :
      (c : ℕ) (cs : Name) (w : ℕ) (ws new : Name)
      → starts_with (c ∷ cs) (w ∷ ws) ≡ false
      → replace (c ∷ cs) (w ∷ ws) new ≡ c ∷ replace cs (w ∷ ws) new
  unfolding replace replace_from
  replace_miss c cs w ws new e = rw (e, replace_from) refl

  occurs_miss :
      (c : ℕ) (cs : Name) (w : ℕ) (ws : Name)
      → starts_with (c ∷ cs) (w ∷ ws) ≡ false
      → occurs is_word (w ∷ ws) (c ∷ cs) ≡ true
      → occurs is_word (w ∷ ws) cs ≡ true
  unfolding search_for match_at
  occurs_miss c cs w ws e h = rw e at h

  occurs_nil : (w : ℕ) (ws : Name) → occurs is_word (w ∷ ws) [] ≡ false
  unfolding search_for match_at starts_with
  occurs_nil w ws = refl

  -- A text whose place is taken by `new` wherever it occurs has, if it occurs, what `new` has.
  pub search_for-replace :
      (ps : List Piece) (w : ℕ) (ws new : Name)
      → ((rest : Name) → search_for is_word ps (new ++ rest) ≡ true)
      → (s : Name) → occurs is_word (w ∷ ws) s ≡ true
      → search_for is_word ps (replace s (w ∷ ws) new) ≡ true
  search_for-replace ps w ws new found [] h = cc (occurs_nil w ws)
  search_for-replace ps w ws new found (c ∷ cs) h =
      elim (Bool-cases (starts_with (c ∷ cs) (w ∷ ws))) [
        | inl e ↦
            let (rest, hit) = replace_hit c cs w ws new e in
            ap (search_for is_word ps) hit ∙ found rest
        | inr e ↦
            ap (search_for is_word ps) (replace_miss c cs w ws new e)
            ∙ search_for-append ps (c ∷ []) (replace cs (w ∷ ws) new)
                (search_for-replace ps w ws new found cs (occurs_miss c cs w ws e h))
      ]

  -- What is in the text that was put in is found after it.
  pub search_for-insert_after :
      (ps qs : List Piece) (text : Name)
      → ((rest : Name) → search_for is_word qs (text ++ rest) ≡ true)
      → (s : Name) {t : Name} → insert_after is_word ps text s ≡ some t
      → search_for is_word qs t ≡ true
  unfolding insert_after
  search_for-insert_after ps qs text found [] {t} h = elim (Option-cases (match_at is_word ps [])) [
    | inl e ↦ cc (rw (e, insert_after) at h)
    | inr (rest, e) ↦
        subst (λ t. search_for is_word qs t ≡ true) (some-injective _ _ (rw (e, insert_after) at h))
          (found rest)
  ]
  search_for-insert_after ps qs text found (c ∷ cs) {t} h =
      elim (Option-cases (match_at is_word ps (c ∷ cs))) [
        | inl e ↦ elim (Option-cases (insert_after is_word ps text cs)) [
          | inl f ↦ cc (rw (e, f, insert_after) at h)
          | inr (u, f) ↦
              subst (λ t. search_for is_word qs t ≡ true)
                (some-injective _ _ (rw (e, f, insert_after) at h))
                (search_for-append qs (c ∷ []) u (search_for-insert_after ps qs text found cs f))
        ]
        | inr (rest, e) ↦
            subst (λ t. search_for is_word qs t ≡ true)
              (some-injective _ _ (rw (e, insert_after) at h))
              (search_for-append qs (take (length (c ∷ cs) - length rest) (c ∷ cs)) (text ++ rest)
                (found rest))
      ]
