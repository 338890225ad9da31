-- ===== src/Patch/Doubled.antt =====
-- scripts/patch_registry.py: a text in which more is put in behind each occurrence of another one.
use ai_infrastructure_platfo.Prelude.{
  ℕ, zero, suc, ◌+◌, ◌-◌, ◌≤◌, ◌≡◌, ◌⊎◌, refl, sym, ap, ◌∙◌, Bool, true, false, ◌||◌, ==_iff, List,
  [], ◌∷◌, ◌++◌, arith, length, length-append, Bool-cases, inl, inr,
}
use ai_infrastructure_platfo.Codes.{Name, starts_with, replace_from, replace}
use ai_infrastructure_platfo.Patch.{Piece, match_at, search_for, occurs, is_some}
use ai_infrastructure_platfo.Patch.Kept.{Avoids, match_at-stop}

append_assoc : (xs ys zs : Name) → (xs ++ ys) ++ zs ≡ xs ++ (ys ++ zs)
append_assoc [] ys zs = refl
append_assoc (x ∷ xs) ys zs = ap (λ t. x ∷ t) (append_assoc xs ys zs)

starts_with-append : (s w : Name) → starts_with s w ≡ true → (r : Name) × (s ≡ w ++ r)
unfolding starts_with
starts_with-append s [] h = (s, refl)
starts_with-append [] (d ∷ w) h = absurd (ground arith)
starts_with-append (c ∷ s) (d ∷ w) h =
    let (r, e) = starts_with-append s w (ground arith) in (r, ground (arith, ==_iff c d, e))

replace_from-skip :
    (xs r old new : Name) → replace_from (length xs) old new (xs ++ r) ≡ replace_from 0 old new r
unfolding replace_from
replace_from-skip [] r old new = refl
replace_from-skip (x ∷ xs) r old new = replace_from-skip xs r old new

starts_with_self : (w r : Name) → starts_with (w ++ r) w ≡ true
unfolding starts_with
starts_with_self [] r = refl
starts_with_self (d ∷ w) r = ground (arith, ==_iff d d, starts_with_self w r)

-- The text that is looked for is `d ∷ (v ++ b ∷ u)`, and `x` is put in behind it.
module _ (d : ℕ) (v : Name) (b : ℕ) (u x : Name) where
  abbrev pub old : Name
  old = d ∷ (v ++ b ∷ u)

  abbrev pub doubled : Name → Name
  doubled s = replace s old (old ++ x)

  doubled_miss :
      (c : ℕ) (s : Name) → starts_with (c ∷ s) old ≡ false → doubled (c ∷ s) ≡ c ∷ doubled s
  unfolding replace replace_from
  doubled_miss c s h = rw (h, replace_from) refl

  doubled_at : (r : Name) → doubled (old ++ r) ≡ (old ++ x) ++ doubled r
  unfolding replace replace_from
  doubled_at r =
      let others : length old - 1 ≡ length (v ++ b ∷ u) = omega arith in
      rw (starts_with_self old r, others, replace_from)
        (ap (λ t. (old ++ x) ++ t) (replace_from-skip (v ++ b ∷ u) r old (old ++ x)))

  doubled_hit :
      (c : ℕ) (s : Name)
      → starts_with (c ∷ s) old ≡ true
      → (r : Name) × (c ∷ s ≡ old ++ r) × (doubled (c ∷ s) ≡ (old ++ x) ++ doubled r)
  doubled_hit c s h =
      let (r, e) = starts_with-append (c ∷ s) old h in (r, e, ap doubled e ∙ doubled_at r)

  -- Up to the first occurrence the texts are the same.
  doubled_cases :
      (s : Name)
      → (doubled s ≡ s)
        ⊎ ((p r t : Name) × (s ≡ p ++ (old ++ r)) × (doubled s ≡ p ++ ((old ++ x) ++ t)))
  unfolding replace replace_from
  doubled_cases [] = inl refl
  doubled_cases (c ∷ s) = elim (Bool-cases (starts_with (c ∷ s) old)) [
    | inl h ↦ let (r, e, f) = doubled_hit c s h in inr ([], r, doubled r, e, f)
    | inr h ↦ elim (doubled_cases s) [
      | inl same ↦ inl (doubled_miss c s h ∙ ap (λ t. c ∷ t) same)
      | inr (p, r, t, e, f) ↦
          inr (c ∷ p, r, t, ap (λ t. c ∷ t) e, doubled_miss c s h ∙ ap (λ t. c ∷ t) f)
    ]
  ]

  occurs_miss :
      (is_word : ℕ → Bool) (c : ℕ) (s : Name)
      → starts_with (c ∷ s) old ≡ false
      → occurs is_word old s ≡ false
      → occurs is_word old (c ∷ s) ≡ false
  unfolding search_for match_at
  occurs_miss is_word c s h e = rw (h, search_for) e

  occurs_nil : (is_word : ℕ → Bool) → occurs is_word old [] ≡ false
  unfolding search_for match_at starts_with
  occurs_nil is_word = refl

  -- The text is not shorter, and by `x` longer if the old one occurs.
  pub length-doubled :
      (is_word : ℕ → Bool) (n : ℕ) (s : Name)
      → length s ≤ n
      → (length s ≤ length (doubled s))
        × ((occurs is_word old s ≡ false) ⊎ (length s + length x ≤ length (doubled s)))
  length-doubled is_word n [] h = (omega arith, inl (occurs_nil is_word))
  length-doubled is_word zero (c ∷ s) h = absurd (omega arith)
  length-doubled is_word (suc n) (c ∷ s) h = elim (Bool-cases (starts_with (c ∷ s) old)) [
    | inl hit ↦
        let (r, e, f) = doubled_hit c s hit in
        let whole = ap (λ (t : Name). length t) e ∙ length-append old r in
        let new = ap (λ (t : Name). length t) f ∙ length-append (old ++ x) (doubled r) in
        let inner = length-append old x in
        let (longer, _) = length-doubled is_word n r (omega arith) in
        (omega arith, inr (omega arith))
    | inr miss ↦
        let size = ap (λ (t : Name). length t) (doubled_miss c s miss) in
        let (longer, grown) = length-doubled is_word n s (omega arith) in
        (
          omega arith,
          elim grown [
            | inl absent ↦ inl (occurs_miss is_word c s miss absent)
            | inr more ↦ inr (omega arith)
          ],
        )
  ]

  regroup : (p r : Name) → p ++ (old ++ r) ≡ (p ++ d ∷ v) ++ b ∷ (u ++ r)
  regroup p r =
      ap (λ t. p ++ d ∷ t) (append_assoc v (b ∷ u) r) ∙ sym (append_assoc p (d ∷ v) (b ∷ (u ++ r)))

  match_at-doubled :
      (is_word : ℕ → Bool) (ps : List Piece) (s : Name)
      → Avoids b ps
      → is_some is_word (match_at is_word ps (doubled s)) ≡ is_some is_word (match_at is_word ps s)
  match_at-doubled is_word ps s a =
      let found : Name → Bool = λ t. is_some is_word (match_at is_word ps t) in
      elim (doubled_cases s) [
        | inl same ↦ ap found same
        | inr (p, r, t, e, f) ↦
            ap found (f ∙ ap (λ z. p ++ z) (append_assoc old x t) ∙ regroup p (x ++ t))
            ∙ match_at-stop is_word ps b (p ++ d ∷ v) (u ++ (x ++ t)) (u ++ r) a
            ∙ ap found (sym (e ∙ regroup p r))
      ]

  -- What cannot take `b`, and is found in what was put in, or in the old text, only if it is found
  -- behind it, is found as it was.
  pub search_for-doubled :
      (is_word : ℕ → Bool) (ps : List Piece)
      → Avoids b ps
      → ((r : Name) → search_for is_word ps (old ++ r) ≡ search_for is_word ps r)
      → ((r : Name) → search_for is_word ps ((old ++ x) ++ r) ≡ search_for is_word ps r)
      → (n : ℕ) (s : Name) → length s ≤ n
      → search_for is_word ps (doubled s) ≡ search_for is_word ps s
  unfolding search_for replace
  search_for-doubled is_word ps a before after n [] h = refl
  search_for-doubled is_word ps a before after zero (c ∷ s) h = absurd (omega arith)
  search_for-doubled is_word ps a before after (suc n) (c ∷ s) h =
      elim (Bool-cases (starts_with (c ∷ s) old)) [
        | inl hit ↦
            let (r, e, f) = doubled_hit c s hit in
            let whole = ap (λ (t : Name). length t) e ∙ length-append old r in
            ap (search_for is_word ps) f
            ∙ after (doubled r)
            ∙ search_for-doubled is_word ps a before after n r (omega arith)
            ∙ sym (before r)
            ∙ ap (search_for is_word ps) (sym e)
        | inr miss ↦
            let there =
              ap (λ t. is_some is_word (match_at is_word ps t)) (sym (doubled_miss c s miss))
              ∙ match_at-doubled is_word ps (c ∷ s) a in
            let later = search_for-doubled is_word ps a before after n s (omega arith) in
            ap (search_for is_word ps) (doubled_miss c s miss)
            ∙ ap (λ t. t || search_for is_word ps (doubled s)) there
            ∙ ap (λ t. is_some is_word (match_at is_word ps (c ∷ s)) || t) later
      ]
