-- ===== src/Patch/Kept.antt =====
-- scripts/patch_registry.py: searches that a text put in behind another one does not change.
use ai_infrastructure_platfo.Prelude.{
  ℕ, ◌≡◌, refl, sym, ap, ◌∙◌, Bool, true, false, ◌&&◌, ◌==◌, List, [], ◌∷◌, ◌++◌, arith, length,
  drop, Bool-cases, inl, inr,
}
use ai_infrastructure_platfo.Prelude.Counts.{NoneOf}
use ai_infrastructure_platfo.Codes.{Name, starts_with}
use ai_infrastructure_platfo.Patch.{
  Piece, lit, spaces, word, word_with, all_but, is_space, span, is_some, match_at,
}

-- No piece can take the character `b`.
abbrev pub Avoids : ℕ → List Piece → Type 0
Avoids b [] = Unit
Avoids b (lit w ∷ ps) = NoneOf (λ c. c == b) w × Avoids b ps
Avoids b (spaces ∷ ps) = (is_space b ≡ false) × Avoids b ps
Avoids b (word ∷ ps) = ⊥
Avoids b (word_with suffix ∷ ps) = ⊥
Avoids b (all_but c ∷ ps) = ⊥

starts_with-stop :
    (b : ℕ) (w p q r : Name)
    → NoneOf (λ c. c == b) w
    → starts_with (p ++ b ∷ q) w ≡ starts_with (p ++ b ∷ r) w
unfolding starts_with
starts_with-stop b [] p q r n = refl
starts_with-stop b (d ∷ w) [] q r n = ground arith
starts_with-stop b (d ∷ w) (c ∷ p) q r n =
    ap (λ t. c == d && t) (starts_with-stop b w p q r (ground arith))

drop-stop :
    (b : ℕ) (w p q : Name)
    → NoneOf (λ c. c == b) w
    → starts_with (p ++ b ∷ q) w ≡ true
    → drop (length w) (p ++ b ∷ q) ≡ drop (length w) p ++ b ∷ q
unfolding starts_with
drop-stop b [] p q n e = refl
drop-stop b (d ∷ w) [] q n e = absurd (ground arith)
drop-stop b (d ∷ w) (c ∷ p) q n e = drop-stop b w p q (ground arith) (ground arith)

span-stop :
    (b : ℕ) (p q : Name)
    → is_space b ≡ false
    → (span is_space (p ++ b ∷ q)).1 ≡ (span is_space p).1 ++ b ∷ q
unfolding span
span-stop b [] q e = rw (e, span) refl
span-stop b (c ∷ p) q e = elim (Bool-cases (is_space c)) [
  | inl h ↦ rw (h, span) (span-stop b p q e)
  | inr h ↦ rw (h, span) refl
]

module _ (is_word : ℕ → Bool) where
  -- Whether there is a match does not depend on what stands behind a character that none can take.
  pub match_at-stop :
      (ps : List Piece) (b : ℕ) (p q r : Name)
      → Avoids b ps
      → is_some is_word (match_at is_word ps (p ++ b ∷ q))
        ≡ is_some is_word (match_at is_word ps (p ++ b ∷ r))
  unfolding match_at
  match_at-stop [] b p q r a = refl
  match_at-stop (lit w ∷ ps) b p q r a = elim (Bool-cases (starts_with (p ++ b ∷ q) w)) [
    | inr h ↦ let k = sym (starts_with-stop b w p q r a.0) ∙ h in rw (h, k, match_at) refl
    | inl h ↦
        let k = sym (starts_with-stop b w p q r a.0) ∙ h in
        rw (h, k, drop-stop b w p q a.0 h, drop-stop b w p r a.0 k, match_at)
          (match_at-stop ps b (drop (length w) p) q r a.1)
  ]
  match_at-stop (spaces ∷ ps) b p q r a =
      rw (span-stop b p q a.0, span-stop b p r a.0, match_at)
        (match_at-stop ps b (span is_space p).1 q r a.1)
  match_at-stop (word ∷ ps) b p q r a = absurd a
  match_at-stop (word_with suffix ∷ ps) b p q r a = absurd a
  match_at-stop (all_but c ∷ ps) b p q r a = absurd a
