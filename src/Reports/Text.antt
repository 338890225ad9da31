-- ===== src/Reports/Text.antt =====
-- python/benchmark/compare.py and python/evaluation/generate_report.py: how often a character
-- stands in a text.
use ai_infrastructure_platfo.Prelude.{
  ℕ, zero, suc, ◌+◌, ◌/◌, ◌%◌, ◌≡◌, ◌<◌, ◌⊎◌, inl, inr, refl, List, [], ◌∷◌, ◌++◌, arith, length,
  ltb, ◌==◌, Bool-cases,
}
use ai_infrastructure_platfo.Prelude.Counts.{count_if, count_if-append, All}
use ai_infrastructure_platfo.Codes.{Name, str, digits, join}

-- How often a character stands in a text.
abbrev pub times : ℕ → Name → ℕ
times c text = count_if (λ d. d == c) text

pub times-append : (c : ℕ) (xs ys : Name) → times c (xs ++ ys) ≡ times c xs + times c ys
times-append c xs ys = count_if-append (λ d. d == c) xs ys

-- The texts in which it does not stand.
abbrev pub Without : ℕ → Name → Type 0
Without c text = times c text ≡ 0

-- Parts that do not have the separating character are told apart by it.
pub times-join :
    (c : ℕ) (part : Name) (parts : List Name)
    → All (Without c) (part ∷ parts)
    → times c (join (c ∷ []) (part ∷ parts)) ≡ length parts
unfolding join
times-join c part [] w = w.0
times-join c part (next ∷ parts) w =
    ground
      (arith, times-append c part (c ∷ join (c ∷ []) (next ∷ parts)), times-join c next parts w.1)

-- A number is written without the characters that are no digits.
digits-Without :
    (c fuel n : ℕ) (out : Name)
    → (c < b'0') ⊎ (b'9' < c)
    → Without c out
    → Without c (digits fuel n out)
unfolding digits
digits-Without c zero n out apart w = w
digits-Without c (suc fuel) n out apart w = elim (Bool-cases (ltb n 10)) [
  | inl e ↦ rw (e, digits) (ground arith)
  | inr e ↦
      rw (e, digits) (digits-Without c fuel (n / 10) ((b'0' + n % 10) ∷ out) apart (ground arith))
]

pub str-Without : (c n : ℕ) → (c < b'0') ⊎ (b'9' < c) → Without c (str n)
unfolding str
str-Without c n apart = digits-Without c (n + 1) n [] apart refl
