-- ===== src/Prelude/Counts.antt =====
-- Counting the entries of a list that pass a Boolean test, and lists that hold the same entries.
use Prim.Native.Nat.{ℕ, ◌+◌}
use mathlib.Core.Path.{◌≡◌, refl}
use mathlib.Core.Bool.{Bool, true}
use mathlib.Core.List.{List, [], ◌∷◌, ◌++◌}
use native.Mathlib.Omega.{arith}
use ai_infrastructure_platfo.Prelude.Tests.{if◌then◌else◌}
use ai_infrastructure_platfo.Prelude.Lists.{length}

module _ {ℓ} {A : Type ℓ} where
  abbrev pub count_if : (A → Bool) → List A → ℕ
  count_if p [] = 0
  count_if p (x ∷ xs) = (if p x then 1 else 0) + count_if p xs

  abbrev pub All {κ} : (A → Type κ) → List A → Type κ
  All P [] = Unit
  All P (x ∷ xs) = P x × All P xs

  -- No entry passes the test.
  abbrev pub NoneOf : (A → Bool) → List A → Type 0
  NoneOf p xs = count_if p xs ≡ 0

  -- The two lists hold the same entries, each as often.
  abbrev pub SameItems : List A → List A → Type ℓ
  SameItems xs ys = (p : A → Bool) → count_if p xs ≡ count_if p ys

  count_if_every : (xs : List A) → count_if (λ _. true) xs ≡ length xs
  count_if_every [] = refl
  count_if_every (x ∷ xs) = omega (arith, count_if_every xs)

  pub length-SameItems : (xs ys : List A) → SameItems xs ys → length xs ≡ length ys
  length-SameItems xs ys h = omega (arith, h (λ _. true), count_if_every xs, count_if_every ys)

  pub count_if-append :
      (p : A → Bool) (xs ys : List A) → count_if p (xs ++ ys) ≡ count_if p xs + count_if p ys
  count_if-append p [] ys = omega arith
  count_if-append p (x ∷ xs) ys = omega (arith, count_if-append p xs ys)

  -- A test that passes less often.
  pub NoneOf-imp :
      (p q : A → Bool) (xs : List A)
      → ((x : A) → q x ≡ true → p x ≡ true)
      → NoneOf p xs
      → NoneOf q xs
  NoneOf-imp p q [] h n = refl
  NoneOf-imp p q (x ∷ xs) h n = ground (arith, h x, NoneOf-imp p q xs h)
