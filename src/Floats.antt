-- ===== src/Floats.antt =====
-- The floating-point numbers of the Python code, as a type with the operations that the code uses.
-- The code's `float` is a parameter: `F` with an instance of `Floats`. Values are finite, and two
-- values that compare equal are one value.
pub mod Fixed
pub mod Laws
use ai_infrastructure_platfo.Prelude.{
  ℕ, ◌≡◌, ◌↔◌, Bool, true, false, not, ◌||◌, if◌then◌else◌, List, [], ◌∷◌, length,
}

pub record Floats (F : Type 0) : Type 0 where
  -- `a < b` and `a == b`
  pub lt : F → F → Bool
  pub eq : F → F → Bool
  pub add : F → F → F
  pub sub : F → F → F
  pub mul : F → F → F
  pub div : F → F → F
  -- `lit n k` is the literal n / 10 ** k, so `lit n 0` is `float(n)`.
  pub lit : ℕ → ℕ → F
  -- `int(a)` of a value that is not negative
  pub trunc : F → ℕ
  -- `round(a, k)`
  pub round : F → ℕ → F
  -- `math.log1p`, `math.exp`, `math.log2`, `math.sqrt`
  pub log1p : F → F
  pub exp : F → F
  pub log2 : F → F
  pub sqrt : F → F

-- The order of finite floating-point values.
pub record FloatOrder {F : Type 0} (fl : Floats F) : Type 0 where
  pub eq_iff : (a b : F) → (fl.eq a b ≡ true) ↔ (a ≡ b)
  pub lt_irrefl : (a : F) → fl.lt a a ≡ false
  pub lt_trans : (a b c : F) → fl.lt a b ≡ true → fl.lt b c ≡ true → fl.lt a c ≡ true
  pub lt_connected : (a b : F) → fl.lt a b ≡ false → fl.lt b a ≡ false → a ≡ b

module _ {F : Type 0} ⦃fl : Floats F⦄ where
  -- `a <= b` and `a >= b`
  abbrev pub fle : F → F → Bool
  fle a b = fl.lt a b || fl.eq a b

  -- `bool(a)`
  abbrev pub truthy : F → Bool
  truthy a = not (fl.eq a (fl.lit 0 0))

  -- `min(a, b)` and `max(a, b)`: the first unless the second is beyond it.
  abbrev pub fmin : F → F → F
  fmin a b = if fl.lt b a then b else a

  abbrev pub fmax : F → F → F
  fmax a b = if fl.lt a b then b else a

  -- `sum(xs)`, which adds from the left
  unfoldable pub sum_from : F → List F → F
  sum_from acc [] = acc
  sum_from acc (x ∷ xs) = sum_from (fl.add acc x) xs

  -- `max` of a list that starts with `best`
  unfoldable max_from : F → List F → F
  max_from best [] = best
  max_from best (x ∷ xs) = max_from (fmax best x) xs

  -- `sum(xs) / len(xs) if xs else 0.0` and `max(xs) if xs else 0.0`
  unfoldable pub mean : List F → F
  unfolding sum_from
  mean [] = fl.lit 0 0
  mean (x ∷ xs) = fl.div (sum_from (fl.lit 0 0) (x ∷ xs)) (fl.lit (length (x ∷ xs)) 0)

  unfoldable pub maximum : List F → F
  unfolding max_from
  maximum [] = fl.lit 0 0
  maximum (x ∷ xs) = max_from x xs
