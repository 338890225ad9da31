-- ===== src/Floats/Laws.antt =====
-- What is used of floating-point arithmetic: rounding is monotone, so `+`, `-`, `*` and `/` keep
-- the order of finite values, and so do the functions of `math`.
use ai_infrastructure_platfo.Prelude.{ℕ, ◌<◌, ◌≡◌, false, arith, inl, inr, Bool-cases}
use ai_infrastructure_platfo.Floats.{Floats, FloatOrder, fmin}

module _ {F : Type 0} ⦃fl : Floats F⦄ where
  -- `a <= b` for finite values: `b` is not smaller.
  abbrev pub Le : F → F → Type 0
  Le a b = fl.lt b a ≡ false

pub record FloatArith {F : Type 0} (fl : Floats F) : Type 0 where
  -- a <= b gives x - b <= x - a, and a - x <= b - x
  pub sub_right : (x a b : F) → fl.lt b a ≡ false → fl.lt (fl.sub x a) (fl.sub x b) ≡ false
  pub sub_left : (x a b : F) → fl.lt b a ≡ false → fl.lt (fl.sub b x) (fl.sub a x) ≡ false
  pub sub_zero : (x : F) → fl.sub x (fl.lit 0 0) ≡ x
  -- a factor that is not negative
  pub mul_left :
      (c a b : F)
      → fl.lt c (fl.lit 0 0) ≡ false
      → fl.lt b a ≡ false
      → fl.lt (fl.mul c b) (fl.mul c a) ≡ false
  pub mul_right :
      (c a b : F)
      → fl.lt c (fl.lit 0 0) ≡ false
      → fl.lt b a ≡ false
      → fl.lt (fl.mul b c) (fl.mul a c) ≡ false
  -- a positive literal n for the divisor
  pub div_left :
      (n : ℕ) (a b : F)
      → 0 < n
      → fl.lt b a ≡ false
      → fl.lt (fl.div b (fl.lit n 0)) (fl.div a (fl.lit n 0)) ≡ false
  pub lit_nonneg : (n k : ℕ) → fl.lt (fl.lit n k) (fl.lit 0 0) ≡ false
  -- what the operations give at zero and one, exactly
  pub sub_self : (a : F) → fl.sub a a ≡ fl.lit 0 0
  pub mul_zero : (c : F) → fl.mul c (fl.lit 0 0) ≡ fl.lit 0 0
  pub zero_mul : (c : F) → fl.mul (fl.lit 0 0) c ≡ fl.lit 0 0
  pub zero_div : (n : ℕ) → 0 < n → fl.div (fl.lit 0 0) (fl.lit n 0) ≡ fl.lit 0 0
  pub log1p_zero : fl.log1p (fl.lit 0 0) ≡ fl.lit 0 0
  pub exp_zero : fl.exp (fl.lit 0 0) ≡ fl.lit 1 0
  pub log1p_mono : (a b : F) → fl.lt b a ≡ false → fl.lt (fl.log1p b) (fl.log1p a) ≡ false
  pub exp_mono : (a b : F) → fl.lt b a ≡ false → fl.lt (fl.exp b) (fl.exp a) ≡ false

module _ {F : Type 0} ⦃fl : Floats F⦄ (fo : FloatOrder fl) where
  pub le_refl : (a : F) → Le a a
  le_refl a = fo.lt_irrefl a

  pub le_trans : (a b c : F) → Le a b → Le b c → Le a c
  le_trans a b c h k = elim (Bool-cases (fl.lt c a)) [
    | inr e ↦ e
    | inl e ↦ elim (Bool-cases (fl.lt a b)) [
      | inl f ↦ cc (fo.lt_trans c a b e f)
      | inr f ↦ cc (fo.lt_connected a b f h)
    ]
  ]

  pub fmin_mono : (c a b : F) → Le a b → Le (fmin a c) (fmin b c)
  fmin_mono c a b h = ground (arith, fo.lt_irrefl c, le_trans a b c h)

  -- The smaller of two values that are not negative is not negative, and is at most each of them.
  pub fmin_bounds : (z a c : F) → Le z a → Le z c → Le z (fmin a c) × Le (fmin a c) c
  fmin_bounds z a c h k = ground (arith, fo.lt_irrefl c)
