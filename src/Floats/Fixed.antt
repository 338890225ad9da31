-- ===== src/Floats/Fixed.antt =====
-- Decimal fixed point: thousandths as signed integers. An instance of `Floats` that computes.
use native.Mathlib.Nat.{mul_comm}
use ai_infrastructure_platfo.Prelude.{
  refl, ◌∙◌, ◌<◌, suc, ◌≤◌, ℕ, ◌+◌, ◌*◌, ◌/◌, ◌^◌, ◌≡◌, ◌↔◌, Bool, true, false, arith, ltb, ◌==◌,
  if◌then◌else◌,
}
use ai_infrastructure_platfo.Prelude.Int.{
  ℤ, pos, negsuc, pos_part, neg_part, sub_ℕ, ltb_ℤ, ◌+ℤ◌, ◌-ℤ◌,
}
use ai_infrastructure_platfo.Floats.{Floats, FloatOrder}
use ai_infrastructure_platfo.Floats.Laws.{FloatArith}

-- -n, and the integer with the given sign and size.
abbrev negated : ℕ → ℤ
negated n = sub_ℕ 0 n

abbrev size : ℤ → ℕ
size a = pos_part a + neg_part a

abbrev signed : ℤ → ℤ → ℕ → ℤ
signed a b n =
    if ltb (pos_part a) (neg_part a)
    then (if ltb (pos_part b) (neg_part b) then pos n else negated n)
    else (if ltb (pos_part b) (neg_part b) then negated n else pos n)

abbrev mul_fixed : ℤ → ℤ → ℤ
mul_fixed a b = signed a b (size a * size b / 1000)

abbrev div_fixed : ℤ → ℤ → ℤ
div_fixed a b = signed a b (size a * 1000 / size b)

abbrev eqb_fixed : ℤ → ℤ → Bool
eqb_fixed a b = pos_part a + neg_part b == pos_part b + neg_part a

instance abbrev pub fixed : Floats ℤ
fixed = record {
  lt = ltb_ℤ;
  eq = eqb_fixed;
  add = ◌+ℤ◌;
  sub = ◌-ℤ◌;
  mul = mul_fixed;
  div = div_fixed;
  lit = λ n k. pos (n * 1000 / 10 ^ k);
  trunc = λ a. pos_part a / 1000;
  round = λ a _. a;
  log1p = λ a. a;
  exp = λ a. a +ℤ pos 1000;
  log2 = λ a. a;
  sqrt = λ a. a;
}

fixed_eq_iff : (a b : ℤ) → (eqb_fixed a b ≡ true) ↔ (a ≡ b)
fixed_eq_iff (pos a) (pos b) = ground arith
fixed_eq_iff (pos a) (negsuc b) = ground arith
fixed_eq_iff (negsuc a) (pos b) = ground arith
fixed_eq_iff (negsuc a) (negsuc b) = ground arith

fixed-connected : (a b : ℤ) → ltb_ℤ a b ≡ false → ltb_ℤ b a ≡ false → a ≡ b
fixed-connected (pos a) (pos b) h k = ground arith
fixed-connected (pos a) (negsuc b) h k = ground arith
fixed-connected (negsuc a) (pos b) h k = ground arith
fixed-connected (negsuc a) (negsuc b) h k = ground arith

pub fixed-FloatOrder : FloatOrder fixed
fixed-FloatOrder = record {
  eq_iff = fixed_eq_iff;
  lt_irrefl = λ a. ground arith;
  lt_trans = λ a b c h k. ground arith;
  lt_connected = fixed-connected;
}

mul_fixed-pos : (c a b : ℕ) → a ≤ b → c * a / 1000 ≤ c * b / 1000
mul_fixed-pos c a b h = grind arith

fixed-mul_left :
    (c a b : ℤ)
    → ltb_ℤ c (pos 0) ≡ false
    → ltb_ℤ b a ≡ false
    → ltb_ℤ (mul_fixed c b) (mul_fixed c a) ≡ false
fixed-mul_left (pos c) (pos a) (pos b) h k = ground (arith, mul_fixed-pos (c + 0) (a + 0) (b + 0))
fixed-mul_left (pos c) (pos a) (negsuc b) h k = ground arith
fixed-mul_left (pos c) (negsuc a) (pos b) h k = ground arith
fixed-mul_left (pos c) (negsuc a) (negsuc b) h k =
    ground (arith, mul_fixed-pos (c + 0) (0 + suc b) (0 + suc a))
fixed-mul_left (negsuc c) a b h k = ground arith

mul_fixed_comm : (a b : ℤ) → mul_fixed a b ≡ mul_fixed b a
mul_fixed_comm a b = rw (mul_comm (size a) (size b)) (ground arith)

fixed-mul_right :
    (c a b : ℤ)
    → ltb_ℤ c (pos 0) ≡ false
    → ltb_ℤ b a ≡ false
    → ltb_ℤ (mul_fixed b c) (mul_fixed a c) ≡ false
fixed-mul_right c a b h k = rw (mul_fixed_comm b c, mul_fixed_comm a c) (fixed-mul_left c a b h k)

pub div_fixed-pos : (n a b : ℕ) → a ≤ b → a / n ≤ b / n
div_fixed-pos n a b h = grind arith

fixed-div_left :
    (n : ℕ) (a b : ℤ)
    → 0 < n
    → ltb_ℤ b a ≡ false
    → ltb_ℤ (div_fixed b (pos (n * 1000 / 1))) (div_fixed a (pos (n * 1000 / 1))) ≡ false
fixed-div_left n (pos a) (pos b) p k =
    ground (arith, div_fixed-pos (n * 1000 / 1 + 0) ((a + 0) * 1000) ((b + 0) * 1000))
fixed-div_left n (pos a) (negsuc b) p k = ground arith
fixed-div_left n (negsuc a) (pos b) p k = ground arith
fixed-div_left n (negsuc a) (negsuc b) p k =
    ground (arith, div_fixed-pos (n * 1000 / 1 + 0) ((0 + suc b) * 1000) ((0 + suc a) * 1000))

fixed-sub_zero : (a : ℤ) → a -ℤ pos 0 ≡ a
fixed-sub_zero (pos a) = ground arith
fixed-sub_zero (negsuc a) = ground arith

fixed-sub_self : (a : ℤ) → a -ℤ a ≡ pos 0
fixed-sub_self (pos a) = ground arith
fixed-sub_self (negsuc a) = ground arith

fixed-mul_zero : (a : ℤ) → mul_fixed a (pos 0) ≡ pos 0
fixed-mul_zero (pos a) = ground arith
fixed-mul_zero (negsuc a) = ground arith

pub fixed-FloatArith : FloatArith fixed
fixed-FloatArith = record {
  sub_right = λ x a b h. ground arith;
  sub_left = λ x a b h. ground arith;
  sub_zero = fixed-sub_zero;
  mul_left = fixed-mul_left;
  mul_right = fixed-mul_right;
  div_left = fixed-div_left;
  lit_nonneg = λ n k. ground arith;
  sub_self = fixed-sub_self;
  mul_zero = fixed-mul_zero;
  zero_mul = λ c. mul_fixed_comm (pos 0) c ∙ fixed-mul_zero c;
  zero_div = λ n h. ground arith;
  log1p_zero = refl;
  exp_zero = refl;
  log1p_mono = λ a b h. h;
  exp_mono = λ a b h. ground arith;
}
