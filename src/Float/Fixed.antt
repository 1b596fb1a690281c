-- ===== src/Float/Fixed.antt =====
-- Fixed-point numbers that meet the laws: a number counts the units of 10^-15, and what is below 0
-- is 0. A column keeps them to 10^-7. Tests and examples run on them.
use native.Mathlib.Nat.{le-div_iff_mul-le, mul-div_right, div-mul-le_self}
use infra_twin.Prelude.{
  ℕ, zero, suc, ◌+◌, ◌-◌, ◌*◌, ◌/◌, ◌^◌, ◌≤◌, ◌<◌, ◌≡◌, arith, leb, leb→le, le→leb,
}
use infra_twin.Float.{Float, FloatLaws}

abbrev pub Fixed : Type 0
Fixed = ℕ

abbrev pub unit : ℕ
unit = 10 ^ 15

instance abbrev pub fixed_float : Float Fixed
fixed_float = record {
  le = leb;
  add = λ a b. a + b;
  sub = λ a b. a - b;
  mul = λ a b. a * b / unit;
  div = λ a b. a * unit / b;
  lit = λ m k. m * unit / 10 ^ k;
  single = λ a. a / 10 ^ 8 * 10 ^ 8;
}

div_le : (x y z : ℕ) → x ≤ y → x / z ≤ y / z
div_le x y zero h = omega arith
div_le x y (suc z) h =
    (le-div_iff_mul-le (omega arith)).1 (omega (arith, div-mul-le_self x (suc z)))

mul_le : (x y z : ℕ) → y ≤ z → x * y ≤ x * z
mul_le x y z h = grind arith

mul-div_unit : (x : ℕ) → x * (1 * unit / 10 ^ 0) / unit ≡ x
mul-div_unit x = omega arith

mul_le_left : (x y : ℕ) → x ≤ y → x * unit ≤ y * unit
mul_le_left x y h = omega arith

ten_pow_pos : (k : ℕ) → 0 < 10 ^ k
ten_pow_pos zero = omega arith
ten_pow_pos (suc k) = omega (arith, ten_pow_pos k)

part_le : (m k : ℕ) → m ≤ 10 ^ k → m * unit / 10 ^ k ≤ unit
part_le m k h =
    let whole = mul-div_right unit (ten_pow_pos k) in
    omega (arith, div_le (m * unit) (10 ^ k * unit) (10 ^ k) (mul_le_left m (10 ^ k) h))

single_le : (x y : ℕ) → x ≤ y → x / 10 ^ 8 * 10 ^ 8 ≤ y / 10 ^ 8 * 10 ^ 8
single_le x y h = omega (arith, div_le x y (10 ^ 8) h)

pub Fixed-laws : FloatLaws Fixed
Fixed-laws = record {
  le_refl = λ x. ground arith;
  le_total = λ x y. ground arith;
  le_trans = λ x y z p q. ground arith;
  sub_anti = λ x y z p. ground (arith);
  mul_mono = λ x y z p q. le→leb _ _ (div_le (x * y) (x * z) unit (mul_le x y z (leb→le _ _ q)));
  div_mono = λ x y z p q. le→leb _ _ (div_le (x * unit) (y * unit) z (grind (arith, leb→le x y)));
  mul_nonneg = λ x y p q. ground arith;
  mul_one = λ x. mul-div_unit x;
  sub_nonneg = λ x y p. ground arith;
  int_mono = λ m n p. le→leb _ _ (div_le (m * unit) (n * unit) (10 ^ 0) (omega arith));
  single_mono = λ x y p. le→leb _ _ (single_le x y (leb→le _ _ p));
  lit_nonneg = λ m k. ground arith;
  lit_le_one = λ m k p. le→leb _ _ (part_le m k p);
}
