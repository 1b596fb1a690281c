-- ===== src/Float.antt =====
-- What the code does with a `float`: literals, arithmetic and the comparison `<=`, and what a
-- column of single precision does with one.
-- The type is a parameter, since no arithmetic here rounds as a machine's does. The laws that a
-- theorem needs are the record `FloatLaws`: they hold of IEEE numbers that are not NaN, whose
-- operations round monotonically. `Float.Fixed` has a type that meets them.
pub mod Fixed
use infra_twin.Prelude.{ℕ, ◌≡◌, ◌⊎◌, Bool, true, ◌≤◌, ◌^◌}

pub record Float (W : Type 0) : Type 0 where
  pub le : W → W → Bool
  pub add : W → W → W
  pub sub : W → W → W
  pub mul : W → W → W
  pub div : W → W → W
  -- the literal m · 10^-k
  pub lit : ℕ → ℕ → W
  -- what a `REAL` column of the database holds of a value
  pub single : W → W

module _ {W : Type 0} ⦃f : Float W⦄ where
  abbrev pub fle : W → W → Bool
  fle = f.le

  -- `float(n)` of an integer
  abbrev pub of_int : ℕ → W
  of_int n = f.lit n 0

pub record FloatLaws (W : Type 0) ⦃f : Float W⦄ : Type 0 where
  pub le_refl : (x : W) → f.le x x ≡ true
  pub le_total : (x y : W) → (f.le x y ≡ true) ⊎ (f.le y x ≡ true)
  pub le_trans : (x y z : W) → f.le x y ≡ true → f.le y z ≡ true → f.le x z ≡ true
  pub sub_anti : (x y z : W) → f.le y z ≡ true → f.le (f.sub x z) (f.sub x y) ≡ true
  pub mul_mono :
      (x y z : W)
      → f.le (f.lit 0 0) x ≡ true
      → f.le y z ≡ true
      → f.le (f.mul x y) (f.mul x z) ≡ true
  pub div_mono :
      (x y z : W)
      → f.le (f.lit 0 0) z ≡ true
      → f.le x y ≡ true
      → f.le (f.div x z) (f.div y z) ≡ true
  pub mul_nonneg :
      (x y : W)
      → f.le (f.lit 0 0) x ≡ true
      → f.le (f.lit 0 0) y ≡ true
      → f.le (f.lit 0 0) (f.mul x y) ≡ true
  pub mul_one : (x : W) → f.mul x (f.lit 1 0) ≡ x
  pub sub_nonneg : (x y : W) → f.le y x ≡ true → f.le (f.lit 0 0) (f.sub x y) ≡ true
  pub int_mono : (m n : ℕ) → m ≤ n → f.le (f.lit m 0) (f.lit n 0) ≡ true
  pub single_mono : (x y : W) → f.le x y ≡ true → f.le (f.single x) (f.single y) ≡ true
  pub lit_nonneg : (m k : ℕ) → f.le (f.lit 0 0) (f.lit m k) ≡ true
  pub lit_le_one : (m k : ℕ) → m ≤ 10 ^ k → f.le (f.lit m k) (f.lit 1 0) ≡ true
