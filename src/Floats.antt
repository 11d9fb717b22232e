-- ===== src/Floats.antt =====
-- Python's `float`, and what the code takes from `math`. The numbers are a type with the operations
-- that the source calls; `Laws` states the documented behaviour of comparisons and signs that the
-- theorems rely on, NaN included, and `Micro` meets it with fixed-point numbers.
pub mod Laws
pub mod Micro
use autonomous_rc_taxi.Prelude.{ℕ, Bool, if◌then◌else◌}

-- `lit m k` is the literal m * 10^-k: 0.05 is `lit 5 2`.
pub record Double (F : Type 0) : Type 0 where
  pub lit : ℕ → ℕ → F
  pub infinity : F
  pub add : F → F → F
  pub sub : F → F → F
  pub mul : F → F → F
  pub div : F → F → F
  pub mod_by : F → F → F
  pub neg : F → F
  pub abs : F → F
  pub le : F → F → Bool
  pub lt : F → F → Bool
  pub eq : F → F → Bool
  pub is_finite : F → Bool
  pub of_nat : ℕ → F
  pub ceil : F → ℕ
  pub hypot : F → F → F
  pub atan2 : F → F → F
  pub atan : F → F
  pub sin : F → F
  pub cos : F → F
  pub tan : F → F
  pub degrees : F → F
  pub radians : F → F

module _ {F : Type 0} ⦃d : Double F⦄ where
  infixl 65 ◌+◌ ◌-◌
  infixl 70 ◌*◌ ◌/◌ ◌%◌
  abbrev pub ◌+◌ : F → F → F
  a + b = d.add a b

  abbrev pub ◌-◌ : F → F → F
  a - b = d.sub a b

  abbrev pub ◌*◌ : F → F → F
  a * b = d.mul a b

  abbrev pub ◌/◌ : F → F → F
  a / b = d.div a b

  abbrev pub ◌%◌ : F → F → F
  a % b = d.mod_by a b

  abbrev pub lit : ℕ → ℕ → F
  lit = d.lit

  -- 0.0
  abbrev pub nought : F
  nought = d.lit 0 0

  abbrev pub le : F → F → Bool
  le = d.le

  abbrev pub lt : F → F → Bool
  lt = d.lt

  -- Python's `max(a, b)` and `min(a, b)` keep the first argument unless the second beats it.
  abbrev pub max : F → F → F
  max a b = if d.lt a b then b else a

  abbrev pub min : F → F → F
  min a b = if d.lt b a then b else a
