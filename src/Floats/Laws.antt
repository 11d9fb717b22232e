-- ===== src/Floats/Laws.antt =====
-- The behaviour of `float` comparisons and signs that the theorems rely on. All of it holds of IEEE
-- doubles: a NaN is a value that is not `<=` itself, and every order fact is stated away from it.
use autonomous_rc_taxi.Prelude.{ℕ, ◌≡◌, true, false, not, ◌⊎◌, arith}
use autonomous_rc_taxi.Floats.{Double, ◌+◌, ◌-◌, nought, le, lt, min, max}

infix 4 ◌≼◌
abbrev pub ◌≼◌ : {F : Type 0} ⦃d : Double F⦄ → F → F → Type 0
x ≼ y = le x y ≡ true

-- not a NaN
abbrev pub IsNumber : {F : Type 0} ⦃d : Double F⦄ → F → Type 0
IsNumber x = x ≼ x

pub record IsOrdered (F : Type 0) ⦃d : Double F⦄ : Type 0 where
  pub number_of_le : (x y : F) → x ≼ y → IsNumber x × IsNumber y
  pub number_of_lt : (x y : F) → lt x y ≡ true → IsNumber x × IsNumber y
  pub le_trans : (x y z : F) → x ≼ y → y ≼ z → x ≼ z
  pub le_total : (x y : F) → IsNumber x → IsNumber y → (x ≼ y) ⊎ (y ≼ x)
  pub lt-eq-not-le : (x y : F) → IsNumber x → IsNumber y → lt x y ≡ not (le y x)
  pub lit_nonneg : (m k : ℕ) → d.lit 0 0 ≼ d.lit m k
  pub neg_nonpos : (x : F) → nought ≼ x → d.neg x ≼ nought
  pub abs_nonneg : (x : F) → IsNumber x → nought ≼ d.abs x
  pub abs_of_nonneg : (x : F) → nought ≼ x → d.abs x ≡ x
  pub add_nonneg : (x y : F) → nought ≼ x → nought ≼ y → nought ≼ x + y

-- Sums with a finite number; a finite sum cannot be a NaN.
pub record IsAdditive (F : Type 0) ⦃d : Double F⦄ : Type 0 where
  pub finite_between :
      (lo x hi : F)
      → d.is_finite lo ≡ true
      → d.is_finite hi ≡ true
      → lo ≼ x
      → x ≼ hi
      → d.is_finite x ≡ true
  pub finite_neg : (x : F) → d.is_finite x ≡ true → d.is_finite (d.neg x) ≡ true
  pub le_add : (x y : F) → d.is_finite x ≡ true → nought ≼ y → x ≼ x + y
  pub sub_le : (x y : F) → d.is_finite x ≡ true → nought ≼ y → x - y ≼ x

module _ {F : Type 0} ⦃d : Double F⦄ (laws : IsOrdered F) where
  open laws use {number_of_le, number_of_lt, le_trans, le_total, lt-eq-not-le}

  -- A value that is no NaN is clamped into [lo, hi]: min(max(x, lo), hi).
  pub clamp_bounds :
      (x lo hi : F) → IsNumber x → lo ≼ hi → (lo ≼ min (max x lo) hi) × (min (max x lo) hi ≼ hi)
  clamp_bounds x lo hi num h = ground (
    arith,
    number_of_le lo hi h,
    lt-eq-not-le x lo,
    lt-eq-not-le hi x,
    lt-eq-not-le hi lo,
    le_total x lo,
    le_total x hi,
  )

  pub lt_trans : (x y z : F) → lt x y ≡ true → lt y z ≡ true → lt x z ≡ true
  lt_trans x y z h k = ground (
    arith,
    number_of_lt x y h,
    number_of_lt y z k,
    lt-eq-not-le x y,
    lt-eq-not-le y z,
    lt-eq-not-le x z,
    le_total x y,
    le_trans z x y,
  )

  pub lt_irrefl : (x : F) → lt x x ≡ false
  lt_irrefl x = ground (arith, number_of_lt x x, lt-eq-not-le x x)
