-- ===== src/Control/Steer/Bounds.antt =====
-- The wheel angles of rc_car/control/lane_follower.py stay within the limit.
use autonomous_rc_taxi.Prelude.{true, false, ◌≡◌, Option, none, some, arith, inl, inr, Bool-cases}
use autonomous_rc_taxi.Floats.{Double, ◌+◌, ◌-◌, nought, le, min, max}
use autonomous_rc_taxi.Floats.Laws.{IsOrdered, IsAdditive, ◌≼◌, IsNumber}
use autonomous_rc_taxi.Control.Steer.{limited, limit_from}

module _ {F : Type 0} ⦃d : Double F⦄ where
  abbrev pub Within : F → F → Type 0
  Within m w = (d.neg m ≼ w) × (w ≼ m)

  -- what an optional wheel angle has to satisfy
  abbrev pub WithinIfAny : F → Option F → Type 0
  WithinIfAny m none = Unit
  WithinIfAny m (some w) = Within m w

module _ {F : Type 0} ⦃d : Double F⦄ (laws : IsOrdered F) where
  open laws use {number_of_le, number_of_lt, le_trans, le_total, lt-eq-not-le, neg_nonpos}

  pub neg_le_self : (m : F) → nought ≼ m → d.neg m ≼ m
  neg_le_self m h = le_trans (d.neg m) nought m (neg_nonpos m h) h

  pub limited-Within : (m w : F) → nought ≼ m → Within m (limited m w)
  limited-Within m w h = ground (
    arith,
    neg_le_self m h,
    number_of_le nought m h,
    number_of_le (d.neg m) m,
    number_of_lt w m,
    number_of_lt (d.neg m) w,
    lt-eq-not-le w m,
    lt-eq-not-le (d.neg m) w,
    lt-eq-not-le (d.neg m) m,
    le_total w m,
    le_total (d.neg m) w,
  )

  pub nought-Within : (m : F) → nought ≼ m → Within m nought
  nought-Within m h = (neg_nonpos m h, h)

module _ {F : Type 0} ⦃d : Double F⦄ (laws : IsOrdered F) (sums : IsAdditive F) where
  open laws use {number_of_le, number_of_lt, le_trans, le_total, lt-eq-not-le}
  open sums use {finite_between, finite_neg, le_add, sub_le}

  -- max(before - step, min(before + step, w))
  between_steps :
      (m before step w : F)
      → d.is_finite m ≡ true
      → nought ≼ step
      → Within m before
      → Within m w
      → Within m (max (before - step) (min (before + step) w))
  between_steps m before step w fin pos (lo, hi) (lo', hi') =
      let f = finite_between (d.neg m) before m (finite_neg m fin) fin lo hi in
      let up = le_add before step f pos in
      let down = sub_le before step f pos in
      let lo_up = le_trans (d.neg m) before (before + step) lo up in
      let down_hi = le_trans (before - step) before m down hi in
      ground (
        arith,
        number_of_le before (before + step) up,
        number_of_le (before - step) before down,
        number_of_le (d.neg m) w lo',
        lt-eq-not-le w (before + step),
        lt-eq-not-le (before - step) (before + step),
        lt-eq-not-le (before - step) w,
        le_total (before - step) w,
        le_total (before - step) (before + step),
        le_total w (before + step),
        le_trans (before + step) w m,
        le_trans (d.neg m) w (before - step),
        le_trans (d.neg m) (before + step) (before - step),
      )

  positive : (x : F) → IsNumber x → le x nought ≡ false → nought ≼ x
  positive x num h = ground (arith, le_total nought x, laws.lit_nonneg 0 0)

  pub limit_from-Within :
      (m step : F) (before : Option F) (w : F)
      → d.is_finite m ≡ true
      → IsNumber step
      → WithinIfAny m before
      → Within m w
      → Within m (limit_from step before w)
  unfolding limit_from
  limit_from-Within m step none w fin num h h' = h'
  limit_from-Within m step (some before) w fin num h h' = elim (Bool-cases (le step nought)) [
    | inl e ↦ rw e h'
    | inr n ↦ rw n (between_steps m before step w fin (positive step num n) h h')
  ]
