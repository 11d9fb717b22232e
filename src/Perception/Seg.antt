-- ===== src/Perception/Seg.antt =====
-- rc_car/perception/seg_adapter.py. The segmentation model is third-party code; what its `latest`
-- gave is an argument of `observe`, `none` when it raised or gave None. The lock and the logs are
-- left out; a field that is no number is `none`.
pub mod Bounds
use autonomous_rc_taxi.Prelude.{
  ℕ, suc, Bool, true, false, not, ◌&&◌, ◌||◌, Option, none, some, if◌then◌else◌,
}
use autonomous_rc_taxi.Floats.{Double, ◌+◌, ◌-◌, ◌*◌, lit, nought, le, lt, min, max}

pub record SegObservation (F : Type 0) : Type 0 where
  pub valid : Bool
  pub lateral_offset_m : F
  pub heading_error_deg : F

pub record SegAdapter (F : Type 0) : Type 0 where
  pub k_off : F
  pub k_head : F
  pub max_corr : F
  pub freshness_max : F
  pub latest : SegObservation F
  pub invalid_streak : ℕ

-- the fields that the adapter reads of a result; `valid` is whether it is the value True
pub record SegResult (F : Type 0) : Type 0 where
  pub valid : Bool
  pub lateral_offset_m : Option F
  pub heading_error_deg : Option F
  pub timestamp : Option F

module _ {F : Type 0} ⦃d : Double F⦄ where
  abbrev pub invalid : SegObservation F
  invalid = record { valid = false; lateral_offset_m = nought; heading_error_deg = nought }

  checked : SegAdapter F → F → F → F → F → SegObservation F
  checked a now offset error ts =
      if not (d.is_finite offset && d.is_finite error) || le (lit 90 0) (d.abs error)
      then invalid
      else if lt a.freshness_max (now - ts)
      then invalid
      else record { valid = true; lateral_offset_m = offset; heading_error_deg = error }

  with_fields : SegAdapter F → F → Option F → Option F → Option F → SegObservation F
  unfolding checked
  with_fields a now (some offset) (some error) (some ts) = checked a now offset error ts
  with_fields a now _ _ _ = invalid

  unfoldable pub parse : SegAdapter F → F → Option (SegResult F) → SegObservation F
  unfolding with_fields
  parse a now none = invalid
  parse a now (some raw) =
      if raw.valid
      then with_fields a now raw.lateral_offset_m raw.heading_error_deg raw.timestamp
      else invalid

  unfoldable pub observe : SegAdapter F → F → Option (SegResult F) → SegAdapter F
  unfolding parse
  observe a now raw =
      let obs = parse a now raw in
      record a { latest = obs; invalid_streak = if obs.valid then 0 else suc a.invalid_streak }

  unfoldable pub correction_wheel_deg : SegAdapter F → SegObservation F → F
  correction_wheel_deg a obs =
      let corr = d.neg (a.k_off * obs.lateral_offset_m + a.k_head * obs.heading_error_deg) in
      if obs.valid then max (d.neg a.max_corr) (min a.max_corr corr) else nought
