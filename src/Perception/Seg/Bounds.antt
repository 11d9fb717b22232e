-- ===== src/Perception/Seg/Bounds.antt =====
-- How far the segmentation can turn the wheel.
use autonomous_rc_taxi.Prelude.{true, false, ◌≡◌, Option, some, ◌&&◌}
use autonomous_rc_taxi.Floats.{Double, ◌-◌, lit, le, lt}
use autonomous_rc_taxi.Perception.Seg.{SegAdapter, SegResult, SegObservation}

module _ {F : Type 0} ⦃d : Double F⦄ where
  -- a valid observation repeats the fields of its result: the numbers are finite, the angle is below
  -- 90 degrees and the result is fresh
  abbrev pub Made : SegAdapter F → F → Option F → Option F → Option F → SegObservation F → Type 0
  Made a now offset error ts obs =
      (t : F) × (offset ≡ some obs.lateral_offset_m)
      × (error ≡ some obs.heading_error_deg)
      × (ts ≡ some t)
      × (d.is_finite obs.lateral_offset_m && d.is_finite obs.heading_error_deg ≡ true)
      × (le (lit 90 0) (d.abs obs.heading_error_deg) ≡ false)
      × (lt a.freshness_max (now - t) ≡ false)

  abbrev pub IsFresh : SegAdapter F → F → SegResult F → SegObservation F → Type 0
  IsFresh a now r obs =
      (r.valid ≡ true) × Made a now r.lateral_offset_m r.heading_error_deg r.timestamp obs
