-- ===== src/Perception/Marks.antt =====
-- rc_car/perception/vision_marks.py: the road marks that trigger a turn. What the source gave is an
-- argument of `observe`, `none` when it raised or gave no dictionary. A payload's field is `none`
-- where the code's type test or `float` refuses it, but a vehicle's axis that is no number, and
-- detections that are no list, raise out of `observe` there: such payloads, the lock, the logs and
-- the file source are left out.
pub mod Seen
use text.Mathlib.Text.{◌==◌ as str_eq}
use autonomous_rc_taxi.Prelude.{
  Bool, true, false, not, ◌&&◌, ◌||◌, String, Option, none, some, List, [], ◌∷◌, if◌then◌else◌,
}
use autonomous_rc_taxi.Floats.{Double, ◌+◌, ◌-◌, ◌*◌, ◌/◌, lit, nought, le, lt}
use autonomous_rc_taxi.Navigation.TurnTable.{TriggerSpec}

pub record Mark (F : Type 0) : Type 0 where
  pub cls : String
  pub conf : F
  pub bottom_px : F
  pub center_x_px : F

pub record MarkObservation (F : Type 0) : Type 0 where
  pub valid : Bool
  pub marks : List (Mark F)
  pub height_px : F
  pub pixels_per_meter : F
  pub axis_px : F

-- a detection with a box of four numbers, a non-empty class and a number `conf`; `none` is one that
-- the code skips for its form
pub record Detection (F : Type 0) : Type 0 where
  pub cls : String
  pub conf : F
  pub x1 : F
  pub x2 : F
  pub y2 : F

pub record Payload (F : Type 0) : Type 0 where
  pub timestamp : Option F
  pub birdseye_size : Option (F × F)
  pub pixels_per_meter : Option F
  pub vehicle_axis_px : Option F
  pub detections : List (Option (Detection F))

pub record MarkAdapter (F : Type 0) : Type 0 where
  pub freshness_max : F
  pub axis_override : Option F
  pub latest : MarkObservation F

abbrev same_class : Option String → String → Bool
same_class none c = false
same_class (some s) c = str_eq c s

-- a spec without a class never fires
abbrev pub of_class : Option String → Bool → Bool
of_class none b = false
of_class (some c) b = b

module _ {F : Type 0} ⦃d : Double F⦄ where
  unfoldable pub lateral_m : MarkObservation F → Mark F → F
  lateral_m o m =
      if le o.pixels_per_meter nought
      then nought
      else d.abs (m.center_x_px - o.axis_px) / o.pixels_per_meter

  -- what one round of the loop answers
  unfoldable pub counts : MarkObservation F → TriggerSpec F → Mark F → Bool
  counts o spec m =
      same_class spec.cls m.cls
      && not (lt m.conf spec.min_conf)
      && not (lt m.bottom_px (o.height_px * spec.near_row_frac))
      && not (lt spec.max_lateral_m (lateral_m o m))

  unfoldable pub any_counts : MarkObservation F → TriggerSpec F → List (Mark F) → Bool
  unfolding counts
  any_counts o spec [] = false
  any_counts o spec (m ∷ ms) = counts o spec m || any_counts o spec ms

  abbrev pub seen : MarkObservation F → TriggerSpec F → Bool
  seen o spec = if not o.valid || le o.height_px nought then false else any_counts o spec o.marks

  unfoldable pub triggered : MarkAdapter F → TriggerSpec F → Bool
  triggered a spec = of_class spec.cls (seen a.latest spec)

  abbrev pub invalid : MarkObservation F
  invalid = record {
    valid = false;
    marks = [];
    height_px = nought;
    pixels_per_meter = nought;
    axis_px = nought;
  }

  marks_of : List (Option (Detection F)) → List (Mark F)
  marks_of [] = []
  marks_of (none ∷ ds) = marks_of ds
  marks_of (some b ∷ ds) =
      let rest = marks_of ds in
      let mark : Mark F = record {
        cls = b.cls;
        conf = b.conf;
        bottom_px = b.y2;
        center_x_px = (b.x1 + b.x2) / lit 2 0;
      } in
      if d.is_finite b.x1 && d.is_finite b.x2 && d.is_finite b.y2 then mark ∷ rest else rest

  -- the override, else the published axis, else the middle
  abbrev axis_of : Option F → Option F → F → F
  axis_of (some a) published width = a
  axis_of none (some a) width = a
  axis_of none none width = width / lit 2 0

  sized : MarkAdapter F → Payload F → F → F → F → MarkObservation F
  unfolding marks_of
  sized a p ppm width height = if le width nought || le height nought then invalid else record {
    valid = true;
    marks = marks_of p.detections;
    height_px = height;
    pixels_per_meter = ppm;
    axis_px = axis_of a.axis_override p.vehicle_axis_px width;
  }

  measured : MarkAdapter F → Payload F → Option (F × F) → Option F → MarkObservation F
  unfolding sized
  measured a p (some (width, height)) (some ppm) = sized a p ppm width height
  measured a p _ _ = invalid

  timed : MarkAdapter F → F → Payload F → Option F → MarkObservation F
  unfolding measured
  timed a now p none = invalid
  timed a now p (some ts) =
      if lt a.freshness_max (now - ts)
      then invalid
      else measured a p p.birdseye_size p.pixels_per_meter

  unfoldable pub parse : MarkAdapter F → F → Option (Payload F) → MarkObservation F
  unfolding timed
  parse a now none = invalid
  parse a now (some p) = timed a now p p.timestamp

  unfoldable pub observe : MarkAdapter F → F → Option (Payload F) → MarkAdapter F
  unfolding parse
  observe a now p = record a { latest = parse a now p }
