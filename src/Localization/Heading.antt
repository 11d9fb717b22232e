-- ===== src/Localization/Heading.antt =====
-- rc_car/localization/heading_estimator.py. The estimator moves a `Motion` of which it reads the
-- wheel angle, the speed and the heading; before the first pose it has no heading.
use autonomous_rc_taxi.Prelude.{ℕ, Bool, true, false, not, Option, none, some, if◌then◌else◌}
use autonomous_rc_taxi.Floats.{Double, ◌+◌, ◌-◌, ◌*◌, ◌%◌, lit, nought, le}
use autonomous_rc_taxi.Result.{Result, ok, ◌>>=◌}
use autonomous_rc_taxi.Localization.Bicycle.{Bicycle, Motion, speed, integrate}

pub record HeadingEstimator (F : Type 0) : Type 0 where
  pub enabled : Bool
  pub course_min : F
  pub a_course : F
  pub a_marker : F
  pub model : Bicycle F
  pub initialized : Bool
  pub motion : Motion F
  pub ax : F
  pub ay : F
  pub t : F
  pub last_course_deg : Option F

module _ {F : Type 0} ⦃d : Double F⦄ where
  unfoldable pub blend_angle : F → F → F → F
  blend_angle current_deg target_deg alpha =
      (current_deg + alpha * ((target_deg - current_deg + lit 180 0) % lit 360 0 - lit 180 0))
      % lit 360 0

  abbrev with_heading : HeadingEstimator F → F → HeadingEstimator F
  with_heading e h = record e { motion = record e.motion { heading = h } }

  unfoldable pub reset : HeadingEstimator F → HeadingEstimator F
  reset e = record e {
    initialized = false;
    motion = record e.motion { heading = nought; wheel = nought; v = nought };
    ax = nought;
    ay = nought;
    t = nought;
    last_course_deg = none;
  }

  -- the first heading is the marker's
  start : HeadingEstimator F → F → F → F → F → HeadingEstimator F
  start e x y marker now = record e {
    initialized = true;
    motion = record e.motion { heading = marker % lit 360 0 };
    ax = x;
    ay = y;
    t = now;
  }

  abbrev moved : ℕ → HeadingEstimator F → F → F → F → Result (HeadingEstimator F)
  moved rounds e throttle wheel_cmd_deg now = do
    target_v ← speed e.model throttle
    m ← integrate e.model target_v wheel_cmd_deg rounds (now - e.t) e.motion
    ok (record e { motion = record m { heading = m.heading % lit 360 0 }; t = now })

  unfoldable pub propagate : ℕ → HeadingEstimator F → F → F → F → Result (HeadingEstimator F)
  propagate rounds e throttle wheel_cmd_deg now =
      let later = moved rounds e throttle wheel_cmd_deg now in if le now e.t then ok e else later

  -- the course is mixed in after a long enough way, the marker's heading before
  blended : HeadingEstimator F → F → F → F → HeadingEstimator F
  unfolding blend_angle
  blended e x y marker =
      let dx = x - e.ax in
      let dy = y - e.ay in
      let course = d.degrees (d.atan2 dy dx) % lit 360 0 in
      if le e.course_min (d.hypot dx dy)
      then record (with_heading e (blend_angle e.motion.heading course e.a_course)) {
        last_course_deg = some course;
        ax = x;
        ay = y;
      }
      else with_heading e (blend_angle e.motion.heading marker e.a_marker)

  -- the estimator, and the heading
  unfoldable pub update :
      ℕ → HeadingEstimator F → F → F → F → F → F → F → Result (HeadingEstimator F × F)
  unfolding start blended
  update rounds e x y marker throttle wheel_cmd_deg now =
      let first = start e x y marker now in
      let later = propagate rounds e throttle wheel_cmd_deg now >>= λ e'.
      let b = blended e' x y marker in ok (b, b.motion.heading) in
      if not e.enabled
      then ok (e, marker)
      else if not e.initialized
      then ok (first, first.motion.heading)
      else later
