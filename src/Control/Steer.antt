-- ===== src/Control/Steer.antt =====
-- rc_car/control/lane_follower.py: the heading that a straight leg trusts, and its wheel angle.
-- Dividing by 0 raises ZeroDivisionError.
pub mod Bounds
use autonomous_rc_taxi.Prelude.{
  ℕ, suc, Bool, true, false, not, ◌&&◌, ◌||◌, Option, none, some, is_some, List, [], ◌∷◌,
  if◌then◌else◌,
}
use autonomous_rc_taxi.Floats.{Double, ◌+◌, ◌-◌, ◌*◌, ◌/◌, lit, nought, le, lt, min, max}
use autonomous_rc_taxi.Result.{Result, ok, err, zero_division, ◌>>=◌}
use autonomous_rc_taxi.Mapping.Geometry.{Point, heading_diff_deg}
use autonomous_rc_taxi.Navigation.LaneRoute.{LaneLeg}
use autonomous_rc_taxi.Perception.Seg.{SegObservation}
use autonomous_rc_taxi.Control.Follower.{LaneFollower, FollowerConfig, among}
use autonomous_rc_taxi.Control.Path.{course_deg}
use autonomous_rc_taxi.Control.Aim.{leg_heading}

module _ {F : Type 0} ⦃d : Double F⦄ where
  abbrev pub divide : F → F → Result F
  divide a b = if d.eq b nought then err zero_division else ok (a / b)

  -- what is trusted, and whether the guard is on
  unfoldable pub trusted : FollowerConfig F → Bool → F → F → Option F → Bool × F
  trusted k never_gps lane_heading heading none =
      if never_gps then (true, lane_heading) else (false, heading)
  trusted k never_gps lane_heading heading (some course) =
      let gap = heading_diff_deg heading course in
      if never_gps
      then (true, course)
      else if le k.hdg_guard_deg nought || lt (d.abs gap) k.hdg_guard_deg
      then (false, heading)
      else (true, course)

  unfoldable pub trusted_heading :
      FollowerConfig F → LaneFollower F → LaneLeg F → F → F → LaneFollower F × F
  unfolding trusted
  trusted_heading k s leg lane_heading heading =
      let course = course_deg s.follow_path k.hdg_window in
      let (on, h) = trusted k (among leg.lane_num k.course_lanes) lane_heading heading course in
      (record s { hdg_guard_on = on }, h)

  unfoldable pub pursue_by :
      FollowerConfig F
      → LaneFollower F
      → LaneLeg F
      → F
      → F
      → Bool
      → Option (SegObservation F)
      → LaneFollower F × F
  unfolding trusted_heading
  pursue_by k s leg lane_heading heading listed none =
      trusted_heading k (record s { seg_hdg_on = false }) leg lane_heading heading
  pursue_by k s leg lane_heading heading listed (some obs) =
      if listed && obs.valid
      then (
        record s { seg_hdg_on = true; hdg_guard_on = false },
        lane_heading - obs.heading_error_deg,
      )
      else trusted_heading k (record s { seg_hdg_on = false }) leg lane_heading heading

  -- the heading that the pursuit steers by; `seg` is the adapter's latest observation
  unfoldable pub pursue_heading :
      FollowerConfig F
      → LaneFollower F
      → Option (SegObservation F)
      → LaneLeg F
      → F
      → F
      → LaneFollower F × F
  unfolding pursue_by
  pursue_heading k s seg leg lane_heading heading =
      pursue_by k s leg lane_heading heading (among leg.lane_num k.seg_hdg_lanes) seg

  -- `max(-m, min(m, w))`
  abbrev pub limited : F → F → F
  limited m w = max (d.neg m) (min m w)

  unfoldable pub pursue : FollowerConfig F → Point F → Point F → F → Result F
  pursue k t p heading = do
    let target = d.degrees (d.atan2 (t.y - p.y) (t.x - p.x))
    part ← divide (heading_diff_deg target heading) k.full_lock_err
    let wheel = d.neg k.max_wheel * max (d.neg (lit 1 0)) (min (lit 1 0) part)
    ok (limited k.max_wheel wheel)

  unfoldable pub limit_from : F → Option F → F → F
  limit_from step none wheel = wheel
  limit_from step (some before) wheel =
      if le step nought then wheel else max (before - step) (min (before + step) wheel)

  unfoldable pub rate_limit : FollowerConfig F → LaneFollower F → F → LaneFollower F × F
  unfolding limit_from
  rate_limit k s wheel =
      let w = limit_from k.steer_step s.last_wheel wheel in (record s { last_wheel = some w }, w)
