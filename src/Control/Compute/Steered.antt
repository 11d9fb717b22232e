-- ===== src/Control/Compute/Steered.antt =====
-- The command of a straight leg in rc_car/control/lane_follower.py.
use autonomous_rc_taxi.Prelude.{
  Bool, true, false, ◌≡◌, refl, Option, none, some, if-both, is_some, ◌&&◌,
}
use autonomous_rc_taxi.Floats.{Double}
use autonomous_rc_taxi.Floats.Laws.{IsOrdered, IsAdditive}
use autonomous_rc_taxi.Result.{ok}
use autonomous_rc_taxi.Core.Models.{ControlCommand}
use autonomous_rc_taxi.Mapping.Geometry.{Point}
use autonomous_rc_taxi.Navigation.LaneRoute.{LaneLeg}
use autonomous_rc_taxi.Perception.Seg.{SegObservation}
use autonomous_rc_taxi.Control.Follower.{
  LaneFollower, FollowerConfig, among, Phase, follow, armed, turning,
}
use autonomous_rc_taxi.Control.Aim.{leg_heading}
use autonomous_rc_taxi.Control.Steer.{
  pursue_heading, pursue_by, trusted_heading, pursue, limit_from, rate_limit,
}
use autonomous_rc_taxi.Control.Steer.Bounds.{
  Within, WithinIfAny, limited-Within, limit_from-Within, nought-Within,
}
use autonomous_rc_taxi.Control.Corner.{Senses, Driven}
use autonomous_rc_taxi.Control.Compute.{steer_leg, held, steer_phase, unarmed}
use autonomous_rc_taxi.Control.Compute.Ready.{IsConfigured}

module _ {F : Type 0} ⦃d : Double F⦄ where
  abbrev pub WritesFlags : LaneFollower F → LaneFollower F × F → Type 0
  WritesFlags s r =
      (on guard : Bool) × (h : F) × (r ≡ (record s { seg_hdg_on = on; hdg_guard_on = guard }, h))

  -- choosing a heading writes two flags
  pursue_by-WritesFlags :
      (k : FollowerConfig F) (s : LaneFollower F) (leg : LaneLeg F) (lane h : F) (listed : Bool)
      (seg : Option (SegObservation F))
      → WritesFlags s (pursue_by k s leg lane h listed seg)
  unfolding pursue_by trusted_heading
  pursue_by-WritesFlags k s leg lane h listed none = (false, _, _, refl)
  pursue_by-WritesFlags k s leg lane h listed (some obs) =
      if-both (WritesFlags s) (listed && obs.valid) (true, false, _, refl) (false, _, _, refl)

  pub pursue_heading-WritesFlags :
      (k : FollowerConfig F) (s : LaneFollower F) (seg : Option (SegObservation F))
      (leg : LaneLeg F) (lane h : F)
      → WritesFlags s (pursue_heading k s seg leg lane h)
  unfolding pursue_heading
  pursue_heading-WritesFlags k s seg leg lane h =
      pursue_by-WritesFlags k s leg lane h (among leg.lane_num k.seg_hdg_lanes) seg

  pursue-Within :
      (laws : IsOrdered F) (k : FollowerConfig F)
      → IsConfigured k
      → (t p : Point F) (h : F)
      → (wheel : F) × (pursue k t p h ≡ ok wheel) × Within k.max_wheel wheel
  unfolding pursue
  pursue-Within laws k c t p h = rw c.locks (_, refl, limited-Within laws k.max_wheel _ c.limit_pos)

  held-Within :
      (laws : IsOrdered F) (k : FollowerConfig F)
      → IsConfigured k
      → (leg : LaneLeg F) (s : LaneFollower F) (wheel : F) → Within k.max_wheel wheel
      → Within k.max_wheel (held k leg s wheel)
  held-Within laws k c leg s wheel h =
      if-both (Within k.max_wheel) _ (nought-Within laws k.max_wheel c.limit_pos) h

  -- what an answer of a leg satisfies: the wheel is within the limit, and of the state only flags
  -- and the wheel have changed
  abbrev pub Answers : F → LaneFollower F → Driven F → Type 0
  Answers m s r =
      (c : ControlCommand F) × (seg_ok on guard : Bool) × (r.command ≡ some c)
      × (r.after ≡ record s {
        seg_ok_now = seg_ok;
        seg_hdg_on = on;
        hdg_guard_on = guard;
        last_wheel = some c.steering_wheel_deg;
      })
      × Within m c.steering_wheel_deg

module _ {F : Type 0} ⦃d : Double F⦄ (laws : IsOrdered F) (sums : IsAdditive F)
    (k : FollowerConfig F) (c : IsConfigured k) where
  limited_wheel :
      (s : LaneFollower F) (wheel : F)
      → WithinIfAny k.max_wheel s.last_wheel
      → Within k.max_wheel wheel
      → Within k.max_wheel (limit_from k.steer_step s.last_wheel wheel)
  limited_wheel s wheel =
      limit_from-Within laws sums k.max_wheel k.steer_step s.last_wheel wheel c.limit_finite
        c.step_number

  unarmed-Answers :
      (w : Senses F) (leg : LaneLeg F) (is_final : Bool) (t : Point F) (remaining wheel : F)
      (s : LaneFollower F)
      → WithinIfAny k.max_wheel s.last_wheel
      → Within k.max_wheel wheel
      → (r : Driven F) × (unarmed k w leg is_final t remaining wheel s ≡ ok r)
        × Answers k.max_wheel s r
  unfolding unarmed rate_limit
  unarmed-Answers w leg is_final t remaining wheel s h within =
      rw c.speeds (_, refl, (_, _, _, _, refl, refl, limited_wheel s wheel h within))

  steer_phase-Answers :
      (ph : Phase) (w : Senses F) (leg : LaneLeg F) (is_final : Bool) (t : Point F)
      (remaining wheel : F) (s : LaneFollower F)
      → WithinIfAny k.max_wheel s.last_wheel
      → Within k.max_wheel wheel
      → (r : Driven F) × (steer_phase ph k w leg is_final t remaining wheel s ≡ ok r)
        × Answers k.max_wheel s r
  unfolding steer_phase rate_limit
  steer_phase-Answers follow w leg is_final t remaining wheel s h within =
      unarmed-Answers w leg is_final t remaining wheel s h within
  steer_phase-Answers turning w leg is_final t remaining wheel s h within =
      unarmed-Answers w leg is_final t remaining wheel s h within
  steer_phase-Answers armed w leg is_final t remaining wheel s h within =
      let straight =
        if-both (Within k.max_wheel) (is_some s.fired_at)
          (nought-Within laws k.max_wheel c.limit_pos) within in
      (_, refl, (_, _, _, _, refl, refl, limited_wheel s _ h straight))

  pub steer_leg-Answers :
      (w : Senses F) (leg : LaneLeg F) (is_final : Bool) (e : Point F × Point F) (t : Point F)
      (remaining : F) (s : LaneFollower F)
      → WithinIfAny k.max_wheel s.last_wheel
      → (r : Driven F) × (steer_leg k w leg is_final e t remaining s ≡ ok r)
        × Answers k.max_wheel s r
  unfolding steer_leg
  steer_leg-Answers w leg is_final e t remaining s h =
      let (on, guard, h', e1) =
        pursue_heading-WritesFlags k s w.seg leg (leg_heading e) w.heading_deg in
      let s' = record s { seg_hdg_on = on; hdg_guard_on = guard } in
      let (wheel, e2, within) = pursue-Within laws k c t w.at h' in
      let within' = held-Within laws k c leg s' wheel within in
      rw (e1, e2)
        (steer_phase-Answers s.phase w leg is_final t remaining (held k leg s' wheel) s' h within')
