-- ===== src/Runtime/Resting.antt =====
-- What one round of the driving worker (rc_car/behavior/driving_worker.py) makes of the motor,
-- whatever was written before it began.
use autonomous_rc_taxi.Prelude.{
  ap, ◌∙◌, Bool, true, false, arith, refl, ◌≡◌, ◌⊎◌, Option, ◌&&◌, not, is_some, if◌then◌else◌, inl,
  inr,
}
use autonomous_rc_taxi.Floats.{Double, nought}
use autonomous_rc_taxi.Floats.Laws.{IsOrdered}
use autonomous_rc_taxi.Result.{Result, ok, err}
use autonomous_rc_taxi.Core.Enums.{
  DrivingState, boot, waiting, planning, following_route, approaching_destination, arrived, error,
  approaching_stop_line, stopped_at_line, crossing_intersection, obstacle_wait, is_driving,
}
use autonomous_rc_taxi.Core.Models.{stop_command}
use autonomous_rc_taxi.Safety.Supervisor.{latch_stop}
use autonomous_rc_taxi.Network.Policy.{state}
use autonomous_rc_taxi.Network.Policy.Rest.{IsAtRest}
use autonomous_rc_taxi.Perception.Seg.{SegObservation}
use autonomous_rc_taxi.Perception.Marks.{MarkAdapter}
use autonomous_rc_taxi.Control.Follower.{LaneFollower}
use autonomous_rc_taxi.Behavior.Driving.{Drive, output, snapshot}
use autonomous_rc_taxi.Behavior.Driving.Kept as DriveKept
use autonomous_rc_taxi.Behavior.Driving.Tick.{tick as drive, tick_idle, tick_in, cleared}
use autonomous_rc_taxi.Runtime.{
  RuntimeSetup, Runtime, driving, driven, drive_of, control_round, worker_error,
}
use autonomous_rc_taxi.Runtime.Sound.{put_out-IsAtRest, drive-IsAtRest}

module _ {F H : Type 0} ⦃d : Double F⦄ (k : RuntimeSetup F H) (laws : IsOrdered F) (now : F)
    (seg : Option (SegObservation F)) (marks : Option (MarkAdapter F)) where
  abbrev Answer : Type 0
  Answer = Result (Unit {0}) × Drive F (LaneFollower F)

  -- outside of the driving states a tick puts the stop command out
  tick_idle-IsAtRest :
      (w : Drive F (LaneFollower F)) → IsAtRest (tick_idle (driving k now seg marks) w).1.vehicle
  unfolding tick_idle output
  tick_idle-IsAtRest w =
      let k' = driving k now seg marks in
      let dropped = not (is_some (snapshot k' w).mission) && k'.follower.has_route w.route in
      put_out-IsAtRest laws k.limits (if dropped then cleared k' w else w).vehicle stop_command

  driving-IsAtRest :
      (sent : F) (corr : Option F) (s : DrivingState) (w : Drive F (LaneFollower F))
      → is_driving s ≡ true
      → state w.vehicle ≡ s
      → IsAtRest (tick_in (driving k now seg marks) now sent corr s w).1.vehicle
  driving-IsAtRest sent corr s w on e =
      DriveKept.tick_in-Holds IsAtRest (driving k now seg marks) (drive-IsAtRest k laws) now sent
        corr s w e (inl (ap is_driving e ∙ on))

  tick_in-IsAtRest :
      (sent : F) (corr : Option F) (s : DrivingState) (w : Drive F (LaneFollower F))
      → state w.vehicle ≡ s
      → IsAtRest (tick_in (driving k now seg marks) now sent corr s w).1.vehicle
  tick_in-IsAtRest sent corr boot w e = tick_idle-IsAtRest w
  tick_in-IsAtRest sent corr waiting w e = tick_idle-IsAtRest w
  tick_in-IsAtRest sent corr planning w e = driving-IsAtRest sent corr planning w refl e
  tick_in-IsAtRest sent corr following_route w e =
      driving-IsAtRest sent corr following_route w refl e
  tick_in-IsAtRest sent corr approaching_destination w e =
      driving-IsAtRest sent corr approaching_destination w refl e
  tick_in-IsAtRest sent corr arrived w e = tick_idle-IsAtRest w
  tick_in-IsAtRest sent corr error w e = tick_idle-IsAtRest w
  tick_in-IsAtRest sent corr approaching_stop_line w e = tick_idle-IsAtRest w
  tick_in-IsAtRest sent corr stopped_at_line w e = tick_idle-IsAtRest w
  tick_in-IsAtRest sent corr crossing_intersection w e = tick_idle-IsAtRest w
  tick_in-IsAtRest sent corr obstacle_wait w e = tick_idle-IsAtRest w

  tick-IsAtRest :
      (sent : F) (corr : Option F) (w : Drive F (LaneFollower F))
      → IsAtRest (drive (driving k now seg marks) now sent corr w).1.vehicle
  unfolding drive
  tick-IsAtRest sent corr w = tick_in-IsAtRest sent corr (state w.vehicle) w refl

  -- a raise latches the stop
  driven-IsAtRest :
      (started : F) (out : Answer) (r : Runtime F)
      → IsAtRest out.1.vehicle
      → IsAtRest (driven started out r).service.vehicle
  unfolding worker_error latch_stop autonomous_rc_taxi.Safety.Supervisor.force_stop
  driven-IsAtRest started (err e, w) r h = inr refl
  driven-IsAtRest started (ok u, w) r h = h

  if_busy :
      (b : Bool) (r t : Runtime F)
      → b ≡ true
      → IsAtRest r.service.vehicle
      → IsAtRest (if b then r else t).service.vehicle
  if_busy true r t busy h = h
  if_busy false r t busy h = absurd (ground (arith, busy))

  -- A round of the driving worker in which no other thread writes leaves the motor at rest or the
  -- vehicle in a driving state, whatever state, reasons, latch and throttle it finds, and whether its
  -- tick returns or raises: a throttle that is on outside of the driving states ends with the round.
  pub round_rests :
      (started sent : F) (corr : Option F) (r : Runtime F)
      → r.in_round ≡ true
      → let t = control_round (driving k now seg marks) started now sent corr r in
        (is_driving (state t.service.vehicle) ≡ true)
        ⊎ (t.service.vehicle.plant.motor.throttle ≡ nought)
  unfolding control_round
  round_rests started sent corr r busy =
      if_busy r.in_round
        (driven started (drive (driving k now seg marks) now sent corr (drive_of r)) r) r busy
        (driven-IsAtRest started (drive (driving k now seg marks) now sent corr (drive_of r)) r
          (tick-IsAtRest sent corr (drive_of r)))
