-- ===== src/Control/Compute/Legs.antt =====
-- One call of `_drive_leg` in rc_car/control/lane_follower.py.
use autonomous_rc_taxi.Prelude.{ℕ, Bool, true, false, ◌≡◌, Option, none, some, arith, List}
use autonomous_rc_taxi.Floats.{Double, le}
use autonomous_rc_taxi.Mapping.Geometry.{Point}
use autonomous_rc_taxi.Navigation.LaneRoute.{LaneLeg, LaneRoute}
use autonomous_rc_taxi.Navigation.TurnTable.{ResolvedTurn}
use autonomous_rc_taxi.Perception.Marks.{MarkAdapter}
use autonomous_rc_taxi.Control.Follower.{
  LaneFollower, FollowerConfig, Phase, follow, armed, turning,
}
use autonomous_rc_taxi.Control.Aim.{aim, exit_ahead, straight_gate_target, gate_from}
use autonomous_rc_taxi.Control.Steer.Bounds.{WithinIfAny}
use autonomous_rc_taxi.Control.Corner.{Senses, should_start_turn, start_with, by_vision, fire}
use autonomous_rc_taxi.Control.Compute.{prepare, arm_if, arm_within, final_stop, stop_if_final}

abbrev pub NotTurning : Phase → Type 0
NotTurning turning = ⊥
NotTurning follow = Unit
NotTurning armed = Unit

module _ {F : Type 0} ⦃d : Double F⦄ where
  -- what the parts of a call keep of its state
  abbrev pub OnLeg :
      F → ℕ → Option (ResolvedTurn F) → Option (LaneRoute F) → LaneFollower F → Type 0
  OnLeg m n spec ro s =
      (s.leg ≡ n)
      × NotTurning s.phase
      × (s.spec ≡ spec)
      × WithinIfAny m s.last_wheel
      × (s.route ≡ ro)

  gate_from-OnLeg :
      (m : F) (n : ℕ) (spec : Option (ResolvedTurn F)) (ro : Option (LaneRoute F))
      (k : FollowerConfig F) (s : LaneFollower F) (g : Option (Point F)) (p : Point F)
      → OnLeg m n spec ro s
      → OnLeg m n spec ro (gate_from k s g p).0
  unfolding gate_from
  gate_from-OnLeg m n spec ro k s none p h = h
  gate_from-OnLeg m n spec ro k s (some g) p h = ground (arith, h)

  pub aim-OnLeg :
      (m : F) (n : ℕ) (spec : Option (ResolvedTurn F)) (ro : Option (LaneRoute F))
      (k : FollowerConfig F) (s : LaneFollower F) (leg : LaneLeg F) (b : Bool)
      (e : Point F × Point F) (ts : Point F × List (Point F)) (p : Point F)
      → OnLeg m n spec ro s
      → OnLeg m n spec ro (aim k s leg b e ts p).0
  unfolding aim straight_gate_target
  aim-OnLeg m n spec ro k s leg b e ts p h = gate_from-OnLeg m n spec ro k s s.straight_gate p h

  pub stop_if_final-OnLeg :
      (m : F) (n : ℕ) (spec : Option (ResolvedTurn F)) (ro : Option (LaneRoute F)) (b : Bool)
      (k : FollowerConfig F) (e : Point F × Point F) (p : Point F) (remaining : F)
      (s : LaneFollower F)
      → OnLeg m n spec ro s
      → OnLeg m n spec ro (stop_if_final b k e p remaining s).0
  unfolding final_stop
  stop_if_final-OnLeg m n spec ro false k e p remaining s h = h
  stop_if_final-OnLeg m n spec ro true k e p remaining s h = ground (arith, h)

  by_vision-OnLeg :
      (m : F) (n : ℕ) (spec : Option (ResolvedTurn F)) (ro : Option (LaneRoute F))
      (s : LaneFollower F) (f : Option (Point F)) (t : ResolvedTurn F) (ahead now : F)
      → OnLeg m n spec ro s
      → OnLeg m n spec ro (by_vision s f t ahead now).0
  unfolding by_vision
  by_vision-OnLeg m n spec ro s none t ahead now h = h
  by_vision-OnLeg m n spec ro s (some f) t ahead now h = h

  fire-OnLeg :
      (m : F) (n : ℕ) (spec : Option (ResolvedTurn F)) (ro : Option (LaneRoute F))
      (s : LaneFollower F) (marks : MarkAdapter F) (t : ResolvedTurn F) (p : Point F) (now : F)
      → OnLeg m n spec ro s
      → OnLeg m n spec ro (fire s marks t p now)
  fire-OnLeg m n spec ro s marks t p now h = ground (arith, h)

  start_with-OnLeg :
      (m : F) (n : ℕ) (spec : Option (ResolvedTurn F)) (ro : Option (LaneRoute F))
      (marks : Option (MarkAdapter F)) (s : LaneFollower F) (t : ResolvedTurn F) (ahead : F)
      (p : Point F) (now : F)
      → OnLeg m n spec ro s
      → OnLeg m n spec ro (start_with marks s t ahead p now).0
  unfolding start_with
  start_with-OnLeg m n spec ro none s t ahead p now h = h
  start_with-OnLeg m n spec ro (some marks) s t ahead p now h =
      let s' = fire s marks t p now in
      let fired = fire-OnLeg m n spec ro s marks t p now h in
      ground (arith, h, by_vision-OnLeg m n spec ro s' s'.fired_at t ahead now fired)

  arm_if-OnLeg :
      (m : F) (n : ℕ) (spec : Option (ResolvedTurn F)) (ro : Option (LaneRoute F)) (b : Bool)
      (s : LaneFollower F)
      → OnLeg m n spec ro s
      → OnLeg m n spec ro (arm_if b s)
  arm_if-OnLeg m n spec ro b s h = ground (arith, h)

  pub prepare-OnLeg :
      (m : F) (n : ℕ) (spec : Option (ResolvedTurn F)) (ro : Option (LaneRoute F))
      (k : FollowerConfig F) (w : Senses F) (leg : LaneLeg F) (e : Point F × Point F)
      (t : ResolvedTurn F) (s : LaneFollower F)
      → OnLeg m n spec ro s
      → OnLeg m n spec ro (prepare k w leg e t s).0
  unfolding prepare should_start_turn
  prepare-OnLeg m n spec ro k w leg e t s h =
      let close = le (exit_ahead e w.at) (arm_within t leg s.straight_gate) in
      let armed_OnLeg = arm_if-OnLeg m n spec ro close s h in
      let started =
        start_with-OnLeg m n spec ro w.marks (arm_if close s) t (exit_ahead e w.at) w.at w.now
          armed_OnLeg in
      ground (arith, h, armed_OnLeg, started)
