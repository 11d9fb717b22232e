-- ===== src/Control/Compute/Runs.antt =====
-- Runs of `compute` in rc_car/control/lane_follower.py.
use autonomous_rc_taxi.Prelude.{
  Bool, true, false, ◌≡◌, refl, Option, none, some, get_elem-All, is_some, if◌then◌else◌,
}
use autonomous_rc_taxi.Floats.{Double}
use autonomous_rc_taxi.Floats.Laws.{IsOrdered, IsAdditive}
use autonomous_rc_taxi.Result.{ok}
use autonomous_rc_taxi.Core.Models.{ControlCommand, stop_command}
use autonomous_rc_taxi.Mapping.Geometry.{Point}
use autonomous_rc_taxi.Navigation.LaneRoute.{LaneRoute}
use autonomous_rc_taxi.Navigation.TurnTable.{value_or}
use autonomous_rc_taxi.Control.Follower.{
  LaneFollower, FollowerConfig, Phase, follow, armed, turning,
}
use autonomous_rc_taxi.Control.Steer.Bounds.{Within, nought-Within}
use autonomous_rc_taxi.Control.Corner.{Senses}
use autonomous_rc_taxi.Control.Compute.{
  compute_on, accumulate_travel, finished, apply_throttle_rules, hold_exit, hold_exit_if, on_track,
  on_track_if, travelled, travelled_if,
}
use autonomous_rc_taxi.Control.Compute.Ready.{
  IsDrivable, IsConfigured, Pointed, IsReady, CommandWithin,
}
use autonomous_rc_taxi.Control.Compute.Total.{driven_in-Drives}

module _ {F : Type 0} ⦃d : Double F⦄ (m : F) (r : LaneRoute F) (k : FollowerConfig F) where
  on_track_if-IsReady :
      (b : Bool) (s : LaneFollower F) (p : Point F)
      → IsReady m r s
      → IsReady m r (on_track_if b k s p)
  on_track_if-IsReady true s p h = h
  on_track_if-IsReady false s p h = h

  on_track-IsReady :
      (s : LaneFollower F) (p : Point F) → IsReady m r s → IsReady m r (on_track k s p)
  on_track-IsReady s p h = on_track_if-IsReady _ s p h

  travelled_if-IsReady :
      (b : Bool) (s : LaneFollower F) (p : Point F)
      → IsReady m r s
      → IsReady m r (travelled_if b k s p)
  travelled_if-IsReady true s p h = h
  travelled_if-IsReady false s p h = on_track-IsReady s p h

  travelled-IsReady :
      (ph : Phase) (s : LaneFollower F) (p : Point F)
      → IsReady m r s
      → IsReady m r (travelled k ph s p)
  travelled-IsReady turning s p h = travelled_if-IsReady (is_some s.last_pos) s p h
  travelled-IsReady follow s p h = on_track-IsReady s p h
  travelled-IsReady armed s p h = on_track-IsReady s p h

  accumulate_travel-IsReady :
      (s : LaneFollower F) (p : Point F) → IsReady m r s → IsReady m r (accumulate_travel k s p)
  unfolding accumulate_travel
  accumulate_travel-IsReady s p h = travelled-IsReady s.phase s p h

  hold_exit_if-IsReady :
      (b : Bool) (throttle : F) (h : LaneFollower F × F)
      → IsReady m r h.0
      → IsReady m r (hold_exit_if b throttle h).0
  hold_exit_if-IsReady true throttle h ready = ready
  hold_exit_if-IsReady false throttle h ready = ready

  hold_exit-IsReady :
      (p : Point F) (e : Option (Point F)) (h : LaneFollower F × F)
      → IsReady m r h.0
      → IsReady m r (hold_exit k p e h).0
  unfolding hold_exit
  hold_exit-IsReady p none h ready = ready
  hold_exit-IsReady p (some e) h ready = hold_exit_if-IsReady _ k.turn h ready

  same_wheel :
      (b : Bool) (c : ControlCommand F) (t : F)
      → (if b then c else record c { throttle = t }).steering_wheel_deg ≡ c.steering_wheel_deg
  same_wheel true c t = refl
  same_wheel false c t = refl

  -- what a call's answer satisfies
  abbrev pub Good : (ControlCommand F × F) × LaneFollower F → Type 0
  Good ((cmd, remaining), s) = Within m cmd.steering_wheel_deg × IsReady m r s

  finished-Good :
      (laws : IsOrdered F) (origin p : Point F) (remaining : F) (s : LaneFollower F)
      (cmd : Option (ControlCommand F))
      → Within m (stop_command {F = F}).steering_wheel_deg
      → CommandWithin m cmd
      → IsReady m r s
      → Good (finished k origin p remaining s cmd)
  unfolding apply_throttle_rules
  finished-Good laws origin p remaining s none zero_ok within ready = (zero_ok, ready)
  finished-Good laws origin p remaining s (some cmd) zero_ok within ready =
      (rw (same_wheel _ cmd _) within, hold_exit-IsReady p s.exit_hold_from _ ready)

module _ {F : Type 0} ⦃d : Double F⦄ (laws : IsOrdered F) (sums : IsAdditive F)
    (k : FollowerConfig F) (c : IsConfigured k) (r : LaneRoute F) (drivable : IsDrivable r) where
  pub compute_on-Good :
      (w : Senses F) (s : LaneFollower F)
      → IsReady k.max_wheel r s
      → (a : (ControlCommand F × F) × LaneFollower F) × (compute_on k w r s ≡ ok a)
        × Good k.max_wheel r k a
  unfolding compute_on
  compute_on-Good w s ready =
      let origin = value_or w.at s.origin in
      let s0 = record s { origin = some origin } in
      let s1 = accumulate_travel k s0 w.at in
      let ready1 = accumulate_travel-IsReady k.max_wheel r k s0 w.at ready in
      let (l, e1, points) = get_elem-All Pointed r.legs s1.leg drivable.0 ready1.0 in
      let (a, e2, within, ready2) =
        driven_in-Drives laws sums k c r drivable w s1.phase s1 refl ready1 in
      rw (e1, e2)
        (
          _,
          refl,
          finished-Good k.max_wheel r k laws origin w.at a.remaining a.after a.command
              (nought-Within laws k.max_wheel c.limit_pos) within ready2,
        )
