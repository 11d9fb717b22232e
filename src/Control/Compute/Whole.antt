-- ===== src/Control/Compute/Whole.antt =====
-- Whole drives of rc_car/control/lane_follower.py: a route is set, and `compute` is called on and on.
use autonomous_rc_taxi.Prelude.{
  suc, ◌<◌, ◌≡◌, refl, subst, some, arith, List, [], ◌∷◌, length, All, ap,
}
use autonomous_rc_taxi.Floats.{Double}
use autonomous_rc_taxi.Floats.Laws.{IsOrdered, IsAdditive}
use autonomous_rc_taxi.Result.{ok, >>=-eq-ok, ok-injective}
use autonomous_rc_taxi.Core.Models.{ControlCommand}
use autonomous_rc_taxi.Navigation.Planner.{Route}
use autonomous_rc_taxi.Navigation.LaneRoute.{LaneRoute, from_route}
use autonomous_rc_taxi.Control.Follower.{
  LaneFollower, FollowerConfig, set_route, install_route, reset_state,
}
use autonomous_rc_taxi.Control.Steer.Bounds.{Within}
use autonomous_rc_taxi.Control.Corner.{Senses}
use autonomous_rc_taxi.Control.Compute.{compute, compute_on, compute_with, compute_all}
use autonomous_rc_taxi.Control.Compute.Ready.{IsDrivable, IsConfigured, IsReady}
use autonomous_rc_taxi.Control.Compute.Runs.{compute_on-Good}
use autonomous_rc_taxi.Control.Compute.Installed.{from_route-IsDrivable}

module _ {F : Type 0} ⦃d : Double F⦄ where
  abbrev pub WheelWithin : F → ControlCommand F → Type 0
  WheelWithin m c = Within m c.steering_wheel_deg

  -- a route that was set is ready for the first call
  pub set_route-IsReady :
      (m : F) (s0 : LaneFollower F) (route : Route F) {s : LaneFollower F}
      → set_route s0 route ≡ ok s
      → (r : LaneRoute F) × IsDrivable r × IsReady m r s
  unfolding set_route install_route reset_state
  set_route-IsReady m s0 route h =
      let (r, e, h1) = >>=-eq-ok (from_route route) _ h in
      let drivable = from_route-IsDrivable route e in
      let first : 0 < length r.legs = omega (arith, drivable.1) in
      let ready : IsReady m r (install_route s0 r) = (first, tt, tt, tt, refl) in
      (r, drivable, subst (IsReady m r) (ok-injective h1) ready)

  pub compute-compute_on :
      (k : FollowerConfig F) (w : Senses F) (r : LaneRoute F) (s : LaneFollower F)
      → s.route ≡ some r
      → compute k w s ≡ compute_on k w r s
  unfolding compute
  compute-compute_on k w r s h = ap (compute_with k w s) h

module _ {F : Type 0} ⦃d : Double F⦄ (laws : IsOrdered F) (sums : IsAdditive F)
    (k : FollowerConfig F) (c : IsConfigured k) where
  compute_all-Good :
      (r : LaneRoute F)
      → IsDrivable r
      → (ws : List (Senses F)) (s : LaneFollower F) → IsReady k.max_wheel r s
      → (cmds : List (ControlCommand F)) × (last : LaneFollower F) × (compute_all k ws s
          ≡ ok (cmds, last))
        × (length cmds ≡ length ws)
        × All (WheelWithin k.max_wheel) cmds
  unfolding compute_all
  compute_all-Good r drivable [] s ready = ([], s, refl, refl, tt)
  compute_all-Good r drivable (w ∷ ws) s ready =
      let (((cmd, remaining), s'), e, (within, ready')) =
        compute_on-Good laws sums k c r drivable w s ready in
      let e1 = compute-compute_on k w r s ready.4 in
      let (cmds, last, e2, count, good) = compute_all-Good r drivable ws s' ready' in
      (cmd ∷ cmds, last, rw (e1, e, e2) refl, ap suc count, (within, good))

  -- Once `set_route` has accepted a route, every sequence of calls of `compute`, whatever positions,
  -- headings, times, segmentation results and road marks they are given, returns: no call raises
  -- and none runs out of its rounds, there is one command for each call, and each wheel angle is
  -- within the limit. The divisors of the configuration are not 0, the limit is a finite number that
  -- is not negative and is the table's, and the steering step is a number.
  pub compute_all-total :
      (s0 : LaneFollower F) (route : Route F) {s : LaneFollower F}
      → set_route s0 route ≡ ok s
      → (ws : List (Senses F))
      → (cmds : List (ControlCommand F)) × (last : LaneFollower F) × (compute_all k ws s
          ≡ ok (cmds, last))
        × (length cmds ≡ length ws)
        × All (WheelWithin k.max_wheel) cmds
  compute_all-total s0 route {s = s} h ws =
      let (r, drivable, ready) = set_route-IsReady k.max_wheel s0 route h in
      compute_all-Good r drivable ws s ready
