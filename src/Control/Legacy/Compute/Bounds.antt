-- ===== src/Control/Legacy/Compute/Bounds.antt =====
-- A whole drive with the follower of rc_car/control/legacy/waypoint_follower.py.
use autonomous_rc_taxi.Prelude.{
  false, not, ◌&&◌, ◌≡◌, ◌∙◌, refl, sym, ap, Option, none, some, List, [], ◌∷◌, length, suc, All,
  Bool-cases, inl, inr, if-both, ◌||◌, ℕ, ◌≤◌, arith, if◌then◌else◌,
}
use autonomous_rc_taxi.Floats.{Double, nought, lit, lt, le, ◌/◌, ◌+◌}
use autonomous_rc_taxi.Floats.Laws.{IsOrdered, ◌≼◌}
use autonomous_rc_taxi.Result.{Result, ok, ◌>>=◌}
use autonomous_rc_taxi.Core.Models.{ControlCommand}
use autonomous_rc_taxi.Mapping.Geometry.{Point, distance}
use autonomous_rc_taxi.Control.Steer.{divide}
use autonomous_rc_taxi.Control.Steer.Bounds.{Within, limited-Within, nought-Within}
use autonomous_rc_taxi.Control.Legacy.{WaypointConfig, Waypoint, Way, WaypointFollower}
use autonomous_rc_taxi.Control.Legacy.Compute.{
  on_target, wps_of, rewound, lane_throttle, steered, compute_on, compute_with, compute, halted,
  is_last, best_of, moved_on, remaining_of,
}

forward_by : {a b m n : ℕ} → a ≡ m → b ≡ n → n ≤ m → b ≤ a
forward_by e e' h = omega (arith, e, e', h)

module _ {F : Type 0} where
  abbrev wps_if_any : Option (Way F) → List (Waypoint F)
  wps_if_any none = []
  wps_if_any (some w) = wps_of w

  -- the waypoints of the route that is set
  abbrev pub route_wps : WaypointFollower F → List (Waypoint F)
  route_wps s = wps_if_any s.way

  abbrev index_if_any : Option (Way F) → ℕ
  index_if_any none = 0
  index_if_any (some w) = length w.passed

  -- `_idx`
  abbrev pub index : WaypointFollower F → ℕ
  index s = index_if_any s.way

module _ {F : Type 0} ⦃d : Double F⦄ where
  -- calls one behind the other, each with a position and a heading
  unfoldable pub calls :
      WaypointConfig F
      → List (Point F × F)
      → WaypointFollower F
      → Result (List (ControlCommand F) × WaypointFollower F)
  calls k [] s = ok ([], s)
  calls k ((p, heading) ∷ ws) s = do
    ((c, remaining), s') ← compute k p heading s
    (cs, last) ← calls k ws s'
    ok (c ∷ cs, last)

  abbrev pub Turns : F → ControlCommand F → Type 0
  Turns m c = Within m c.steering_wheel_deg

  on_target-wps :
      (look : F) (p : Point F) (passed : List (Waypoint F)) (t : Waypoint F)
      (ahead : List (Waypoint F))
      → wps_of (on_target look p passed t ahead) ≡ rewound passed (t ∷ ahead)
  unfolding on_target
  on_target-wps look p passed t [] = refl
  on_target-wps look p passed t (n ∷ rest) =
      if-both (λ w. wps_of w ≡ rewound passed (t ∷ n ∷ rest))
        (lt (distance p t.at) look || lt (distance p n.at) (distance p t.at))
        (on_target-wps look p (t ∷ passed) n rest) refl

  on_target-forward :
      (look : F) (p : Point F) (passed : List (Waypoint F)) (t : Waypoint F)
      (ahead : List (Waypoint F))
      → length passed ≤ length (on_target look p passed t ahead).passed
  unfolding on_target
  on_target-forward look p passed t [] = omega arith
  on_target-forward look p passed t (n ∷ rest) =
      if-both {A = Way F} (λ w. length passed ≤ length w.passed)
        (lt (distance p t.at) look || lt (distance p n.at) (distance p t.at))
        (omega (arith, on_target-forward look p (t ∷ passed) n rest)) (omega arith)

module _ {F : Type 0} ⦃d : Double F⦄ (laws : IsOrdered F) (k : WaypointConfig F)
    (wheel : nought ≼ k.max_wheel) (lock : d.eq k.full_lock_err nought ≡ false)
    (speed : d.eq k.max_speed nought ≡ false) where
  divide-ok : (a b : F) → d.eq b nought ≡ false → divide a b ≡ ok (a / b)
  divide-ok a b h = rw h refl

  -- a call returns, with the wheel within its limit and the way kept
  abbrev Drives : Option (Way F) → Result ((ControlCommand F × F) × WaypointFollower F) → Type 0
  Drives way r =
      (c : ControlCommand F) × (remaining : F) × (s : WaypointFollower F) × (r
        ≡ ok ((c, remaining), s))
      × Turns k.max_wheel c
      × (s.way ≡ way)

  lane_throttle-ok :
      (t : Waypoint F) (remaining : F) → (x : F) × (lane_throttle k t remaining ≡ ok x)
  unfolding lane_throttle
  lane_throttle-ok t remaining = elim (Bool-cases t.seg_ok) [
    | inl h ↦ rw (h, divide-ok t.speed_limit k.max_speed speed) (_, refl)
    | inr h ↦ rw h (_, refl)
  ]

  steered-Drives :
      (p : Point F) (heading remaining : F) (w : Way F) (s : WaypointFollower F)
      → s.way ≡ some w
      → Drives (some w) (steered k p heading remaining w s)
  unfolding steered
  steered-Drives p heading remaining w s e =
      let (throttle, e1) = lane_throttle-ok w.target remaining in
      rw (divide-ok _ k.full_lock_err lock, e1)
        (_, _, _, refl, limited-Within laws k.max_wheel _ wheel, e)

  halted-Drives :
      (remaining : F) (w : Way F) (s : WaypointFollower F)
      → s.way ≡ some w
      → Drives (some w) (halted remaining s)
  halted-Drives remaining w s e = (_, _, _, refl, nought-Within laws k.max_wheel wheel, e)

  compute_on-Drives :
      (p : Point F) (heading : F) (w : Way F) (s : WaypointFollower F)
      → Drives (some w) (compute_on k p heading w s)
  unfolding compute_on
  compute_on-Drives p heading w s0 =
      let s = record s0 { way = some w; target_allows_seg = w.target.seg_ok } in
      let r = remaining_of w p in
      let closer = record s { best_remaining = best_of r s } in
      if-both (Drives (some w)) (le r k.stop_radius) {x = halted r s} (halted-Drives r w s refl) (
        if-both (Drives (some w)) (is_last w) {y = steered k p heading r w s}
          (if-both (Drives (some w))
            (not (lt r s.best_remaining) && lt (s.best_remaining + lit 8 2) r) {x = halted r s}
            {y = steered k p heading r w closer} (halted-Drives r w s refl)
            (steered-Drives p heading r w closer refl))
          (steered-Drives p heading r w s refl))

  -- a call keeps the waypoints
  compute_with-Keeps :
      (p : Point F) (heading : F) (way : Option (Way F)) (s : WaypointFollower F)
      → s.way ≡ way
      → (c : ControlCommand F) × (remaining : F) × (t : WaypointFollower F) × (compute_with k p
            heading way s
          ≡ ok ((c, remaining), t))
        × Turns k.max_wheel c
        × (route_wps t ≡ route_wps s)
        × (index s ≤ index t)
  unfolding compute_with
  compute_with-Keeps p heading none s e =
      (_, _, s, refl, nought-Within laws k.max_wheel wheel, refl, omega arith)
  compute_with-Keeps p heading (some w) s e =
      let (c, remaining, t, e1, within, e2) =
        compute_on-Drives p heading (moved_on k p s.near_corner w) s in
      let look = if s.near_corner then k.corner_lookahead else k.lookahead in
      let moved = on_target-wps look p w.passed w.target w.ahead in
      let forward = on_target-forward look p w.passed w.target w.ahead in
      (
        c,
        remaining,
        t,
        e1,
        within,
        ap wps_if_any e2 ∙ (moved ∙ sym (ap wps_if_any e)),
        forward_by (ap index_if_any e2) (ap index_if_any e) forward,
      )

  compute-Keeps :
      (p : Point F) (heading : F) (s : WaypointFollower F)
      → (c : ControlCommand F) × (remaining : F) × (t : WaypointFollower F) × (compute k p heading s
          ≡ ok ((c, remaining), t))
        × Turns k.max_wheel c
        × (route_wps t ≡ route_wps s)
        × (index s ≤ index t)
  unfolding compute
  compute-Keeps p heading s = compute_with-Keeps p heading s.way s refl

  -- For a limit that is not negative and divisors that are not 0, every sequence of calls of
  -- `compute`, whatever positions and headings they are given, returns: there is one command for each
  -- call, each wheel angle is within the limit, the waypoints of the route stay as they were, and
  -- the index of the target never goes back.
  pub calls-total :
      (ws : List (Point F × F)) (s : WaypointFollower F)
      → (cmds : List (ControlCommand F)) × (last : WaypointFollower F) × (calls k ws s
          ≡ ok (cmds, last))
        × (length cmds ≡ length ws)
        × All (Turns k.max_wheel) cmds
        × (route_wps last ≡ route_wps s)
        × (index s ≤ index last)
  unfolding calls
  calls-total [] s = ([], s, refl, refl, tt, refl, omega arith)
  calls-total ((p, heading) ∷ ws) s =
      let (c, remaining, t, e, within, same, on) = compute-Keeps p heading s in
      let (cmds, last, e', count, all, same', on') = calls-total ws t in
      (
        c ∷ cmds,
        last,
        rw (e, e') refl,
        ap suc count,
        (within, all),
        same' ∙ same,
        omega (arith, on, on'),
      )
