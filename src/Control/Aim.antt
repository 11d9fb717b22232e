-- ===== src/Control/Aim.antt =====
-- rc_car/control/lane_follower.py: the point that a straight leg aims at, and the distances left.
pub mod Points
use Prim.Native.Nat.{◌+◌ as plus}
use autonomous_rc_taxi.Prelude.{
  ℕ, zero, suc, Bool, true, false, not, ◌&&◌, ◌||◌, Option, none, some, is_some, List, [], ◌∷◌, leb,
  length, if◌then◌else◌,
}
use autonomous_rc_taxi.Floats.{Double, ◌+◌, ◌-◌, ◌*◌, ◌/◌, lit, nought, le, lt, min, max}
use autonomous_rc_taxi.Result.{Result, ok, err, index_error, ◌>>=◌}
use autonomous_rc_taxi.Mapping.Geometry.{Point, last, length_from}
use autonomous_rc_taxi.Navigation.LaneRoute.{LaneLeg}
use autonomous_rc_taxi.Control.Follower.{LaneFollower, FollowerConfig}

-- `leg.points[0], leg.points[-1]`
abbrev pub ends_of : {F : Type 0} → List (Point F) → Result (Point F × Point F)
ends_of [] = err index_error
ends_of (a ∷ rest) = ok (a, last a rest)

-- `pts[i]` and what follows it
pub points_from : {F : Type 0} → List (Point F) → ℕ → Result (Point F × List (Point F))
points_from [] i = err index_error
points_from (a ∷ rest) zero = ok (a, rest)
points_from (a ∷ rest) (suc i) = points_from rest i

abbrev pub min_ℕ : ℕ → ℕ → ℕ
min_ℕ a b = if leb a b then a else b

module _ {F : Type 0} ⦃d : Double F⦄ where
  -- the lane's direction, and its length
  abbrev pub norm_of : Point F × Point F → F
  norm_of (a, b) = d.hypot (b.x - a.x) (b.y - a.y)

  -- `leg.heading_deg()`
  unfoldable pub leg_heading : Point F × Point F → F
  leg_heading (a, b) = d.degrees (d.atan2 (b.y - a.y) (b.x - a.x))

  unfoldable pub exit_ahead : Point F × Point F → Point F → F
  exit_ahead (a, b) p =
      let norm = norm_of (a, b) in
      if lt norm (lit 1 9)
      then nought
      else ((b.x - p.x) * (b.x - a.x) + (b.y - p.y) * (b.y - a.y)) / norm

  -- `_remaining_on_leg`, from the point that is aimed at and those behind it
  unfoldable pub remaining_on_leg : Point F × List (Point F) → Point F → F
  remaining_on_leg (t, rest) p = length_from (d.hypot (t.x - p.x) (t.y - p.y)) t rest

  -- how many of these points, the last one left out, are passed one after the other
  pub near_points : F → Point F → List (Point F) → ℕ
  near_points lookahead p [] = 0
  near_points lookahead p (a ∷ []) = 0
  near_points lookahead p (a ∷ b ∷ rest) =
      let more = near_points lookahead p (b ∷ rest) in
      if lt (d.hypot (a.x - p.x) (a.y - p.y)) lookahead then suc more else 0

  -- the point index of this tick, `self._pt` after the loop, and the points from it on
  unfoldable pub targets_of :
      F → List (Point F) → ℕ → Point F → Result (ℕ × (Point F × List (Point F)))
  unfolding near_points points_from
  targets_of lookahead [] pt p = err index_error
  targets_of lookahead (a ∷ rest) pt p = do
    let first = min_ℕ pt (length rest)
    (t, later) ← points_from (a ∷ rest) first
    let i = plus first (near_points lookahead p (t ∷ later))
    found ← points_from (a ∷ rest) i
    ok (i, found)

  -- without line following, only the way behind a corner is recentred
  abbrev may_recenter : FollowerConfig F → Option (Point F) → Point F → Bool
  may_recenter k none p = k.line_follow
  may_recenter k (some e) p =
      k.line_follow
      || not (le k.recenter nought) && not (lt k.recenter (d.hypot (p.x - e.x) (p.y - e.y)))

  -- a point ahead on the lane; inside the dead band, a point ahead of the car
  unfoldable pub onto_lane : FollowerConfig F → Point F × Point F → Point F → Option (Point F)
  onto_lane k (a, b) p =
      let norm = norm_of (a, b) in
      let ux = (b.x - a.x) / norm in
      let uy = (b.y - a.y) / norm in
      let along = (p.x - a.x) * ux + (p.y - a.y) * uy in
      let off = d.neg (p.x - a.x) * uy + (p.y - a.y) * ux in
      let s = min (along + k.lookahead) norm in
      let ahead : Point F = record { x = p.x + ux * k.lookahead; y = p.y + uy * k.lookahead } in
      let centre : Point F = record { x = a.x + ux * s; y = a.y + uy * s } in
      if lt norm (lit 1 9)
      then none
      else if le (d.abs off) k.deadband
      then some ahead
      else some centre

  unfoldable pub recenter_target :
      FollowerConfig F → LaneFollower F → Point F × Point F → Point F → Option (Point F)
  unfolding onto_lane
  recenter_target k s e p = if may_recenter k s.exit_hold_from p then onto_lane k e p else none

  -- the point, and how far the stop is along the lane
  unfoldable pub parallel_stop_target :
      FollowerConfig F → Point F × Point F → Point F → F → Option (Point F × F)
  parallel_stop_target k (a, g) p remaining =
      let norm = norm_of (a, g) in
      let ux = (g.x - a.x) / norm in
      let uy = (g.y - a.y) / norm in
      let beyond : Point F = record { x = g.x + ux * k.lookahead; y = g.y + uy * k.lookahead } in
      if le k.parallel_stop nought || lt k.parallel_stop remaining || lt norm (lit 1 9)
      then none
      else some (beyond, (g.x - p.x) * ux + (g.y - p.y) * uy)

  -- the car is past the gate, seen from where it took it up
  abbrev past_gate : Point F → Option (Point F) → Point F → Bool
  past_gate g none p = false
  past_gate g (some f) p =
      let dx = g.x - f.x in
      let dy = g.y - f.y in
      let norm = d.hypot dx dy in
      lt (lit 1 9) norm && lt nought (((p.x - g.x) * dx + (p.y - g.y) * dy) / norm)

  unfoldable pub gate_from :
      FollowerConfig F
      → LaneFollower F
      → Option (Point F)
      → Point F
      → LaneFollower F × Option (Point F)
  gate_from k s none p = (s, none)
  gate_from k s (some g) p =
      if lt (d.hypot (g.x - p.x) (g.y - p.y)) k.lookahead || past_gate g s.straight_from p
      then (record s { straight_gate = none }, none)
      else (s, some g)

  unfoldable pub straight_gate_target :
      FollowerConfig F → LaneFollower F → Point F → LaneFollower F × Option (Point F)
  unfolding gate_from
  straight_gate_target k s p = gate_from k s s.straight_gate p

  -- a lane that is ahead wins over the gate only once the car is on it
  abbrev chosen : Bool → Point F → Option (Point F) → Option (Point F) → Point F
  chosen on_it t none none = t
  chosen on_it t (some g) none = g
  chosen on_it t none (some c) = c
  chosen on_it t (some g) (some c) = if on_it then c else g

  abbrev or_beyond : Point F → Option (Point F × F) → Point F
  or_beyond t none = t
  or_beyond t (some (beyond, along)) = beyond

  -- where the leg aims: the gate, the lane, the point of the leg, and beyond the stop on the last
  unfoldable pub aim :
      FollowerConfig F
      → LaneFollower F
      → LaneLeg F
      → Bool
      → Point F × Point F
      → Point F × List (Point F)
      → Point F
      → LaneFollower F × Point F
  unfolding straight_gate_target recenter_target parallel_stop_target exit_ahead remaining_on_leg
  aim k s leg is_final e targets p =
      let (s', gate) = straight_gate_target k s p in
      let on_it = le (exit_ahead e p) leg.length_m in
      let t = chosen on_it targets.0 gate (recenter_target k s' e p) in
      let stop = parallel_stop_target k e p (remaining_on_leg targets p) in
      (s', if is_final then or_beyond t stop else t)

  unfoldable pub slowdown_ratio : FollowerConfig F → F → F
  slowdown_ratio k remaining =
      let usable = max (k.slowdown - k.stop_radius) (lit 1 9) in
      let progress = max nought (min (lit 1 0) ((remaining - k.stop_radius) / usable)) in
      if le k.slowdown remaining
      then lit 1 0
      else k.near_ratio + (lit 1 0 - k.near_ratio) * progress
