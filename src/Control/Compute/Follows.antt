-- ===== src/Control/Compute/Follows.antt =====
-- Whole drives of rc_car/control/lane_follower.py follow the machine.
use autonomous_rc_taxi.Prelude.{
  ℕ, ◌≤◌, ◌<◌, Bool, true, false, ◌≡◌, refl, Option, none, some, arith, List, [], ◌∷◌, length,
  is_some, subst, sym, ◌∙◌, get_elem?,
}
use autonomous_rc_taxi.Floats.{Double}
use autonomous_rc_taxi.Floats.Laws.{IsOrdered, IsAdditive}
use autonomous_rc_taxi.Result.{
  ok, Lands, Lands-ok, Lands-bind, Lands-any, Lands-eq, from_option, index_error, >>=-eq-ok,
  ok-injective,
}
use autonomous_rc_taxi.Core.Models.{ControlCommand}
use autonomous_rc_taxi.Mapping.Geometry.{Point}
use autonomous_rc_taxi.Navigation.Planner.{Route}
use autonomous_rc_taxi.Navigation.LaneRoute.{LaneRoute, from_route}
use autonomous_rc_taxi.Navigation.TurnTable.{ResolvedTurn, value_or}
use autonomous_rc_taxi.Control.Follower.{
  LaneFollower, FollowerConfig, Phase, follow, armed, turning, set_route, install_route,
  reset_state, seg_allowed,
}
use autonomous_rc_taxi.Control.Corner.{Senses}
use autonomous_rc_taxi.Control.Compute.{
  compute_on, compute_all, accumulate_travel, finished, apply_throttle_rules, hold_exit,
  hold_exit_if, on_track_if, travelled, travelled_if, driven_in,
}
use autonomous_rc_taxi.Control.Compute.Ready.{IsDrivable, IsConfigured, IsReady, TurnReady}
use autonomous_rc_taxi.Control.Compute.Runs.{compute_on-Good}
use autonomous_rc_taxi.Control.Compute.Whole.{set_route-IsReady, compute-compute_on}
use autonomous_rc_taxi.Control.Compute.Machine.{
  Steps, Steps-Advances, Advances, TurnSpec, stay, Tracked, SameView, Tracked-same, SegFollows,
  SegIfDriven, AnswerFits,
}
use autonomous_rc_taxi.Control.Compute.Refined.{driven_in-AnswerFits}

module _ {F : Type 0} ⦃d : Double F⦄ (k : FollowerConfig F) where
  -- the track leaves the machine alone
  abbrev SameTurn : LaneFollower F → LaneFollower F → Type 0
  SameTurn s s' = SameView s s' × (s'.fuse_span ≡ s.fuse_span)

  on_track_if-SameTurn :
      (b : Bool) (s : LaneFollower F) (p : Point F) → SameTurn s (on_track_if b k s p)
  on_track_if-SameTurn true s p = ((refl, refl, refl), refl)
  on_track_if-SameTurn false s p = ((refl, refl, refl), refl)

  travelled_if-SameTurn :
      (b : Bool) (s : LaneFollower F) (p : Point F) → SameTurn s (travelled_if b k s p)
  travelled_if-SameTurn true s p = ((refl, refl, refl), refl)
  travelled_if-SameTurn false s p = on_track_if-SameTurn _ s p

  travelled-SameTurn :
      (ph : Phase) (s : LaneFollower F) (p : Point F) → SameTurn s (travelled k ph s p)
  travelled-SameTurn turning s p = travelled_if-SameTurn (is_some s.last_pos) s p
  travelled-SameTurn follow s p = on_track_if-SameTurn _ s p
  travelled-SameTurn armed s p = on_track_if-SameTurn _ s p

  accumulate_travel-SameTurn :
      (s : LaneFollower F) (p : Point F) → SameTurn s (accumulate_travel k s p)
  unfolding accumulate_travel
  accumulate_travel-SameTurn s p = travelled-SameTurn s.phase s p

  -- the state behind a call
  abbrev pub ResultFits : ℕ → Phase → (ControlCommand F × F) × LaneFollower F → Type 0
  ResultFits n phase (answered, s) = Tracked n phase s × SegFollows s.phase (seg_allowed s)

  no_seg : (ph : Phase) → SegFollows ph false
  no_seg follow = tt
  no_seg armed = refl
  no_seg turning = refl

  hold_exit_if-SegFollows :
      (n : ℕ) (phase : Phase) (b : Bool) (throttle : F) (h : LaneFollower F × F)
      → Tracked n phase h.0
      → SegFollows h.0.phase h.0.seg_ok_now
      → let s = (hold_exit_if b throttle h).0 in Tracked n phase s × SegFollows s.phase s.seg_ok_now
  hold_exit_if-SegFollows n phase true throttle (s, t) at seg = (at, no_seg s.phase)
  hold_exit_if-SegFollows n phase false throttle (s, t) at seg = (at, seg)

  hold_exit-SegFollows :
      (n : ℕ) (phase : Phase) (p : Point F) (e : Option (Point F)) (h : LaneFollower F × F)
      → Tracked n phase h.0
      → SegFollows h.0.phase h.0.seg_ok_now
      → let s = (hold_exit k p e h).0 in Tracked n phase s × SegFollows s.phase s.seg_ok_now
  unfolding hold_exit
  hold_exit-SegFollows n phase p none h at seg = (at, seg)
  hold_exit-SegFollows n phase p (some e) h at seg =
      hold_exit_if-SegFollows n phase _ k.turn h at seg

  finished-ResultFits :
      (n : ℕ) (phase : Phase) (origin p : Point F) (remaining : F) (s : LaneFollower F)
      (cmd : Option (ControlCommand F))
      → Tracked n phase s
      → SegIfDriven cmd s.phase s.seg_ok_now
      → ResultFits n phase (finished k origin p remaining s cmd)
  unfolding apply_throttle_rules seg_allowed
  finished-ResultFits n phase origin p remaining s none at seg = (at, no_seg s.phase)
  finished-ResultFits n phase origin p remaining s (some cmd) at seg =
      hold_exit-SegFollows n phase p s.exit_hold_from _ at seg

  pub compute_on-ResultFits :
      (n : ℕ) (phase : Phase) (w : Senses F) (r : LaneRoute F) (s : LaneFollower F)
      → (s.phase ≡ turning → 1 ≤ s.fuse_span)
      → Tracked n phase s
      → Lands (ResultFits n phase) (compute_on k w r s)
  unfolding compute_on
  compute_on-ResultFits n phase w r s one at =
      let origin = value_or w.at s.origin in
      let s0 = record s { origin = some origin } in
      let s1 = accumulate_travel k s0 w.at in
      let (same, span) = accumulate_travel-SameTurn s0 w.at in
      let found = from_option (get_elem? r.legs s1.leg) index_error in
      let at1 = Tracked-same n phase s0 s1 same at in
      let one1 : s1.phase ≡ turning → 1 ≤ s1.fuse_span =
        λ e. omega (arith, span, one (sym same.1 ∙ e)) in
      Lands-bind (λ x. Unit {0}) (ResultFits n phase) found _ (Lands-any found)
        (λ leg u.
          Lands-bind (AnswerFits n phase) (ResultFits n phase) (driven_in s1.phase k w r s1) _
            (driven_in-AnswerFits n phase k w r s1.phase s1 refl one1 at1)
            (λ a (at2, seg).
              Lands-ok (ResultFits n phase) _
                (finished-ResultFits n phase origin w.at a.remaining a.after a.command at2 seg)))

module _ {F : Type 0} ⦃d : Double F⦄ (laws : IsOrdered F) (sums : IsAdditive F)
    (k : FollowerConfig F) (c : IsConfigured k) where
  TurnReady-span :
      (r : LaneRoute F) (leg : ℕ) (ph : Phase) (spec : Option (ResolvedTurn F)) (span : ℕ)
      → TurnReady r leg ph spec span
      → ph ≡ turning
      → 1 ≤ span
  TurnReady-span r leg turning spec span (t, one, range) e = one
  TurnReady-span r leg follow spec span h e = absurd (ground (arith, e))
  TurnReady-span r leg armed spec span h e = absurd (ground (arith, e))

  compute_all-Follows :
      (n : ℕ) (phase : Phase) (r : LaneRoute F)
      → IsDrivable r
      → (ws : List (Senses F)) (s : LaneFollower F) → IsReady k.max_wheel r s
      → Tracked n phase s
      → SegFollows s.phase (seg_allowed s)
      → (cmds : List (ControlCommand F)) × (last : LaneFollower F) × (compute_all k ws s
          ≡ ok (cmds, last))
        × IsReady k.max_wheel r last
        × Tracked n phase last
        × SegFollows last.phase (seg_allowed last)
  unfolding compute_all
  compute_all-Follows n phase r drivable [] s ready at seg = ([], s, refl, ready, at, seg)
  compute_all-Follows n phase r drivable (w ∷ ws) s ready at seg =
      let (((cmd, remaining), s'), e, (within, ready')) =
        compute_on-Good laws sums k c r drivable w s ready in
      let one = TurnReady-span r s.leg s.phase s.spec s.fuse_span ready.1 in
      let (at', seg') =
        Lands-eq (ResultFits k n phase) (compute_on k w r s)
          (compute_on-ResultFits k n phase w r s one at) e in
      let (cmds, last, e2, ready'', at'', seg'') =
        compute_all-Follows n phase r drivable ws s' ready' at' seg' in
      (cmd ∷ cmds, last, rw (compute-compute_on k w r s ready.4, e, e2) refl, ready'', at'', seg'')

  -- Once `set_route` has accepted a route, take any two sequences of calls of `compute`, one behind
  -- the other. Both return, and the second takes the state over moves of the machine: FOLLOW to
  -- ARMED on the same leg, ARMED to TURNING on the same leg, TURNING to FOLLOW on a later leg, or
  -- FOLLOW to FOLLOW on the next leg. So between any two calls the leg does not go back, and on one
  -- leg the phase goes from FOLLOW over ARMED to TURNING alone. The leg stays one of the route, the
  -- turn in ARMED and TURNING is one to the left or the right, and `seg_allowed` is false outside
  -- FOLLOW. The divisors of the configuration are not 0, the limit is a finite number that is not
  -- negative and is the table's, and the steering step is a number.
  pub compute_all-refines :
      (s0 : LaneFollower F) (route : Route F) {s : LaneFollower F}
      → set_route s0 route ≡ ok s
      → (before after : List (Senses F))
      → (r : LaneRoute F) × (cmds : List (ControlCommand F)) × (mid : LaneFollower F)
        × (cmds' : List (ControlCommand F)) × (last : LaneFollower F) × (s.route ≡ some r)
        × (compute_all k before s ≡ ok (cmds, mid))
        × (compute_all k after mid ≡ ok (cmds', last))
        × Steps mid.leg mid.phase last.leg last.phase
        × Advances mid.leg mid.phase last.leg last.phase
        × (last.leg < length r.legs)
        × TurnSpec last.phase last.spec
        × SegFollows last.phase (seg_allowed last)
  unfolding set_route install_route reset_state seg_allowed
  compute_all-refines s0 route {s = s} h before after =
      let (r, drivable, ready) = set_route-IsReady k.max_wheel s0 route h in
      let (l, e, h1) = >>=-eq-ok (from_route route) _ h in
      let (at, seg) : Tracked 0 follow s × SegFollows s.phase (seg_allowed s) =
        subst (λ x. Tracked 0 follow x × SegFollows x.phase (seg_allowed x)) (ok-injective h1)
          ((stay, tt), tt) in
      let (cmds, mid, e1, ready1, at1, seg1) =
        compute_all-Follows 0 follow r drivable before s ready at seg in
      let (cmds', last, e2, ready2, at2, seg2) =
        compute_all-Follows mid.leg mid.phase r drivable after mid ready1 (stay, at1.1) seg1 in
      let moved = Steps-Advances mid.leg mid.phase last.leg last.phase at2.0 in
      (r, cmds, mid, cmds', last, ready.4, e1, e2, at2.0, moved, ready2.0, at2.1, seg2)
