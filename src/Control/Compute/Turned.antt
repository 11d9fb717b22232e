-- ===== src/Control/Compute/Turned.antt =====
-- A turn of rc_car/control/lane_follower.py: it answers with the turn's wheel angle, or ends on the
-- leg behind it.
use Prim.Native.Nat.{◌+◌ as plus, ◌-◌ as minus}
use autonomous_rc_taxi.Prelude.{
  ℕ, zero, suc, ◌≤◌, ◌<◌, ◌≡◌, refl, ◌∙◌, ap, none, some, arith, length, get_elem?, get_elem-All,
  get_elem_some, if-both, ◌||◌,
}
use autonomous_rc_taxi.Floats.{Double}
use autonomous_rc_taxi.Result.{ok}
use autonomous_rc_taxi.Mapping.Geometry.{Point}
use autonomous_rc_taxi.Navigation.LaneRoute.{LaneLeg, Turn, LaneRoute}
use autonomous_rc_taxi.Navigation.TurnTable.{ResolvedTurn}
use autonomous_rc_taxi.Control.Follower.{
  LaneFollower, FollowerConfig, follow, turning, advance_leg, advance_legs,
}
use autonomous_rc_taxi.Control.Aim.{ends_of}
use autonomous_rc_taxi.Control.Steer.Bounds.{Within}
use autonomous_rc_taxi.Control.Corner.{
  Senses, Stage, drive_on, drive_turn, turned, turn_onto, out_of_map, turn_ends,
}
use autonomous_rc_taxi.Control.Compute.Ready.{IsDrivable, Pointed, IsReady, StageReady}

module _ {F : Type 0} ⦃d : Double F⦄ where
  -- the state behind the legs that a turn spans
  pub advance_legs-fields :
      (n : ℕ) (s : LaneFollower F)
      → ((advance_legs (suc n) s).leg ≡ plus s.leg (suc n))
        × ((advance_legs (suc n) s).phase ≡ follow)
        × ((advance_legs (suc n) s).spec ≡ none)
        × ((advance_legs (suc n) s).last_wheel ≡ none)
        × ((advance_legs (suc n) s).route ≡ s.route)
  unfolding advance_legs advance_leg
  advance_legs-fields zero s = (omega arith, refl, refl, refl, refl)
  advance_legs-fields (suc n) s =
      let (l, ph, sp, lw, ro) = advance_legs-fields n (advance_leg s) in
      (omega (arith, l), ph, sp, lw, ro)

  fields-IsReady :
      (m : F) (r : LaneRoute F) (s : LaneFollower F)
      → s.leg < length r.legs
      → s.phase ≡ follow
      → s.spec ≡ none
      → s.last_wheel ≡ none
      → s.route ≡ some r
      → IsReady m r s
  fields-IsReady m r s l ph sp lw ro = rw (ph, sp, lw) (l, tt, tt, tt, ro)

  pub advance_legs-StageReady :
      (m : F) (r : LaneRoute F) (span : ℕ) (s : LaneFollower F)
      → 1 ≤ span
      → plus s.leg span < length r.legs
      → s.route ≡ some r
      → StageReady m r s.leg (drive_on (advance_legs span s))
  advance_legs-StageReady m r zero s one h keeps = absurd (omega (arith, one))
  advance_legs-StageReady m r (suc n) s one h keeps =
      let (l, ph, sp, lw, ro) = advance_legs-fields n s in
      (
        omega (arith, l),
        ph,
        fields-IsReady m r (advance_legs (suc n) s) (omega (arith, l, h)) ph sp lw (ro ∙ keeps),
      )

  turned-StageReady :
      (m : F) (r : LaneRoute F) (k : FollowerConfig F) (w : Senses F) (t : ResolvedTurn F)
      (want remaining : F) (s : LaneFollower F)
      → 1 ≤ s.fuse_span
      → plus s.leg s.fuse_span < length r.legs
      → Within m t.wheel_deg
      → IsReady m r s
      → StageReady m r s.leg (turned k w t want remaining s)
  unfolding turned
  turned-StageReady m r k w t want remaining s one h within ready =
      let ended = record s { exit_hold_from = some w.at } in
      let kept : Within m t.wheel_deg × IsReady m r s = (within, ready) in
      if-both (StageReady m r s.leg) (out_of_map k w.at || turn_ends t s want w.heading_deg)
        (advance_legs-StageReady m r s.fuse_span ended one h ready.4) kept

  drive_turn-eq-ok :
      (r : LaneRoute F) (k : FollowerConfig F) (w : Senses F) (s : LaneFollower F)
      {t : ResolvedTurn F} {l : LaneLeg F} {u : Turn F} {e : Point F × Point F}
      → s.spec ≡ some t
      → get_elem? r.legs (plus s.leg s.fuse_span) ≡ some l
      → get_elem? r.turns (minus (plus s.leg s.fuse_span) 1) ≡ some u
      → ends_of l.points ≡ ok e
      → drive_turn k w r s ≡ ok (turn_onto k w r s t l u e)
  unfolding drive_turn
  drive_turn-eq-ok r k w s h1 h2 h3 h4 = simp (h1, h2, h3, h4)

  pub drive_turn-StageReady :
      (m : F) (r : LaneRoute F) (k : FollowerConfig F) (w : Senses F) (s : LaneFollower F)
      → IsDrivable r
      → s.phase ≡ turning
      → IsReady m r s
      → (st : Stage F) × (drive_turn k w r s ≡ ok st) × StageReady m r s.leg st
  drive_turn-StageReady m r k w s (pointed, count) ph ready =
      let (in_range, turn, spec_within, wheel, keeps) = ready in
      let ((t, e), one, h) = rw ph at turn in
      let last = plus s.leg s.fuse_span in
      let (l, e1, (a, rest, e2)) = get_elem-All Pointed r.legs last pointed h in
      let (u, e3) = get_elem_some r.turns (minus last 1) (omega (arith, one, h, count)) in
      let within = rw e at spec_within in
      let ends = ap ends_of e2 in
      (
        _,
        drive_turn-eq-ok r k w s e e1 e3 ends,
        turned-StageReady m r k w t _ _ s one h within ready,
      )
