-- ===== src/Control/Compute/Turning.antt =====
-- The turns of rc_car/control/lane_follower.py against the machine.
use Prim.Native.Nat.{◌+◌ as plus, ◌-◌ as minus}
use autonomous_rc_taxi.Prelude.{
  ℕ, zero, suc, ◌≤◌, false, ◌≡◌, refl, sym, subst, Option, none, some, arith, get_elem?, if-both,
  ◌||◌,
}
use autonomous_rc_taxi.Floats.{Double}
use autonomous_rc_taxi.Result.{
  Lands, Lands-ok, Lands-bind, Lands-any, from_option, attribute_error, index_error,
}
use autonomous_rc_taxi.Navigation.LaneRoute.{Turn, LaneRoute}
use autonomous_rc_taxi.Navigation.TurnTable.{ResolvedTurn, TurnTable}
use autonomous_rc_taxi.Control.Follower.{
  LaneFollower, FollowerConfig, Phase, follow, armed, turning, advance_legs,
}
use autonomous_rc_taxi.Control.Aim.{ends_of}
use autonomous_rc_taxi.Control.Corner.{
  Senses, drive_on, drive_turn, turned, turn_onto, out_of_map, turn_ends, begin_turn, fused_span,
  span_over,
}
use autonomous_rc_taxi.Control.Compute.Turned.{advance_legs-fields}
use autonomous_rc_taxi.Control.Compute.Machine.{
  Steps, then_step, Step, Tracked, TurnSpec, StageFits, SegFollows,
}

module _ {F : Type 0} ⦃d : Double F⦄ where
  span_over_pos : (table : TurnTable F) (t : Option (Turn F)) → 1 ≤ span_over table t
  span_over_pos table none = omega arith
  span_over_pos table (some t) = ground arith

  fused_span_pos :
      (table : TurnTable F) (r : LaneRoute F) (n : ℕ) (t : ResolvedTurn F)
      → 1 ≤ fused_span table r n t
  unfolding fused_span
  fused_span_pos table r n t = ground (arith, span_over_pos table (get_elem? r.turns (suc n)))

module _ {F : Type 0} ⦃d : Double F⦄ (leg : ℕ) (phase : Phase) where
  advance_legs-StageFits :
      (span : ℕ) (s : LaneFollower F)
      → 1 ≤ span
      → s.phase ≡ turning
      → Tracked leg phase s
      → StageFits leg phase (drive_on (advance_legs span s))
  advance_legs-StageFits zero s one e h = absurd (omega (arith, one))
  advance_legs-StageFits (suc n) s one e h =
      let (l, ph, sp, lw, ro) = advance_legs-fields n s in
      let there = subst (λ p. Steps leg phase s.leg p) e h.0 in
      let left = then_step s.leg turning (plus s.leg (suc n)) follow there (Step.finish s.leg n) in
      rw (l, ph) ((left, tt), refl)

  turned-StageFits :
      (k : FollowerConfig F) (w : Senses F) (t : ResolvedTurn F) (want remaining : F)
      (s : LaneFollower F)
      → 1 ≤ s.fuse_span
      → s.phase ≡ turning
      → Tracked leg phase s
      → StageFits leg phase (turned k w t want remaining s)
  unfolding turned
  turned-StageFits k w t want remaining s one e h =
      let ended = record s { exit_hold_from = some w.at } in
      let still : SegFollows s.phase false = subst (λ p. SegFollows p false) (sym e) refl in
      if-both (StageFits leg phase) (out_of_map k w.at || turn_ends t s want w.heading_deg)
        (advance_legs-StageFits s.fuse_span ended one e h) (h, still)

  pub drive_turn-StageFits :
      (k : FollowerConfig F) (w : Senses F) (r : LaneRoute F) (s : LaneFollower F)
      → 1 ≤ s.fuse_span
      → s.phase ≡ turning
      → Tracked leg phase s
      → Lands (StageFits leg phase) (drive_turn k w r s)
  unfolding drive_turn
  drive_turn-StageFits k w r s one e h =
      let last = plus s.leg s.fuse_span in
      let spec = from_option s.spec attribute_error in
      let onto = from_option (get_elem? r.legs last) index_error in
      let by = from_option (get_elem? r.turns (minus last 1)) index_error in
      Lands-bind (λ x. Unit {0}) (StageFits leg phase) spec _ (Lands-any spec)
        (λ t u1.
          Lands-bind (λ x. Unit {0}) (StageFits leg phase) onto _ (Lands-any onto)
            (λ l u2.
              Lands-bind (λ x. Unit {0}) (StageFits leg phase) by _ (Lands-any by)
                (λ turn u3.
                  Lands-bind (λ x. Unit {0}) (StageFits leg phase) (ends_of l.points) _
                    (Lands-any (ends_of l.points))
                    (λ ends u4.
                      Lands-ok (StageFits leg phase) (turn_onto k w r s t l turn ends)
                        (turned-StageFits k w t _ _ s one e h)))))

  armed-turning : (spec : Option (ResolvedTurn F)) → TurnSpec armed spec → TurnSpec turning spec
  armed-turning none h = h
  armed-turning (some t) h = h

  -- a prepared turn begins
  pub begin_turn-StageFits :
      (k : FollowerConfig F) (w : Senses F) (r : LaneRoute F) (t : ResolvedTurn F)
      (s : LaneFollower F)
      → s.phase ≡ armed
      → Tracked leg phase s
      → Lands (StageFits leg phase) (drive_turn k w r (begin_turn k r t w.at s))
  unfolding begin_turn
  begin_turn-StageFits k w r t s e h =
      let there = subst (λ p. Steps leg phase s.leg p) e h.0 in
      let begun = then_step s.leg armed s.leg turning there (Step.begin s.leg) in
      drive_turn-StageFits k w r (begin_turn k r t w.at s) (fused_span_pos k.table r s.leg t) refl
        (begun, armed-turning s.spec (subst (λ p. TurnSpec p s.spec) e h.1))
