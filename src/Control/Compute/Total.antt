-- ===== src/Control/Compute/Total.antt =====
-- `compute` of rc_car/control/lane_follower.py answers in every state that the calls reach.
use Prim.Native.Nat.{◌+◌ as plus}
use autonomous_rc_taxi.Prelude.{
  ℕ, zero, suc, ◌≤◌, ◌<◌, ◌≡◌, refl, ap, ◌∙◌, some, arith, List, length, get_elem-All, ◌==◌,
}
use autonomous_rc_taxi.Floats.{Double, ◌+◌}
use autonomous_rc_taxi.Floats.Laws.{IsOrdered, IsAdditive}
use autonomous_rc_taxi.Result.{Result, ok, ◌>>=◌}
use autonomous_rc_taxi.Mapping.Geometry.{Point, last}
use autonomous_rc_taxi.Navigation.LaneRoute.{LaneLeg, LaneRoute, tail_length_m}
use autonomous_rc_taxi.Control.Follower.{
  LaneFollower, FollowerConfig, Phase, follow, armed, turning,
}
use autonomous_rc_taxi.Control.Aim.{ends_of, aim, targets_of, remaining_on_leg}
use autonomous_rc_taxi.Control.Aim.Points.{targets_of-total}
use autonomous_rc_taxi.Control.Corner.{Senses, Driven, Stage, answer, drive_on, drive_turn}
use autonomous_rc_taxi.Control.Compute.{
  stop_if_final, stage_on, leg_stage, drive_leg, finish_turn, driven_in, after_stage,
}
use autonomous_rc_taxi.Control.Compute.Ready.{
  IsDrivable, IsConfigured, Pointed, IsReady, CommandWithin,
}
use autonomous_rc_taxi.Control.Compute.Turned.{drive_turn-StageReady}
use autonomous_rc_taxi.Control.Compute.Legs.{NotTurning, aim-OnLeg, stop_if_final-OnLeg}
use autonomous_rc_taxi.Control.Compute.Stages.{
  Ends, OnLeg-IsReady, turn_or_leg-Ends, unless_stopped-Ends,
}

module _ {F : Type 0} ⦃d : Double F⦄ (laws : IsOrdered F) (sums : IsAdditive F)
    (k : FollowerConfig F) (c : IsConfigured k) (r : LaneRoute F) (drivable : IsDrivable r)
    (w : Senses F) where
  stage_on-Ends :
      (s : LaneFollower F) (leg : LaneLeg F) (e : Point F × Point F) (i : ℕ)
      (ts : Point F × List (Point F))
      → NotTurning s.phase
      → IsReady k.max_wheel r s
      → Ends k.max_wheel r s.leg (stage_on k w r s leg e (i, ts))
  unfolding stage_on
  stage_on-Ends s leg e i ts ph (range, turn, within, wheel, keeps) =
      let is_final = suc s.leg == length r.legs in
      let aimed = aim k (record s { pt = i }) leg is_final e ts w.at in
      let remaining = remaining_on_leg ts w.at + tail_length_m r s.leg in
      let stopped = stop_if_final is_final k e w.at remaining aimed.0 in
      let on =
        aim-OnLeg k.max_wheel s.leg s.spec (some r) k (record s { pt = i }) leg is_final e ts w.at
          (refl, ph, refl, wheel, keeps) in
      let on' =
        stop_if_final-OnLeg k.max_wheel s.leg s.spec (some r) is_final k e w.at remaining aimed.0
          on in
      unless_stopped-Ends laws sums k c r drivable w leg is_final e aimed.1 remaining s.leg
        stopped.0 stopped.1 _ (OnLeg-IsReady k.max_wheel s.leg s.spec r stopped.0 range within on')
        (turn_or_leg-Ends laws sums k c r drivable w leg is_final e aimed.1 remaining s.leg s.spec
          stopped.0 _ range within on' refl)

  leg_stage-Ends :
      (s : LaneFollower F)
      → NotTurning s.phase
      → IsReady k.max_wheel r s
      → Ends k.max_wheel r s.leg (leg_stage k w r s)
  unfolding leg_stage
  leg_stage-Ends s ph ready =
      let (range, turn, within, wheel, keeps) = ready in
      let (l, e1, (a, rest, e2)) = get_elem-All Pointed r.legs s.leg drivable.0 range in
      let (i, ts, e3, in_range) = targets_of-total k.lookahead a rest s.pt w.at in
      let e4 = ap (λ ps. targets_of k.lookahead ps s.pt w.at) e2 ∙ e3 in
      rw (e1, ap ends_of e2, e4) (stage_on-Ends s l (a, last a rest) i ts ph ready)

  -- what an answer of the driving methods has to show
  abbrev pub Drives : Result (Driven F) → Type 0
  Drives o =
      (a : Driven F) × (o ≡ ok a)
      × CommandWithin k.max_wheel a.command
      × IsReady k.max_wheel r a.after

  after_stage-Drives :
      (o : Result (Stage F)) (leg : ℕ) (onward : LaneFollower F → Result (Driven F))
      → Ends k.max_wheel r leg o
      → ((s : LaneFollower F)
          → leg < s.leg
          → s.phase ≡ follow
          → IsReady k.max_wheel r s
          → Drives (onward s))
      → Drives (o >>= after_stage onward)
  after_stage-Drives o leg onward (answer a, e, good) next = rw e (a, refl, good.0, good.1)
  after_stage-Drives o leg onward (drive_on s, e, (l, ph, ready)) next = rw e (next s l ph ready)

  drive_leg-Drives :
      (n : ℕ) (s : LaneFollower F)
      → NotTurning s.phase
      → IsReady k.max_wheel r s
      → length r.legs ≤ plus s.leg n
      → Drives (drive_leg n k w r s)
  unfolding drive_leg
  drive_leg-Drives zero s ph (range, turn, within, wheel, keeps) h =
      absurd (omega (arith, range, h))
  drive_leg-Drives (suc n) s ph ready h =
      after_stage-Drives (leg_stage k w r s) s.leg (λ s'. drive_leg n k w r s')
        (leg_stage-Ends s ph ready)
        (λ s' later following ready'.
          drive_leg-Drives n s' (rw following tt) ready' (omega (arith, h, later)))

  pub driven_in-Drives :
      (ph : Phase) (s : LaneFollower F)
      → s.phase ≡ ph
      → IsReady k.max_wheel r s
      → Drives (driven_in ph k w r s)
  unfolding finish_turn
  driven_in-Drives turning s e ready =
      after_stage-Drives (drive_turn k w r s) s.leg (λ s'. drive_leg (length r.legs) k w r s')
        (drive_turn-StageReady k.max_wheel r k w s drivable e ready)
        (λ s' later following ready'.
          drive_leg-Drives (length r.legs) s' (rw following tt) ready' (omega arith))
  driven_in-Drives follow s e ready =
      drive_leg-Drives (length r.legs) s (rw e tt) ready (omega arith)
  driven_in-Drives armed s e ready =
      drive_leg-Drives (length r.legs) s (rw e tt) ready (omega arith)
