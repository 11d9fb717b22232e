-- ===== src/Control/Compute/Refined.antt =====
-- `_drive_leg` and `compute` of rc_car/control/lane_follower.py against the machine.
use autonomous_rc_taxi.Prelude.{
  ℕ, zero, suc, ◌≤◌, Bool, true, false, not, ◌≡◌, refl, sym, subst, Option, none, some, is_some,
  arith, List, length, get_elem?, ◌==◌,
}
use autonomous_rc_taxi.Floats.{Double, ◌+◌}
use autonomous_rc_taxi.Result.{
  Result, ok, ◌>>=◌, Lands, Lands-ok, Lands-bind, Lands-any, Lands-err, from_option, index_error,
  out_of_fuel,
}
use autonomous_rc_taxi.Mapping.Geometry.{Point}
use autonomous_rc_taxi.Navigation.LaneRoute.{LaneLeg, Turn, LaneRoute, tail_length_m}
use autonomous_rc_taxi.Navigation.TurnTable.{ResolvedTurn, resolve, value_or}
use autonomous_rc_taxi.Control.Follower.{
  LaneFollower, FollowerConfig, Phase, follow, armed, turning, advance_leg,
}
use autonomous_rc_taxi.Control.Aim.{aim, ends_of, targets_of, remaining_on_leg, leg_heading}
use autonomous_rc_taxi.Control.Steer.{pursue, rate_limit, divide}
use autonomous_rc_taxi.Control.Corner.{Senses, Driven, Stage, answer, drive_on, drive_turn}
use autonomous_rc_taxi.Control.Compute.{
  Move, keep_on, start_turn, cross, prepare, crossed, steer_leg, steer_phase, unarmed, held,
  turn_or_leg, move_on, unless_stopped, stop_if_final, stage_on, leg_stage, after_stage, drive_leg,
  finish_turn, driven_in,
}
use autonomous_rc_taxi.Control.Compute.Legs.{NotTurning}
use autonomous_rc_taxi.Control.Compute.Steered.{pursue_heading-WritesFlags}
use autonomous_rc_taxi.Control.Compute.Machine.{
  Steps, then_step, Step, Tracked, SameView, Tracked-same, SegFollows, SegIfDriven, TurnSpec,
  AnswerFits, StageFits,
}
use autonomous_rc_taxi.Control.Compute.Prepared.{
  Prepared, prepare-Prepared, aim-SameView, stop_if_final-SameView,
}
use autonomous_rc_taxi.Control.Compute.Turning.{drive_turn-StageFits, begin_turn-StageFits}

module _ {F : Type 0} ⦃d : Double F⦄ where
  -- a leg's command leaves the machine where it is
  abbrev Steers : LaneFollower F → Driven F → Type 0
  Steers s a = SameView s a.after × SegIfDriven a.command a.after.phase a.after.seg_ok_now

  unarmed-Steers :
      (k : FollowerConfig F) (w : Senses F) (leg : LaneLeg F) (b : Bool) (t : Point F)
      (remaining wheel : F) (s : LaneFollower F)
      → s.phase ≡ follow
      → Lands (Steers s) (unarmed k w leg b t remaining wheel s)
  unfolding unarmed rate_limit
  unarmed-Steers k w leg b t remaining wheel s e =
      let part = divide leg.speed_limit_mps k.max_speed in
      let allowed = not (is_some s.exit_hold_from) in
      Lands-bind (λ x. Unit {0}) (Steers s) part _ (Lands-any part)
        (λ x u.
          Lands-ok (Steers s) _ ((refl, refl, refl), subst (λ p. SegFollows p allowed) (sym e) tt))

  steer_phase-Steers :
      (ph : Phase) (k : FollowerConfig F) (w : Senses F) (leg : LaneLeg F) (b : Bool) (t : Point F)
      (remaining wheel : F) (s : LaneFollower F)
      → s.phase ≡ ph
      → NotTurning ph
      → Lands (Steers s) (steer_phase ph k w leg b t remaining wheel s)
  unfolding steer_phase rate_limit
  steer_phase-Steers follow k w leg b t remaining wheel s e h =
      unarmed-Steers k w leg b t remaining wheel s e
  steer_phase-Steers armed k w leg b t remaining wheel s e h =
      Lands-ok (Steers s) _ ((refl, refl, refl), subst (λ p. SegFollows p false) (sym e) refl)
  steer_phase-Steers turning k w leg b t remaining wheel s e h = elim h [ ]

  steer_leg-Steers :
      (k : FollowerConfig F) (w : Senses F) (leg : LaneLeg F) (b : Bool) (e : Point F × Point F)
      (t : Point F) (remaining : F) (s : LaneFollower F)
      → NotTurning s.phase
      → Lands (Steers s) (steer_leg k w leg b e t remaining s)
  unfolding steer_leg
  steer_leg-Steers k w leg b e t remaining s h =
      let (on, guard, h', e1) =
        pursue_heading-WritesFlags k s w.seg leg (leg_heading e) w.heading_deg in
      let s' = record s { seg_hdg_on = on; hdg_guard_on = guard } in
      rw e1 (
        Lands-bind (λ x. Unit {0}) (Steers s) (pursue k t w.at h') _
          (Lands-any (pursue k t w.at h'))
          (λ wheel u.
            steer_phase-Steers s.phase k w leg b t remaining (held k leg s' wheel) s' refl h))

module _ {F : Type 0} where
  -- the turn of a leg stays the one that was prepared
  respec-TurnSpec :
      (ph : Phase) (spec : Option (ResolvedTurn F)) (t : ResolvedTurn F)
      → TurnSpec ph spec
      → TurnSpec ph (some (value_or t spec))
  respec-TurnSpec follow spec t h = tt
  respec-TurnSpec turning none t h = elim h [ ]
  respec-TurnSpec turning (some u) t h = h
  respec-TurnSpec armed none t h = elim h [ ]
  respec-TurnSpec armed (some u) t h = h

module _ {F : Type 0} ⦃d : Double F⦄ where
  crossed-fields :
      (k : FollowerConfig F) (turn : Turn F) (p : Point F) (s : LaneFollower F)
      → ((crossed k turn p s).leg ≡ suc s.leg) × ((crossed k turn p s).phase ≡ follow)
  unfolding crossed advance_leg
  crossed-fields k turn p s = ground arith

module _ {F : Type 0} ⦃d : Double F⦄ (n : ℕ) (phase : Phase) (k : FollowerConfig F) (w : Senses F)
    (r : LaneRoute F) where
  abbrev Fits : Result (Stage F) → Type 0
  Fits o = Lands (StageFits n phase) o

  steered-StageFits :
      (leg : LaneLeg F) (b : Bool) (e : Point F × Point F) (t : Point F) (remaining : F)
      (s : LaneFollower F)
      → NotTurning s.phase
      → Tracked n phase s
      → Fits (steer_leg k w leg b e t remaining s >>= λ a. ok (answer a))
  steered-StageFits leg b e t remaining s h at =
      Lands-bind (Steers s) (StageFits n phase) (steer_leg k w leg b e t remaining s) _
        (steer_leg-Steers k w leg b e t remaining s h)
        (λ a (same, seg).
          Lands-ok (StageFits n phase) (answer a) (Tracked-same n phase s a.after same at, seg))

  crossed-StageFits :
      (turn : Turn F) (p : Point F) (s : LaneFollower F)
      → s.phase ≡ follow
      → Tracked n phase s
      → StageFits n phase (drive_on (crossed k turn p s))
  crossed-StageFits turn p s e h =
      let there = subst (λ ph. Steps n phase s.leg ph) e h.0 in
      let over = then_step s.leg follow (suc s.leg) follow there (Step.cross s.leg) in
      let (l, ph) = crossed-fields k turn p s in rw (l, ph) ((over, tt), refl)

  move_on-StageFits :
      (leg : LaneLeg F) (b : Bool) (e : Point F × Point F) (t : Point F) (remaining : F)
      (turn : Turn F) (spec : ResolvedTurn F) (sm : LaneFollower F × Move)
      → Prepared n phase sm
      → Fits (move_on k w r turn spec (steer_leg k w leg b e t remaining) sm)
  move_on-StageFits leg b e t remaining turn spec (s, keep_on) (at, h) =
      steered-StageFits leg b e t remaining s h at
  move_on-StageFits leg b e t remaining turn spec (s, start_turn) (at, h) =
      begin_turn-StageFits n phase k w r spec s h at
  move_on-StageFits leg b e t remaining turn spec (s, cross) (at, h) =
      Lands-ok (StageFits n phase) _ (crossed-StageFits turn w.at s h at)

  turn_or_leg-StageFits :
      (leg : LaneLeg F) (b : Bool) (e : Point F × Point F) (t : Point F) (remaining : F)
      (turn : Option (Turn F)) (s : LaneFollower F)
      → NotTurning s.phase
      → Tracked n phase s
      → Fits (turn_or_leg k w r leg e (steer_leg k w leg b e t remaining) turn s)
  unfolding turn_or_leg
  turn_or_leg-StageFits leg b e t remaining none s h at =
      steered-StageFits leg b e t remaining s h at
  turn_or_leg-StageFits leg b e t remaining (some turn) s h at =
      let spec = value_or (resolve k.table turn) s.spec in
      let s' = record s { spec = some spec } in
      move_on-StageFits leg b e t remaining turn spec (prepare k w leg e spec s') (
        prepare-Prepared n phase k w leg e spec s' refl h
          (at.0, respec-TurnSpec s.phase s.spec (resolve k.table turn) at.1))

  unless_stopped-StageFits :
      (remaining : F) (s : LaneFollower F) (stops : Bool) (later : Result (Stage F))
      → Tracked n phase s
      → Fits later
      → Fits (unless_stopped remaining s stops later)
  unless_stopped-StageFits remaining s true later at h = Lands-ok (StageFits n phase) _ (at, tt)
  unless_stopped-StageFits remaining s false later at h = h

  NotTurning-same :
      (s s' : LaneFollower F) → SameView s s' → NotTurning s.phase → NotTurning s'.phase
  NotTurning-same s s' same h = rw same.1 h

  stage_on-StageFits :
      (s : LaneFollower F) (leg : LaneLeg F) (e : Point F × Point F) (i : ℕ)
      (ts : Point F × List (Point F))
      → NotTurning s.phase
      → Tracked n phase s
      → Fits (stage_on k w r s leg e (i, ts))
  unfolding stage_on
  stage_on-StageFits s leg e i ts h at =
      let is_final = suc s.leg == length r.legs in
      let s0 = record s { pt = i } in
      let aimed = aim k s0 leg is_final e ts w.at in
      let remaining = remaining_on_leg ts w.at + tail_length_m r s.leg in
      let stopped = stop_if_final is_final k e w.at remaining aimed.0 in
      let same = aim-SameView k s0 leg is_final e ts w.at in
      let same' = stop_if_final-SameView is_final k e w.at remaining aimed.0 in
      let at' =
        Tracked-same n phase aimed.0 stopped.0 same' (Tracked-same n phase s0 aimed.0 same at) in
      let h' = NotTurning-same aimed.0 stopped.0 same' (NotTurning-same s0 aimed.0 same h) in
      unless_stopped-StageFits remaining stopped.0 stopped.1 _ at' (
        turn_or_leg-StageFits leg is_final e aimed.1 remaining (get_elem? r.turns s.leg) stopped.0
          h' at')

  leg_stage-StageFits :
      (s : LaneFollower F) → NotTurning s.phase → Tracked n phase s → Fits (leg_stage k w r s)
  unfolding leg_stage
  leg_stage-StageFits s h at =
      let found = from_option (get_elem? r.legs s.leg) index_error in
      Lands-bind (λ x. Unit {0}) (StageFits n phase) found _ (Lands-any found)
        (λ leg u.
          Lands-bind (λ x. Unit {0}) (StageFits n phase) (ends_of leg.points) _
            (Lands-any (ends_of leg.points))
            (λ e v.
              let targets = targets_of k.lookahead leg.points s.pt w.at in
              Lands-bind (λ x. Unit {0}) (StageFits n phase) targets _ (Lands-any targets)
                (λ (i, ts) z. stage_on-StageFits s leg e i ts h at)))

  -- the calls of a call
  after_stage-AnswerFits :
      (onward : LaneFollower F → Result (Driven F)) (o : Result (Stage F))
      → Fits o
      → ((s : LaneFollower F)
          → s.phase ≡ follow
          → Tracked n phase s
          → Lands (AnswerFits n phase) (onward s))
      → Lands (AnswerFits n phase) (o >>= after_stage onward)
  after_stage-AnswerFits onward o h next =
      Lands-bind (StageFits n phase) (AnswerFits n phase) o _ h (λ st fits.
        elim st as (λ x. StageFits n phase x → Lands (AnswerFits n phase) (after_stage onward x)) [
          | answer a ↦ λ good. Lands-ok (AnswerFits n phase) a good
          | drive_on s ↦ λ (at, following). next s following at
        ]
          fits)

  drive_leg-AnswerFits :
      (fuel : ℕ) (s : LaneFollower F)
      → NotTurning s.phase
      → Tracked n phase s
      → Lands (AnswerFits n phase) (drive_leg fuel k w r s)
  unfolding drive_leg
  drive_leg-AnswerFits zero s h at = Lands-err (AnswerFits n phase) out_of_fuel
  drive_leg-AnswerFits (suc fuel) s h at =
      after_stage-AnswerFits (λ s'. drive_leg fuel k w r s') (leg_stage k w r s)
        (leg_stage-StageFits s h at)
        (λ s' following at'. drive_leg-AnswerFits fuel s' (rw following tt) at')

  pub driven_in-AnswerFits :
      (ph : Phase) (s : LaneFollower F)
      → s.phase ≡ ph
      → (ph ≡ turning → 1 ≤ s.fuse_span)
      → Tracked n phase s
      → Lands (AnswerFits n phase) (driven_in ph k w r s)
  unfolding finish_turn
  driven_in-AnswerFits turning s e one at =
      after_stage-AnswerFits (λ s'. drive_leg (length r.legs) k w r s') (drive_turn k w r s)
        (drive_turn-StageFits n phase k w r s (one refl) e at)
        (λ s' following at'. drive_leg-AnswerFits (length r.legs) s' (rw following tt) at')
  driven_in-AnswerFits follow s e one at = drive_leg-AnswerFits (length r.legs) s (rw e tt) at
  driven_in-AnswerFits armed s e one at = drive_leg-AnswerFits (length r.legs) s (rw e tt) at
