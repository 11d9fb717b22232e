-- ===== src/Control/Compute/Prepared.antt =====
-- The parts of `_drive_leg` in rc_car/control/lane_follower.py before its command, against the
-- machine.
use autonomous_rc_taxi.Prelude.{
  ℕ, Bool, true, false, ◌≡◌, refl, Option, none, some, arith, List, inl, inr, Bool-cases, ◌∙◌, ◌&&◌,
  if◌then◌else◌,
}
use autonomous_rc_taxi.Floats.{Double, le, nought}
use autonomous_rc_taxi.Mapping.Geometry.{Point}
use autonomous_rc_taxi.Navigation.LaneRoute.{LaneLeg}
use autonomous_rc_taxi.Navigation.TurnTable.{ResolvedTurn, is_turn}
use autonomous_rc_taxi.Perception.Marks.{MarkAdapter}
use autonomous_rc_taxi.Control.Follower.{
  LaneFollower, FollowerConfig, Phase, follow, armed, turning, is_follow, is_armed,
}
use autonomous_rc_taxi.Control.Aim.{aim, exit_ahead, straight_gate_target, gate_from}
use autonomous_rc_taxi.Control.Corner.{Senses, should_start_turn, start_with, by_vision, fire}
use autonomous_rc_taxi.Control.Compute.{
  Move, keep_on, start_turn, cross, prepare, arm_if, arm_within, final_stop, stop_if_final,
  move_for,
}
use autonomous_rc_taxi.Control.Compute.Legs.{NotTurning}
use autonomous_rc_taxi.Control.Compute.Machine.{
  Steps, then_step, Step, TurnSpec, Tracked, SameView, Tracked-same,
}

armed_if : Bool → Phase → Phase
armed_if b ph = if is_follow ph && b then armed else ph

is_armed-armed : (ph : Phase) → is_armed ph ≡ true → ph ≡ armed
is_armed-armed armed h = refl
is_armed-armed follow h = absurd (ground (arith, h))
is_armed-armed turning h = absurd (ground (arith, h))

-- a turn starts from ARMED, and a leg is crossed from FOLLOW
abbrev pub MoveFits : Move → Phase → Type 0
MoveFits keep_on phase = NotTurning phase
MoveFits start_turn phase = phase ≡ armed
MoveFits cross phase = phase ≡ follow

module _ {F : Type 0} ⦃d : Double F⦄ where
  gate_from-SameView :
      (k : FollowerConfig F) (s : LaneFollower F) (g : Option (Point F)) (p : Point F)
      → SameView s (gate_from k s g p).0
  unfolding gate_from
  gate_from-SameView k s none p = (refl, refl, refl)
  gate_from-SameView k s (some g) p = ground arith

  pub aim-SameView :
      (k : FollowerConfig F) (s : LaneFollower F) (leg : LaneLeg F) (b : Bool)
      (e : Point F × Point F) (ts : Point F × List (Point F)) (p : Point F)
      → SameView s (aim k s leg b e ts p).0
  unfolding aim straight_gate_target
  aim-SameView k s leg b e ts p = gate_from-SameView k s s.straight_gate p

  pub stop_if_final-SameView :
      (b : Bool) (k : FollowerConfig F) (e : Point F × Point F) (p : Point F) (remaining : F)
      (s : LaneFollower F)
      → SameView s (stop_if_final b k e p remaining s).0
  unfolding final_stop
  stop_if_final-SameView false k e p remaining s = (refl, refl, refl)
  stop_if_final-SameView true k e p remaining s = ground arith

  by_vision-SameView :
      (s : LaneFollower F) (f : Option (Point F)) (t : ResolvedTurn F) (ahead now : F)
      → SameView s (by_vision s f t ahead now).0
  unfolding by_vision
  by_vision-SameView s none t ahead now = (refl, refl, refl)
  by_vision-SameView s (some f) t ahead now = (refl, refl, refl)

  fire-SameView :
      (s : LaneFollower F) (marks : MarkAdapter F) (t : ResolvedTurn F) (p : Point F) (now : F)
      → SameView s (fire s marks t p now)
  fire-SameView s marks t p now = ground arith

  start_with-SameView :
      (marks : Option (MarkAdapter F)) (s : LaneFollower F) (t : ResolvedTurn F) (ahead : F)
      (p : Point F) (now : F)
      → SameView s (start_with marks s t ahead p now).0
  unfolding start_with
  start_with-SameView none s t ahead p now = (refl, refl, refl)
  start_with-SameView (some marks) s t ahead p now =
      let s' = fire s marks t p now in
      ground (arith, fire-SameView s marks t p now, by_vision-SameView s' s'.fired_at t ahead now)

  abbrev pub Prepared : ℕ → Phase → LaneFollower F × Move → Type 0
  Prepared leg phase (s, move) = Tracked leg phase s × MoveFits move s.phase

  armed_if-Steps :
      (leg : ℕ) (phase : Phase) (b : Bool) (ph : Phase) (n : ℕ) (t : ResolvedTurn F)
      → is_turn t ≡ true
      → NotTurning ph
      → Steps leg phase n ph
      → Steps leg phase n (armed_if b ph)
        × TurnSpec (armed_if b ph) (some t)
        × NotTurning (armed_if b ph)
  unfolding armed_if
  armed_if-Steps leg phase true follow n t turns ok_phase h =
      (then_step n follow n armed h (Step.arm n), turns, tt)
  armed_if-Steps leg phase false follow n t turns ok_phase h = (h, tt, tt)
  armed_if-Steps leg phase b armed n t turns ok_phase h = (h, turns, tt)
  armed_if-Steps leg phase b turning n t turns ok_phase h = elim ok_phase [ ]

  arm_if-fields :
      (b : Bool) (s : LaneFollower F)
      → ((arm_if b s).leg ≡ s.leg)
        × ((arm_if b s).phase ≡ armed_if b s.phase)
        × ((arm_if b s).spec ≡ s.spec)
  unfolding armed_if
  arm_if-fields b s = ground arith

  arm_if-Tracked :
      (leg : ℕ) (phase : Phase) (b : Bool) (s : LaneFollower F) (t : ResolvedTurn F)
      → s.spec ≡ some t
      → is_turn t ≡ true
      → NotTurning s.phase
      → Tracked leg phase s
      → Tracked leg phase (arm_if b s) × NotTurning (arm_if b s).phase
  arm_if-Tracked leg phase b s t e turns ok_phase h =
      let (l, p, sp) = arm_if-fields b s in
      let (steps, spec, still) = armed_if-Steps leg phase b s.phase s.leg t turns ok_phase h.0 in
      rw (l, p, sp, e) ((steps, spec), still)

  started-Prepared :
      (leg : ℕ) (phase : Phase) (s : LaneFollower F) (r : LaneFollower F × Bool)
      → s.phase ≡ armed
      → SameView s r.0
      → Tracked leg phase s
      → Prepared leg phase (move_for r)
  started-Prepared leg phase s (s', true) e same h =
      (Tracked-same leg phase s s' same h, same.1 ∙ e)
  started-Prepared leg phase s (s', false) e same h =
      (Tracked-same leg phase s s' same h, rw (same.1 ∙ e) tt)

  unturned-follow :
      (t : ResolvedTurn F) (ph : Phase) (spec : Option (ResolvedTurn F))
      → spec ≡ some t
      → is_turn t ≡ false
      → NotTurning ph
      → TurnSpec ph spec
      → ph ≡ follow
  unturned-follow t follow spec e straight ok_phase h = refl
  unturned-follow t armed spec e straight ok_phase h = absurd (cc (straight, rw e at h))
  unturned-follow t turning spec e straight ok_phase h = elim ok_phase [ ]

  pub prepare-Prepared :
      (leg : ℕ) (phase : Phase) (k : FollowerConfig F) (w : Senses F) (l : LaneLeg F)
      (e : Point F × Point F) (t : ResolvedTurn F) (s : LaneFollower F)
      → s.spec ≡ some t
      → NotTurning s.phase
      → Tracked leg phase s
      → Prepared leg phase (prepare k w l e t s)
  unfolding prepare should_start_turn
  prepare-Prepared leg phase k w l e t s spec ok_phase h =
      let ahead = exit_ahead e w.at in
      let s' = arm_if (le ahead (arm_within t l s.straight_gate)) s in
      elim (Bool-cases (is_turn t)) [
        | inl turns ↦
            let (h', still) = arm_if-Tracked leg phase _ s t spec turns ok_phase h in
            elim (Bool-cases (is_armed s'.phase)) [
              | inl ready ↦
                  rw (turns, ready)
                    (started-Prepared leg phase s' (start_with w.marks s' t ahead w.at w.now)
                      (is_armed-armed s'.phase ready)
                      (start_with-SameView w.marks s' t ahead w.at w.now) h')
              | inr not_yet ↦ rw (turns, not_yet) (h', still)
            ]
        | inr straight ↦
            let following = unturned-follow t s.phase s.spec spec straight ok_phase h.1 in
            elim (Bool-cases (le ahead nought)) [
              | inl beyond ↦ rw (straight, beyond) (h, following)
              | inr before ↦ rw (straight, before) (h, ok_phase)
            ]
      ]
