-- ===== src/Control/Compute/Stages.antt =====
-- A call of `_drive_leg` in rc_car/control/lane_follower.py answers, or goes on to a later leg.
use Prim.Native.Nat.{◌+◌ as plus}
use autonomous_rc_taxi.Prelude.{
  ℕ, suc, ◌≤◌, ◌<◌, Bool, true, false, ◌≡◌, refl, Option, none, some, arith, length, get_elem?,
  get_elem_lt,
}
use autonomous_rc_taxi.Floats.{Double}
use autonomous_rc_taxi.Floats.Laws.{IsOrdered, IsAdditive}
use autonomous_rc_taxi.Result.{Result, ok, ◌>>=◌}
use autonomous_rc_taxi.Mapping.Geometry.{Point}
use autonomous_rc_taxi.Navigation.LaneRoute.{LaneLeg, Turn, LaneRoute}
use autonomous_rc_taxi.Navigation.TurnTable.{ResolvedTurn, TurnTable, resolve, value_or, resolved}
use autonomous_rc_taxi.Control.Follower.{
  LaneFollower, FollowerConfig, Phase, follow, armed, turning, advance_leg,
}
use autonomous_rc_taxi.Control.Steer.Bounds.{Within, limited-Within}
use autonomous_rc_taxi.Control.Corner.{
  Senses, Driven, Stage, answer, drive_on, drive_turn, fused_span, span_over, begin_turn,
}
use autonomous_rc_taxi.Control.Compute.{
  Move, keep_on, start_turn, cross, prepare, crossed, steer_leg, turn_or_leg, move_on,
  unless_stopped,
}
use autonomous_rc_taxi.Control.Compute.Ready.{
  IsDrivable, IsConfigured, TurnReady, SpecWithin, IsReady, StageReady,
}
use autonomous_rc_taxi.Control.Compute.Steered.{Answers, steer_leg-Answers}
use autonomous_rc_taxi.Control.Compute.Turned.{drive_turn-StageReady}
use autonomous_rc_taxi.Control.Compute.Legs.{NotTurning, OnLeg, prepare-OnLeg}

module _ {F : Type 0} ⦃d : Double F⦄ where
  span_over_bounds :
      (table : TurnTable F) (t : Option (Turn F))
      → (1 ≤ span_over table t) × (span_over table t ≤ 2)
  span_over_bounds table none = (omega arith, omega arith)
  span_over_bounds table (some t) = ground arith

  -- a fused turn ends on a leg of the route, too
  fused_span-in_range :
      (table : TurnTable F) (r : LaneRoute F) (leg : ℕ) (t : ResolvedTurn F)
      → suc leg < length r.legs
      → (1 ≤ fused_span table r leg t) × (plus leg (fused_span table r leg t) < length r.legs)
  unfolding fused_span
  fused_span-in_range table r leg t h =
      ground (arith, h, span_over_bounds table (get_elem? r.turns (suc leg)))

  NotTurning-TurnReady :
      (r : LaneRoute F) (leg : ℕ) (ph : Phase) (spec : Option (ResolvedTurn F)) (span : ℕ)
      → NotTurning ph
      → TurnReady r leg ph spec span
  NotTurning-TurnReady r leg follow spec span h = tt
  NotTurning-TurnReady r leg armed spec span h = tt
  NotTurning-TurnReady r leg turning spec span h = elim h [ ]

  pub OnLeg-IsReady :
      (m : F) (n : ℕ) (spec : Option (ResolvedTurn F)) (r : LaneRoute F) (s : LaneFollower F)
      → n < length r.legs
      → SpecWithin m spec
      → OnLeg m n spec (some r) s
      → IsReady m r s
  OnLeg-IsReady m n spec r s h within (at, ph, same, wheel, keeps) = (
    omega (arith, h, at),
    NotTurning-TurnReady r s.leg s.phase s.spec s.fuse_span ph,
    rw same within,
    wheel,
    keeps,
  )

  -- what a call that ends has to show
  abbrev pub Ends : F → LaneRoute F → ℕ → Result (Stage F) → Type 0
  Ends m r n o = (st : Stage F) × (o ≡ ok st) × StageReady m r n st

  crossed-StageReady :
      (m : F) (n : ℕ) (r : LaneRoute F) (k : FollowerConfig F) (turn : Turn F) (p : Point F)
      (s : LaneFollower F)
      → suc n < length r.legs
      → s.leg ≡ n
      → s.route ≡ some r
      → StageReady m r n (drive_on (crossed k turn p s))
  unfolding crossed advance_leg
  crossed-StageReady m n r k turn p s h at keeps = ground (arith, h, at, keeps)

  StageReady-same :
      (m : F) (r : LaneRoute F) {a b : ℕ} (st : Stage F)
      → a ≡ b
      → StageReady m r a st
      → StageReady m r b st
  StageReady-same m r (answer x) e h = h
  StageReady-same m r (drive_on s) e (lt_leg, ph, ready) = (omega (arith, e, lt_leg), ph, ready)

  begin_turn-Ends :
      (m : F) (n : ℕ) (r : LaneRoute F) (k : FollowerConfig F) (w : Senses F) (t : ResolvedTurn F)
      (s : LaneFollower F)
      → IsDrivable r
      → suc n < length r.legs
      → Within m t.wheel_deg
      → OnLeg m n (some t) (some r) s
      → Ends m r n (drive_turn k w r (begin_turn k r t w.at s))
  unfolding begin_turn
  begin_turn-Ends m n r k w t s drivable h within (at, ph, same, wheel, keeps) =
      let (one, range) = fused_span-in_range k.table r s.leg t (omega (arith, at, h)) in
      let begun = begin_turn k r t w.at s in
      let ready : IsReady m r begun =
        (omega (arith, at, h), ((t, same), one, range), rw same within, wheel, keeps) in
      let (st, e, good) = drive_turn-StageReady m r k w begun drivable refl ready in
      (st, e, StageReady-same m r st at good)

  resolve-Within :
      (laws : IsOrdered F) (k : FollowerConfig F)
      → IsConfigured k
      → (turn : Turn F) → Within k.max_wheel (resolve k.table turn).wheel_deg
  unfolding resolve resolved
  resolve-Within laws k c turn = rw c.same_limit (limited-Within laws k.max_wheel _ c.limit_pos)

  known-Within :
      (laws : IsOrdered F) (k : FollowerConfig F)
      → IsConfigured k
      → (turn : Turn F) (spec : Option (ResolvedTurn F)) → SpecWithin k.max_wheel spec
      → Within k.max_wheel (value_or (resolve k.table turn) spec).wheel_deg
  known-Within laws k c turn none h = resolve-Within laws k c turn
  known-Within laws k c turn (some t) h = h

  Answers-StageReady :
      (m : F) (n : ℕ) (spec : Option (ResolvedTurn F)) (r : LaneRoute F) (s : LaneFollower F)
      (a : Driven F)
      → n < length r.legs
      → SpecWithin m spec
      → OnLeg m n spec (some r) s
      → Answers m s a
      → StageReady m r n (answer a)
  Answers-StageReady m n spec r s a h within (at, ph, same, wheel, keeps) ans =
      let (cmd, ok_now, hdg, guard, e2, e3, lim) = ans in
      let s' = record s {
        seg_ok_now = ok_now;
        seg_hdg_on = hdg;
        hdg_guard_on = guard;
        last_wheel = some cmd.steering_wheel_deg;
      } in
      let ready = OnLeg-IsReady m n spec r s' h within (at, ph, same, lim, keeps) in
      (rw e2 lim, rw e3 ready)

module _ {F : Type 0} ⦃d : Double F⦄ (laws : IsOrdered F) (sums : IsAdditive F)
    (k : FollowerConfig F) (c : IsConfigured k) (r : LaneRoute F) (drivable : IsDrivable r)
    (w : Senses F) (leg : LaneLeg F) (is_final : Bool) (e : Point F × Point F) (t : Point F)
    (remaining : F) where
  steer_leg-Ends :
      (n : ℕ) (spec : Option (ResolvedTurn F)) (s : LaneFollower F)
      → n < length r.legs
      → SpecWithin k.max_wheel spec
      → OnLeg k.max_wheel n spec (some r) s
      → Ends k.max_wheel r n (steer_leg k w leg is_final e t remaining s >>= λ a. ok (answer a))
  steer_leg-Ends n spec s h within on =
      let (a, e1, ans) = steer_leg-Answers laws sums k c w leg is_final e t remaining s on.3 in
      rw e1 (answer a, refl, Answers-StageReady k.max_wheel n spec r s a h within on ans)

  move_on-Ends :
      (n : ℕ) (turn : Turn F) (spec : ResolvedTurn F) (sm : LaneFollower F × Move)
      → suc n < length r.legs
      → Within k.max_wheel spec.wheel_deg
      → OnLeg k.max_wheel n (some spec) (some r) sm.0
      → Ends k.max_wheel r n (move_on k w r turn spec (steer_leg k w leg is_final e t remaining) sm)
  move_on-Ends n turn spec (s, keep_on) h within on =
      steer_leg-Ends n (some spec) s (omega (arith, h)) within on
  move_on-Ends n turn spec (s, start_turn) h within on =
      begin_turn-Ends k.max_wheel n r k w spec s drivable h within on
  move_on-Ends n turn spec (s, cross) h within (at, ph, same, wheel, keeps) =
      (_, refl, crossed-StageReady k.max_wheel n r k turn w.at s h at keeps)

  pub turn_or_leg-Ends :
      (n : ℕ) (spec : Option (ResolvedTurn F)) (s : LaneFollower F) (turn : Option (Turn F))
      → n < length r.legs
      → SpecWithin k.max_wheel spec
      → OnLeg k.max_wheel n spec (some r) s
      → get_elem? r.turns n ≡ turn
      → Ends k.max_wheel r n
          (turn_or_leg k w r leg e (steer_leg k w leg is_final e t remaining) turn s)
  unfolding turn_or_leg
  turn_or_leg-Ends n spec s none h within on found = steer_leg-Ends n spec s h within on
  turn_or_leg-Ends n spec s (some turn) h within (at, ph, same, wheel, keeps) found =
      let known = value_or (resolve k.table turn) s.spec in
      let more : suc n < length r.legs = omega (arith, get_elem_lt r.turns n found, drivable.1) in
      let lim = known-Within laws k c turn s.spec (rw same within) in
      let prepared =
        prepare-OnLeg k.max_wheel n (some known) (some r) k w leg e known
          (record s { spec = some known }) (at, ph, refl, wheel, keeps) in
      move_on-Ends n turn known (prepare k w leg e known (record s { spec = some known })) more lim
        prepared

  pub unless_stopped-Ends :
      (n : ℕ) (s : LaneFollower F) (stops : Bool) (later : Result (Stage F))
      → IsReady k.max_wheel r s
      → Ends k.max_wheel r n later
      → Ends k.max_wheel r n (unless_stopped remaining s stops later)
  unless_stopped-Ends n s true later ready h = (_, refl, (tt, ready))
  unless_stopped-Ends n s false later ready h = h
