-- ===== src/Navigation/LaneRoute/Numbered.antt =====
-- rc_car/navigation/lane_route.py: `from_lane_numbers`, a route given by its lane numbers.
pub mod Designed
use autonomous_rc_taxi.Mapping.LaneMap.Connected.{guard_passed}
use autonomous_rc_taxi.Prelude.{
  ℕ, suc, not, ◌≡◌, refl, sym, ap, ◌∙◌, String, Option, some, List, [], ◌∷◌, length, ltb, arith,
  ◌==◌,
}
use autonomous_rc_taxi.Floats.{Double, ◌+◌, nought}
use autonomous_rc_taxi.Result.{
  Result, ok, err, key_error, lane_route_error, ◌>>=◌, ◌>>◌, guard, from_option, >>=-eq-ok,
  ok-injective,
}
use autonomous_rc_taxi.Keys.{find}
use autonomous_rc_taxi.Mapping.LaneMap.{LaneMap, LaneSegment, Connector}
use autonomous_rc_taxi.Navigation.Numbers.{num2id}
use autonomous_rc_taxi.Navigation.Forced.{joining}
use autonomous_rc_taxi.Navigation.LaneRoute.{
  LaneLeg, Turn, LaneRoute, entry, exit, new_route, is_empty,
}

-- the numbers with their ids
named : List ℕ → Result (List (ℕ × String))
named [] = ok []
named (n ∷ ns) = do
  id ← from_option (num2id n) lane_route_error
  rest ← named ns
  ok ((n, id) ∷ rest)

module _ {F : Type 0} where
  abbrev whole_lane : ℕ → String → LaneSegment F → LaneLeg F
  whole_lane num lid l = record {
    lane_id = lid;
    lane_num = some num;
    points = l.centerline;
    speed_limit_mps = l.speed_limit_mps;
    length_m = l.length_m;
  }

  turn_between : LaneLeg F → String → Connector F → LaneLeg F → Result (Turn F)
  unfolding entry exit
  turn_between before cid c leg = do
    from ← exit before
    to ← entry leg
    ok (record {
      connector_id = cid;
      maneuver = c.maneuver;
      from_num = before.lane_num;
      to_num = leg.lane_num;
      to_lane_id = leg.lane_id;
      radius_m = c.radius_m;
      length_m = c.length_m;
      entry_point = from;
      exit_point = to;
    })

module _ {F : Type 0} ⦃d : Double F⦄ where
  -- the loop behind the leg `before`: the legs and turns that follow, and the total
  numbered :
      LaneMap F → F → LaneLeg F → List (ℕ × String) → Result (List (LaneLeg F) × List (Turn F) × F)
  unfolding turn_between
  numbered m total before [] = ok ([], [], total)
  numbered m total before ((num, lid) ∷ rest) = do
    l ← from_option (find lid m.lanes) key_error
    let leg = whole_lane num lid l
    l0 ← from_option (find before.lane_id m.lanes) key_error
    found ← joining m.connectors lid l0.successors
    (cid, c) ← from_option found lane_route_error
    turn ← turn_between before cid c leg
    (legs, turns, sum) ← numbered m (total + l.length_m + c.length_m) leg rest
    ok (leg ∷ legs, turn ∷ turns, sum)

  abbrev from_named : LaneMap F → List (ℕ × String) → Result (LaneRoute F)
  from_named m [] = err lane_route_error
  from_named m ((num, lid) ∷ rest) = do
    l ← from_option (find lid m.lanes) key_error
    (legs, turns, sum) ← numbered m (nought + l.length_m) (whole_lane num lid l) rest
    new_route (whole_lane num lid l ∷ legs) turns sum

  unfoldable pub from_lane_numbers : LaneMap F → List ℕ → Result (LaneRoute F)
  unfolding named numbered
  from_lane_numbers m numbers = do
    guard (not (ltb (length numbers) 1)) lane_route_error
    ids ← named numbers
    from_named m ids

module _ {F : Type 0} where
  pub new_route-legs :
      (legs : List (LaneLeg F)) (turns : List (Turn F)) (total : F) {r : LaneRoute F}
      → new_route legs turns total ≡ ok r
      → (r.legs ≡ legs) × (suc (length r.turns) ≡ length r.legs)
  unfolding new_route
  new_route-legs legs turns total h =
      let same = suc (length turns) == length legs in
      let full = guard (not (is_empty legs)) lane_route_error in
      let (u, e, h1) = >>=-eq-ok (full >> guard same lane_route_error) _ h in
      let (u', e1, e2) = >>=-eq-ok full _ e in
      let eq : suc (length turns) ≡ length legs =
        ground (arith, guard_passed same lane_route_error e2) in
      rw (← ok-injective h1) (refl, eq)
