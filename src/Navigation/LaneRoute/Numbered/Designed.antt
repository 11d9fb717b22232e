-- ===== src/Navigation/LaneRoute/Numbered/Designed.antt =====
-- What a route given by its lane numbers drives (rc_car/navigation/lane_route.py,
-- `from_lane_numbers`).
use autonomous_rc_taxi.Prelude.{
  ℕ, ◌≡◌, refl, sym, subst, String, some, List, [], ◌∷◌, All, suc, ◌==◌, ap, arith, not, ltb,
  length,
}
use autonomous_rc_taxi.Floats.{Double, ◌+◌, nought}
use autonomous_rc_taxi.Result.{
  ok, key_error, lane_route_error, from_option, from_option-eq-ok, >>=-eq-ok, ok-injective, guard,
  ◌>>◌,
}
use autonomous_rc_taxi.Keys.{find}
use autonomous_rc_taxi.Mapping.LaneMap.{LaneMap, LaneSegment, Connector}
use autonomous_rc_taxi.Navigation.Numbers.{num2id}
use autonomous_rc_taxi.Navigation.Planner.Connected.{Joins}
use autonomous_rc_taxi.Navigation.Forced.{joining}
use autonomous_rc_taxi.Navigation.Forced.Connected.{joining-eq-some}
use autonomous_rc_taxi.Navigation.LaneRoute.{
  LaneLeg, Turn, LaneRoute, entry, exit, new_route, is_empty,
}
use autonomous_rc_taxi.Navigation.LaneRoute.Numbered.{
  named, whole_lane, turn_between, numbered, from_named, from_lane_numbers,
}

abbrev firsts : List (ℕ × String) → List ℕ
firsts [] = []
firsts ((n, id) ∷ rest) = n ∷ firsts rest

abbrev Named : ℕ × String → Type 0
Named a = num2id a.0 ≡ some a.1

named-Named :
    (numbers : List ℕ) {ids : List (ℕ × String)}
    → named numbers ≡ ok ids
    → (firsts ids ≡ numbers) × All Named ids
unfolding named
named-Named [] h = subst (λ ids. (firsts ids ≡ []) × All Named ids) (ok-injective h) (refl, tt)
named-Named (n ∷ ns) h =
    let (id, e, h1) = >>=-eq-ok (from_option (num2id n) lane_route_error) _ h in
    let (rest, e1, h2) = >>=-eq-ok (named ns) _ h1 in
    let (same, all) = named-Named ns e1 in
    subst (λ ids. (firsts ids ≡ n ∷ ns) × All Named ids) (ok-injective h2)
      (ap (λ t. n ∷ t) same, (from_option-eq-ok (num2id n) lane_route_error e, all))

module _ {F : Type 0} where
  -- the whole of the lane with the number
  abbrev pub Whole : LaneMap F → ℕ → LaneLeg F → Type 0
  Whole m n leg =
      (leg.lane_num ≡ some n)
      × (num2id n ≡ some leg.lane_id)
      × ((l : LaneSegment F) × (find leg.lane_id m.lanes ≡ some l) × (leg.points ≡ l.centerline))

  -- over a connector of the map from one leg to the next, from its end to the other's begin
  abbrev pub Turned : LaneMap F → LaneLeg F → Turn F → LaneLeg F → Type 0
  Turned m before t leg =
      Joins m before.lane_id t.connector_id leg.lane_id
      × (t.to_lane_id ≡ leg.lane_id)
      × (exit before ≡ ok t.entry_point)
      × (entry leg ≡ ok t.exit_point)

  -- the legs and turns behind a leg
  abbrev pub Behind : LaneMap F → LaneLeg F → List ℕ → List (LaneLeg F) → List (Turn F) → Type 0
  Behind m before [] [] [] = Unit
  Behind m before (n ∷ ns) (leg ∷ legs) (t ∷ ts) =
      Whole m n leg × Turned m before t leg × Behind m leg ns legs ts
  Behind m before _ _ _ = ⊥

  abbrev pub Drives : LaneMap F → List ℕ → List (LaneLeg F) → List (Turn F) → Type 0
  Drives m (n ∷ ns) (leg ∷ legs) ts = Whole m n leg × Behind m leg ns legs ts
  Drives m _ _ _ = ⊥

  -- a turn ends at the legs' points
  turn_between-ends :
      (before leg : LaneLeg F) (cid : String) (c : Connector F) {t : Turn F}
      → turn_between before cid c leg ≡ ok t
      → (t.connector_id ≡ cid)
        × (t.to_lane_id ≡ leg.lane_id)
        × (exit before ≡ ok t.entry_point)
        × (entry leg ≡ ok t.exit_point)
  unfolding turn_between
  turn_between-ends before leg cid c h =
      let (from, e, h1) = >>=-eq-ok (exit before) _ h in
      let (to, e1, h2) = >>=-eq-ok (entry leg) _ h1 in
      subst
        (λ t.
          (t.connector_id ≡ cid)
          × (t.to_lane_id ≡ leg.lane_id)
          × (exit before ≡ ok t.entry_point)
          × (entry leg ≡ ok t.exit_point))
        (ok-injective h2) (refl, refl, e, e1)

  new_route-parts :
      (legs : List (LaneLeg F)) (turns : List (Turn F)) (total : F) {r : LaneRoute F}
      → new_route legs turns total ≡ ok r
      → (r.legs ≡ legs) × (r.turns ≡ turns)
  unfolding new_route
  new_route-parts legs turns total h =
      let same = suc (length turns) == length legs in
      let full = guard (not (is_empty legs)) lane_route_error in
      let (u, e, h1) = >>=-eq-ok (full >> guard same lane_route_error) _ h in
      rw (← ok-injective h1) (refl, refl)

module _ {F : Type 0} ⦃d : Double F⦄ (m : LaneMap F) where
  -- by the ids of the numbers
  numbered-Behind :
      (total : F) (before : LaneLeg F) (ids : List (ℕ × String)) {legs : List (LaneLeg F)}
      {turns : List (Turn F)} {sum : F}
      → All Named ids
      → numbered m total before ids ≡ ok (legs, turns, sum)
      → Behind m before (firsts ids) legs turns
  unfolding numbered
  numbered-Behind total before [] all h =
      subst (λ r. Behind m before [] r.0 r.1) (ok-injective h) tt
  numbered-Behind total before ((num, lid) ∷ rest) (this, all) h =
      let (l, e, h1) = >>=-eq-ok (from_option (find lid m.lanes) key_error) _ h in
      let (l0, e0, h2) = >>=-eq-ok (from_option (find before.lane_id m.lanes) key_error) _ h1 in
      let (found, e1, h3) = >>=-eq-ok (joining m.connectors lid l0.successors) _ h2 in
      let ((cid, c), e2, h4) = >>=-eq-ok (from_option found lane_route_error) _ h3 in
      let leg : LaneLeg F = whole_lane num lid l in
      let (turn, e3, h5) = >>=-eq-ok (turn_between before cid c leg) _ h4 in
      let next = numbered m (total + l.length_m + c.length_m) leg rest in
      let ((legs, turns, sum), e4, h6) = >>=-eq-ok next _ h5 in
      let from = from_option-eq-ok (find before.lane_id m.lanes) key_error e0 in
      let conn = from_option-eq-ok found lane_route_error e2 in
      let (mem, at, succ) = joining-eq-some m lid l0.successors (rw conn at e1) in
      let (id, to, start, stop) = turn_between-ends before leg cid c e3 in
      let joins : Joins m before.lane_id turn.connector_id lid =
        subst (λ k. Joins m before.lane_id k lid) (sym id) (l0, c, from, mem, at, succ) in
      let whole : Whole m num leg =
        (refl, this, (l, from_option-eq-ok (find lid m.lanes) key_error e, refl)) in
      let tail = numbered-Behind (total + l.length_m + c.length_m) leg rest all e4 in
      subst (λ r. Behind m before (num ∷ firsts rest) r.0 r.1) (ok-injective h6)
        (whole, (joins, to, start, stop), tail)

  from_named-Drives :
      (ids : List (ℕ × String)) {r : LaneRoute F}
      → All Named ids
      → from_named m ids ≡ ok r
      → Drives m (firsts ids) r.legs r.turns
  from_named-Drives [] all h = absurd (ground arith)
  from_named-Drives ((num, lid) ∷ rest) (this, all) h =
      let (l, e, h1) = >>=-eq-ok (from_option (find lid m.lanes) key_error) _ h in
      let leg : LaneLeg F = whole_lane num lid l in
      let ((legs, turns, sum), e1, h2) =
        >>=-eq-ok (numbered m (nought + l.length_m) leg rest) _ h1 in
      let whole : Whole m num leg =
        (refl, this, (l, from_option-eq-ok (find lid m.lanes) key_error e, refl)) in
      let behind = numbered-Behind (nought + l.length_m) leg rest all e1 in
      let drives : Drives m (num ∷ firsts rest) (leg ∷ legs) turns = (whole, behind) in
      let (kept, turned) = new_route-parts (leg ∷ legs) turns sum h2 in rw (kept, turned) drives

  -- A route made from lane numbers drives the whole of exactly those lanes of the map, in that order:
  -- each leg has the number, its id and the lane's points, and one turn between each two legs follows
  -- a connector of the map from the one to the other, from the end of the one to the begin of the
  -- other.
  pub from_lane_numbers-Drives :
      (numbers : List ℕ) {r : LaneRoute F}
      → from_lane_numbers m numbers ≡ ok r
      → Drives m numbers r.legs r.turns
  unfolding from_lane_numbers
  from_lane_numbers-Drives numbers {r = r} h =
      let (u, e, h1) = >>=-eq-ok (guard (not (ltb (length numbers) 1)) lane_route_error) _ h in
      let (ids, e1, h2) = >>=-eq-ok (named numbers) _ h1 in
      let (same, all) = named-Named numbers e1 in
      subst (λ ns. Drives m ns r.legs r.turns) same (from_named-Drives ids all h2)
