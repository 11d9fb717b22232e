-- ===== src/Navigation/LaneRoute/Folded.antt =====
-- What folding keeps of a route.
use autonomous_rc_taxi.Prelude.{
  suc, true, false, ◌≡◌, refl, String, Option, none, some, List, [], ◌∷◌, arith, length, ◌==◌, ap,
}
use autonomous_rc_taxi.Result.{ok}
use autonomous_rc_taxi.Mapping.Geometry.{Point}
use autonomous_rc_taxi.Mapping.Matcher.{SegmentKind, lane, connector}
use autonomous_rc_taxi.Navigation.Planner.{RouteSegment, Route}
use autonomous_rc_taxi.Navigation.LaneRoute.{
  LaneLeg, Turn, LaneRoute, Folds, fold, leg_of, next_leg, first_leg, turn_of, entry, exit,
  last_point, from_route, new_route, is_empty,
}

abbrev id_if : SegmentKind → SegmentKind → String → List String → List String
id_if lane lane id ids = id ∷ ids
id_if connector connector id ids = id ∷ ids
id_if _ _ id ids = ids

module _ {F : Type 0} where
  -- a lane, then a connector and a lane, as often as you like
  pub data Alternates : List (RouteSegment F) → Type 0 where
    last_lane :
        (s : RouteSegment F) (p : Point F) (ps : List (Point F))
        → s.kind ≡ lane
        → s.centerline ≡ p ∷ ps
        → Alternates (s ∷ [])
    lane_and_turn :
        (s c : RouteSegment F) (p : Point F) (ps : List (Point F)) (rest : List (RouteSegment F))
        → s.kind ≡ lane
        → s.centerline ≡ p ∷ ps
        → c.kind ≡ connector
        → Alternates rest
        → Alternates (s ∷ c ∷ rest)

  -- the ids of the segments of one kind
  abbrev pub ids_of : SegmentKind → List (RouteSegment F) → List String
  ids_of k [] = []
  ids_of k (s ∷ ss) = id_if k s.kind s.segment_id (ids_of k ss)

  abbrev pub leg_ids : List (LaneLeg F) → List String
  leg_ids [] = []
  leg_ids (l ∷ ls) = l.lane_id ∷ leg_ids ls

  abbrev pub turn_ids : List (Turn F) → List String
  turn_ids [] = []
  turn_ids (t ∷ ts) = t.connector_id ∷ turn_ids ts

  last_point_some :
      (p : Point F) (ps : List (Point F)) → (q : Point F) × (last_point (p ∷ ps) ≡ ok q)
  unfolding last_point
  last_point_some p [] = (p, refl)
  last_point_some p (q ∷ ps) = last_point_some q ps

  leg_points :
      (s : RouteSegment F) (p : Point F) (ps : List (Point F))
      → (q : Point F) × (exit (leg_of s (p ∷ ps)) ≡ ok q) × (entry (leg_of s (p ∷ ps)) ≡ ok p)
  unfolding entry exit
  leg_points s p [] = (p, refl, refl)
  leg_points s p (q ∷ ps) = let (e, h) = last_point_some q ps in (e, h, refl)

  pub fold-lane :
      (b : LaneLeg F) (pending : Option (RouteSegment F)) (s : RouteSegment F) (p : Point F)
      (ps : List (Point F)) (segs : List (RouteSegment F))
      → s.kind ≡ lane
      → s.centerline ≡ p ∷ ps
      → fold (some b) pending (s ∷ segs)
        ≡ next_leg b pending (leg_of s (p ∷ ps)) (fold (some (leg_of s (p ∷ ps))) none segs)
  unfolding fold
  fold-lane b pending s p ps segs k c = rw (k, c) refl

  fold-first :
      (s : RouteSegment F) (p : Point F) (ps : List (Point F)) (segs : List (RouteSegment F))
      → s.kind ≡ lane
      → s.centerline ≡ p ∷ ps
      → fold none none (s ∷ segs)
        ≡ first_leg (leg_of s (p ∷ ps)) (fold (some (leg_of s (p ∷ ps))) none segs)
  unfolding fold
  fold-first s p ps segs k c = rw (k, c) refl

  fold-nil :
      (b : Option (LaneLeg F)) (pending : Option (RouteSegment F)) → fold b pending [] ≡ ok ([], [])
  unfolding fold
  fold-nil b pending = refl

  pub fold-connector :
      (b : Option (LaneLeg F)) (pending : Option (RouteSegment F)) (s : RouteSegment F)
      (segs : List (RouteSegment F))
      → s.kind ≡ connector
      → fold b pending (s ∷ segs) ≡ fold b (some s) segs
  unfolding fold
  fold-connector b pending s segs k = simp k refl

  turn_of-id :
      (b leg : LaneLeg F) (c : RouteSegment F) (q p : Point F)
      → exit b ≡ ok q
      → entry leg ≡ ok p
      → (t : Turn F) × (turn_of b c leg ≡ ok t) × (t.connector_id ≡ c.segment_id)
  unfolding turn_of
  turn_of-id b leg c q p e h = rw (e, h) (_, refl, refl)

  -- the fold over lanes and turns, behind a connector or at the end
  abbrev Kept : List String → List String → Folds F → Type 0
  Kept lanes conns r =
      (legs : List (LaneLeg F)) × (turns : List (Turn F)) × (r ≡ ok (legs, turns))
      × (leg_ids legs ≡ lanes)
      × (turn_ids turns ≡ conns)
      × (length turns ≡ length legs)

  next_leg-Kept :
      (b leg : LaneLeg F) (c : RouteSegment F) (q p : Point F) (lanes conns : List String)
      (r : Folds F)
      → exit b ≡ ok q
      → entry leg ≡ ok p
      → Kept lanes conns r
      → Kept (leg.lane_id ∷ lanes) (c.segment_id ∷ conns) (next_leg b (some c) leg r)
  unfolding next_leg
  next_leg-Kept b leg c q p lanes conns r e h k =
      let (t, made, named) = turn_of-id b leg c q p e h in
      let (legs, turns, e0, e1, e2, e3) = k in
      (leg ∷ legs, t ∷ turns, rw (made, e0) refl, rw e1 refl, rw (named, e2) refl, ap suc e3)

  fold-Kept :
      (b : LaneLeg F) (q : Point F) (c : RouteSegment F) (segs : List (RouteSegment F))
      → exit b ≡ ok q
      → Alternates segs
      → Kept (ids_of lane segs) (c.segment_id ∷ ids_of connector segs) (fold (some b) (some c) segs)
  fold-Kept b q c segs e (last_lane s p ps k cl) =
      let (z, out, in_) = leg_points s p ps in
      let done : Kept [] [] (fold (some (leg_of s (p ∷ ps))) none []) =
        ([], [], fold-nil _ none, refl, refl, refl) in
      simp (k, fold-lane b (some c) s p ps [] k cl)
        (next_leg-Kept b (leg_of s (p ∷ ps)) c q p [] [] _ e in_ done)
  fold-Kept b q c segs e (lane_and_turn s c' p ps rest k cl k' a) =
      let (z, out, in_) = leg_points s p ps in
      let there = fold-Kept (leg_of s (p ∷ ps)) z c' rest out a in
      simp
        (
          k,
          k',
          fold-lane b (some c) s p ps (c' ∷ rest) k cl,
          fold-connector (some (leg_of s (p ∷ ps))) none c' rest k',
        )
        (next_leg-Kept b (leg_of s (p ∷ ps)) c q p _ _ _ e in_ there)

  first-Kept :
      (segs : List (RouteSegment F))
      → Alternates segs
      → (legs : List (LaneLeg F)) × (turns : List (Turn F)) × (fold none none segs
          ≡ ok (legs, turns))
        × (leg_ids legs ≡ ids_of lane segs)
        × (turn_ids turns ≡ ids_of connector segs)
        × (suc (length turns) ≡ length legs)
  first-Kept segs (last_lane s p ps k cl) =
      simp (k, fold-first s p ps [] k cl, fold-nil (some (leg_of s (p ∷ ps))) none)
        (leg_of s (p ∷ ps) ∷ [], [], refl, refl, refl, refl)
  first-Kept segs (lane_and_turn s c p ps rest k cl k' a) =
      let (z, out, in_) = leg_points s p ps in
      let (legs, turns, e0, e1, e2, e3) = fold-Kept (leg_of s (p ∷ ps)) z c rest out a in
      simp
        (
          k,
          k',
          fold-first s p ps (c ∷ rest) k cl,
          fold-connector (some (leg_of s (p ∷ ps))) none c rest k',
          e0,
        )
        (leg_of s (p ∷ ps) ∷ legs, turns, refl, ap (λ x. s.segment_id ∷ x) e1, e2, ap suc e3)

  new_route-ok :
      (legs : List (LaneLeg F)) (turns : List (Turn F)) (total : F)
      → suc (length turns) ≡ length legs
      → (is_empty legs ≡ false)
        × (new_route legs turns total
            ≡ ok (record { legs = legs; turns = turns; total_length_m = total }))
  unfolding new_route
  new_route-ok [] turns total h = absurd (ground arith)
  new_route-ok (l ∷ ls) turns total h =
      let same : suc (length turns) == length (l ∷ ls) ≡ true = ground (arith, h) in
      (refl, rw same refl)

  -- A route of lanes with points and single connectors between them folds without an error; the legs
  -- are its lanes and the turns its connectors, in order, and there is one leg more than turns.
  pub from_route_legs :
      (r : Route F)
      → Alternates r.segments
      → (f : LaneRoute F) × (from_route r ≡ ok f)
        × (leg_ids f.legs ≡ ids_of lane r.segments)
        × (turn_ids f.turns ≡ ids_of connector r.segments)
        × (suc (length f.turns) ≡ length f.legs)
  unfolding from_route
  from_route_legs r a =
      let (legs, turns, e0, e1, e2, e3) = first-Kept r.segments a in
      let (full, made) = new_route-ok legs turns r.total_length_m e3 in
      (
        record { legs = legs; turns = turns; total_length_m = r.total_length_m },
        rw (e0, full) made,
        e1,
        e2,
        e3,
      )
