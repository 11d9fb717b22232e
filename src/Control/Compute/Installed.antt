-- ===== src/Control/Compute/Installed.antt =====
-- The routes that rc_car/navigation/lane_route.py gives to rc_car/control/lane_follower.py.
use autonomous_rc_taxi.Prelude.{
  not, ◌≡◌, refl, Option, none, some, List, [], ◌∷◌, All, ◌⊎◌, inl, inr,
}
use autonomous_rc_taxi.Result.{Result, ok, err, ◌>>=◌, >>=-eq-ok, guard, lane_route_error}
use autonomous_rc_taxi.Mapping.Geometry.{Point}
use autonomous_rc_taxi.Mapping.Matcher.{SegmentKind, lane, connector}
use autonomous_rc_taxi.Navigation.Planner.{RouteSegment, Route}
use autonomous_rc_taxi.Navigation.LaneRoute.{
  LaneLeg, Turn, LaneRoute, Folds, fold, leg_of, first_leg, next_leg, turn_of, from_route, is_empty,
}
use autonomous_rc_taxi.Navigation.LaneRoute.Folded.{fold-lane, fold-connector}
use autonomous_rc_taxi.Navigation.LaneRoute.Numbered.{new_route-legs}
use autonomous_rc_taxi.Control.Compute.Ready.{IsDrivable, Pointed}

kind_cases : (k : SegmentKind) → (k ≡ connector) ⊎ (k ≡ lane)
kind_cases connector = inl refl
kind_cases lane = inr refl

module _ {F : Type 0} where
  abbrev AllPointed : Folds F → Type 0
  AllPointed (err raised) = Unit
  AllPointed (ok (legs, turns)) = All Pointed legs

  leg_of-Pointed :
      (s : RouteSegment F) (p : Point F) (ps : List (Point F)) → Pointed (leg_of s (p ∷ ps))
  leg_of-Pointed s p [] = (p, p ∷ [], refl)
  leg_of-Pointed s p (q ∷ ps) = (p, q ∷ ps, refl)

  first_leg-AllPointed :
      (l : LaneLeg F) (r : Folds F) → Pointed l → AllPointed r → AllPointed (first_leg l r)
  first_leg-AllPointed l (err e) h hs = tt
  first_leg-AllPointed l (ok (legs, turns)) h hs = (h, hs)

  bind-AllPointed :
      (l : LaneLeg F) (t : Result (Turn F)) (r : Folds F)
      → Pointed l
      → AllPointed r
      → AllPointed (do turn ← t; (legs, turns) ← r; ok (l ∷ legs, turn ∷ turns))
  bind-AllPointed l (err e) r h hs = tt
  bind-AllPointed l (ok t) (err e) h hs = tt
  bind-AllPointed l (ok t) (ok (legs, turns)) h hs = (h, hs)

  next_leg-AllPointed :
      (b l : LaneLeg F) (pending : Option (RouteSegment F)) (r : Folds F)
      → Pointed l
      → AllPointed r
      → AllPointed (next_leg b pending l r)
  unfolding next_leg
  next_leg-AllPointed b l none r h hs = tt
  next_leg-AllPointed b l (some c) r h hs = bind-AllPointed l (turn_of b c l) r h hs

  points_cases :
      (pts : List (Point F)) → (pts ≡ []) ⊎ ((p : Point F) × (ps : List (Point F)) × (pts ≡ p ∷ ps))
  points_cases [] = inl refl
  points_cases (p ∷ ps) = inr (p, ps, refl)

  fold-skipped :
      (before : Option (LaneLeg F)) (pending : Option (RouteSegment F)) (s : RouteSegment F)
      (segs : List (RouteSegment F))
      → s.kind ≡ lane
      → s.centerline ≡ []
      → fold before pending (s ∷ segs) ≡ fold before pending segs
  unfolding fold
  fold-skipped before pending s segs k c = rw (k, c) refl

  fold-started :
      (pending : Option (RouteSegment F)) (s : RouteSegment F) (p : Point F) (ps : List (Point F))
      (segs : List (RouteSegment F))
      → s.kind ≡ lane
      → s.centerline ≡ p ∷ ps
      → fold none pending (s ∷ segs)
        ≡ first_leg (leg_of s (p ∷ ps)) (fold (some (leg_of s (p ∷ ps))) pending segs)
  unfolding fold
  fold-started pending s p ps segs k c = rw (k, c) refl

  lane-AllPointed :
      (s : RouteSegment F) (p : Point F) (ps : List (Point F)) (segs : List (RouteSegment F))
      (before : Option (LaneLeg F)) (pending : Option (RouteSegment F))
      → s.kind ≡ lane
      → s.centerline ≡ p ∷ ps
      → ((b : Option (LaneLeg F)) (c : Option (RouteSegment F)) → AllPointed (fold b c segs))
      → AllPointed (fold before pending (s ∷ segs))
  lane-AllPointed s p ps segs none pending k c ih =
      rw (fold-started pending s p ps segs k c)
        (first_leg-AllPointed (leg_of s (p ∷ ps)) _ (leg_of-Pointed s p ps) (ih _ pending))
  lane-AllPointed s p ps segs (some b) pending k c ih =
      rw (fold-lane b pending s p ps segs k c)
        (next_leg-AllPointed b (leg_of s (p ∷ ps)) pending _ (leg_of-Pointed s p ps) (ih _ none))

  fold-AllPointed :
      (segs : List (RouteSegment F)) (before : Option (LaneLeg F))
      (pending : Option (RouteSegment F))
      → AllPointed (fold before pending segs)
  unfolding fold
  fold-AllPointed [] before pending = tt
  fold-AllPointed (s ∷ segs) before pending = elim (kind_cases s.kind) [
    | inl e ↦ rw (fold-connector before pending s segs e) (fold-AllPointed segs before (some s))
    | inr e ↦ elim (points_cases s.centerline) [
      | inl n ↦ rw (fold-skipped before pending s segs e n) (fold-AllPointed segs before pending)
      | inr (p, ps, c) ↦
          lane-AllPointed s p ps segs before pending e c (λ b t. fold-AllPointed segs b t)
    ]
  ]

  pub from_route-IsDrivable :
      (route : Route F) {r : LaneRoute F} → from_route route ≡ ok r → IsDrivable r
  unfolding from_route
  from_route-IsDrivable route h =
      let ((legs, turns), e, h1) = >>=-eq-ok (fold none none route.segments) _ h in
      let (u, e1, h2) = >>=-eq-ok (guard (not (is_empty legs)) lane_route_error) _ h1 in
      let (legs_same, count) = new_route-legs legs turns route.total_length_m h2 in
      let pointed : All Pointed legs = rw e at (fold-AllPointed route.segments none none) in
      (rw legs_same pointed, count)
