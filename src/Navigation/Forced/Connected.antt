-- ===== src/Navigation/Forced/Connected.antt =====
-- A forced route follows the lane graph over the given lanes.
use mathlib.Core.Option.{some-injective}
use text.Mathlib.Text.{◌==◌ as str_eq}
use text.Mathlib.TextEquality.{eq_iff}
use autonomous_rc_taxi.Prelude.{
  ℕ, true, not, ◌≡◌, inl, inr, refl, sym, ap, ◌∙◌, String, some, List, [], ◌∷◌, length, ltb, arith,
  Bool-cases,
}
use autonomous_rc_taxi.Floats.{Double, ◌+◌, ◌-◌, nought}
use autonomous_rc_taxi.Result.{
  Result, ok, key_error, route_error, guard, from_option, >>=-eq-ok, ok-injective,
  from_option-eq-ok,
}
use autonomous_rc_taxi.Keys.{member, find}
use autonomous_rc_taxi.Mapping.Geometry.{trim}
use autonomous_rc_taxi.Mapping.LaneMap.{LaneMap, LaneSegment, Connector}
use autonomous_rc_taxi.Navigation.Planner.{RouteSegment, Route}
use autonomous_rc_taxi.Navigation.Planner.Connected.{Joins, ids, segment_ids}
use autonomous_rc_taxi.Navigation.Forced.{
  lane_ids, joining, clamped, last_lane, lane_on, follow_ids, via_ids, plan_via_numbers,
}

module _ {F : Type 0} ⦃d : Double F⦄ (m : LaneMap F) where
  -- connectors over the lanes of a list, in order
  pub data Passes : String → List String → List (String × String) → Type 0 where
    stay : (a : String) → Passes a [] []
    pass :
        (a b cid : String) (rest : List String) (chain : List (String × String))
        → Joins m a cid b
        → Passes b rest chain
        → Passes a (b ∷ rest) ((b, cid) ∷ chain)

  pub joining-eq-some :
      (cur : String) (cids : List String) {cid : String} {c : Connector F}
      → joining m.connectors cur cids ≡ ok (some (cid, c))
      → (member cid cids ≡ true) × (find cid m.connectors ≡ some c) × (c.successor ≡ cur)
  unfolding joining
  joining-eq-some cur [] h = absurd (ground arith)
  joining-eq-some cur (k ∷ ks) {cid = cid} {c = c} h =
      let (c', e, h1) = >>=-eq-ok (from_option (find k m.connectors) key_error) _ h in
      let at = from_option-eq-ok (find k m.connectors) key_error e in
      elim (Bool-cases (str_eq c'.successor cur)) [
        | inl here ↦
            let same : (k, c') ≡ (cid, c) = some-injective _ _ (ok-injective (rw here at h1)) in
            let id : k ≡ cid = ap (λ r. r.0) same in
            let conn : c' ≡ c = ap (λ r. r.1) same in
            (
              ground (arith, eq_iff k cid, id),
              rw (← id, ← conn) at,
              rw (← conn) ((eq_iff c'.successor cur).0 here),
            )
        | inr later ↦
            let (a, b, s) = joining-eq-some cur ks (rw later at h1) in (ground (arith, a), b, s)
      ]

  lane_on-id :
      (dest_s : F) (cur : String) (l : LaneSegment F) (rest : List String) {seg : RouteSegment F}
      {len : F}
      → lane_on dest_s cur l rest ≡ ok (seg, len)
      → seg.segment_id ≡ cur
  unfolding lane_on last_lane
  lane_on-id dest_s cur l [] h =
      let (pts, e, h1) = >>=-eq-ok (trim l.centerline nought (clamped dest_s l)) _ h in
      sym (ap (λ r. r.0.segment_id) (ok-injective h1))
  lane_on-id dest_s cur l (_ ∷ _) h = sym (ap (λ r. r.0.segment_id) (ok-injective h))

  follow_ids-Passes :
      (dest_s total : F) (before : String) (rest : List String) {segs : List (RouteSegment F)}
      {sum : F}
      → follow_ids m dest_s total before rest ≡ ok (segs, sum)
      → (chain : List (String × String)) × Passes before rest chain × (segment_ids segs ≡ ids chain)
  unfolding follow_ids
  follow_ids-Passes dest_s total before [] h =
      ([], stay before, rw (← ap (λ r. r.0) (ok-injective h)) refl)
  follow_ids-Passes dest_s total before (cur ∷ rest) h =
      let (l0, e0, h0) = >>=-eq-ok (from_option (find before m.lanes) key_error) _ h in
      let (found, e1, h1) = >>=-eq-ok (joining m.connectors cur l0.successors) _ h0 in
      let ((cid, c), e2, h2) = >>=-eq-ok (from_option found route_error) _ h1 in
      let (l, e3, h3) = >>=-eq-ok (from_option (find cur m.lanes) key_error) _ h2 in
      let ((seg, len), e4, h4) = >>=-eq-ok (lane_on dest_s cur l rest) _ h3 in
      let ((segs, sum), e5, h5) =
        >>=-eq-ok (follow_ids m dest_s (total + c.length_m + len) cur rest) _ h4 in
      let at = from_option-eq-ok (find before m.lanes) key_error e0 in
      let this : found ≡ some (cid, c) = from_option-eq-ok found route_error e2 in
      let (mem, conn, succ) = joining-eq-some cur l0.successors (rw this at e1) in
      let (chain, p, named) = follow_ids-Passes dest_s (total + c.length_m + len) cur rest e5 in
      let tail : cid ∷ seg.segment_id ∷ segment_ids segs ≡ cid ∷ cur ∷ ids chain =
        rw (lane_on-id dest_s cur l rest e4, named) refl in
      (
        (cur, cid) ∷ chain,
        pass before cur cid rest chain (l0, c, at, mem, conn, succ) p,
        sym (ap (λ r. segment_ids r.0) (ok-injective h5)) ∙ tail,
      )

  abbrev Driven : Result (List String) → Route F → Type 0
  Driven names r =
      (first : String) × (rest : List String) × (chain : List (String × String)) × (names
        ≡ ok (first ∷ rest))
      × Passes first rest chain
      × (segment_ids r.segments ≡ first ∷ ids chain)

  via_ids-Passes :
      {numbers : Result (List String)} (names : List String) (start_s dest_s : F) {r : Route F}
      → numbers ≡ ok names
      → via_ids m names start_s dest_s ≡ ok r
      → Driven numbers r
  unfolding via_ids
  via_ids-Passes [] start_s dest_s e h = absurd (ground arith)
  via_ids-Passes (id ∷ rest) start_s dest_s e h =
      let (first, e1, h1) = >>=-eq-ok (from_option (find id m.lanes) key_error) _ h in
      let s = clamped start_s first in
      let (pts, e2, h2) = >>=-eq-ok (trim first.centerline s first.length_m) _ h1 in
      let ((segs, total), e3, h3) =
        >>=-eq-ok (follow_ids m dest_s (first.length_m - s) id rest) _ h2 in
      let (chain, p, named) = follow_ids-Passes dest_s (first.length_m - s) id rest e3 in
      (
        id,
        rest,
        chain,
        e,
        p,
        sym (ap (λ r. segment_ids r.segments) (ok-injective h3)) ∙ ap (λ t. id ∷ t) named,
      )

  -- A forced route that is returned has exactly the lanes of the given numbers, in their order, and
  -- each two of them are joined by a connector of the map that the route takes.
  pub plan_via_numbers-Passes :
      (numbers : List ℕ) (start_s dest_s : F) {r : Route F}
      → plan_via_numbers m numbers start_s dest_s ≡ ok r
      → (first : String) × (rest : List String) × (chain : List (String × String)) × (lane_ids
            numbers
          ≡ ok (first ∷ rest))
        × Passes first rest chain
        × (segment_ids r.segments ≡ first ∷ ids chain)
  unfolding plan_via_numbers
  plan_via_numbers-Passes numbers start_s dest_s h =
      let (u, e, h0) = >>=-eq-ok (guard (not (ltb (length numbers) 2)) route_error) _ h in
      let (names, e1, h1) = >>=-eq-ok (lane_ids numbers) _ h0 in
      via_ids-Passes names start_s dest_s e1 h1
