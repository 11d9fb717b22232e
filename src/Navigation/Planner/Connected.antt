-- ===== src/Navigation/Planner/Connected.antt =====
-- A planned route follows the lane graph from its start to its destination.
use autonomous_rc_taxi.Mapping.Geometry.{trim}
use text.Mathlib.Text.{◌==◌ as str_eq}
use text.Mathlib.TextEquality.{eq_iff}
use autonomous_rc_taxi.Prelude.{
  ℕ, zero, suc, true, not, ◌&&◌, ◌||◌, ◌≡◌, ◌⊎◌, inl, inr, refl, sym, ap, String, Option, none,
  some, List, [], ◌∷◌, length, arith, Bool-cases,
}
use mathlib.Core.Option.{some-injective}
use autonomous_rc_taxi.Floats.{Double, ◌+◌, ◌-◌, lt, nought}
use autonomous_rc_taxi.Result.{
  ok, key_error, from_option, >>=-eq-ok, ok-injective, from_option-eq-ok, guard, route_error,
}
use autonomous_rc_taxi.Keys.{member, find, put, find-put, subset, subset_self, keys}
use autonomous_rc_taxi.Mapping.LaneMap.{LaneMap, LaneSegment, Connector}
use autonomous_rc_taxi.Navigation.Planner.{
  HeapQueue, RouteSegment, Route, Search, Trail, walk, parts, reconstruct, offer, relax, Round,
  found, again, settle_lane, judge, search, ahead, travel, plan, distance_of, end_of, lane_part,
  same_pair,
}

module _ {F : Type 0} (m : LaneMap F) where
  -- the connector `cid` leads from one lane to the other
  abbrev pub Joins : String → String → String → Type 0
  Joins a cid b =
      (l : LaneSegment F) × (c : Connector F) × (find a m.lanes ≡ some l)
      × (member cid l.successors ≡ true)
      × (find cid m.connectors ≡ some c)
      × (c.successor ≡ b)

  -- a drive over lanes and connectors, from one lane to another
  pub data Leads : String → List (String × String) → String → Type 0 where
    arrive : (a cid b : String) → Joins a cid b → Leads a ((b, cid) ∷ []) b
    onward :
        (a cid b z : String) (rest : List (String × String))
        → Joins a cid b
        → Leads b rest z
        → Leads a ((b, cid) ∷ rest) z

  abbrev pub IsTrail : Trail → Type 0
  IsTrail prev = (b a cid : String) → find b prev ≡ some (a, cid) → Joins a cid b

  pub empty-IsTrail : IsTrail []
  unfolding find
  empty-IsTrail b a cid e = absurd (ground (arith, e))

  put-IsTrail :
      (prev : Trail) (a cid b : String)
      → Joins a cid b
      → IsTrail prev
      → IsTrail (put b (a, cid) prev)
  put-IsTrail prev a cid b j h b' a' cid' e = elim (Bool-cases (str_eq b b')) [
    | inl same ↦
        let e' : (a, cid) ≡ (a', cid') =
          some-injective _ _ (rw (find-put b b' (a, cid) prev, same) at e) in
        rw (ap (λ r. r.0) e', ap (λ r. r.1) e', (eq_iff b b').0 same) at j
    | inr other ↦ h b' a' cid' (rw (find-put b b' (a, cid) prev, other) at e)
  ]

  pub walk-Leads :
      (prev : Trail) (start : String) (n : ℕ) (lid z : String) (chain : List (String × String))
      {out : List (String × String)}
      → IsTrail prev
      → ((chain ≡ []) × (lid ≡ z)) ⊎ Leads lid chain z
      → walk prev start n lid chain ≡ ok out
      → Leads start out z
  unfolding walk
  walk-Leads prev start zero lid z chain t h e = absurd (ground arith)
  walk-Leads prev start (suc n) lid z chain t h e =
      let ((p, cid), f, e') = >>=-eq-ok (from_option (find lid prev) key_error) _ e in
      let j : Joins p cid lid = t lid p cid (from_option-eq-ok (find lid prev) key_error f) in
      let there : Leads p ((lid, cid) ∷ chain) z = elim h [
        | inl (none_yet, at) ↦ rw (none_yet, at) (arrive p cid z (rw at at j))
        | inr further ↦ onward p cid lid z chain j further
      ] in
      elim (Bool-cases (str_eq p start)) [
        | inl home ↦
            let there' : Leads start ((lid, cid) ∷ chain) z =
              rw ((eq_iff p start).0 home) at there in
            rw (← ok-injective (rw home at e')) there'
        | inr away ↦ walk-Leads prev start n p z ((lid, cid) ∷ chain) t (inr there) (rw away at e')
      ]

-- the segments of the pairs, by id
abbrev pub ids : List (String × String) → List String
ids [] = []
ids ((lid, cid) ∷ rest) = cid ∷ lid ∷ ids rest

abbrev pub segment_ids : {F : Type 0} → List (RouteSegment F) → List String
segment_ids [] = []
segment_ids (s ∷ ss) = s.segment_id ∷ segment_ids ss

module _ {F : Type 0} ⦃d : Double F⦄ (m : LaneMap F) where
  lane_part-id :
      (dest_s : F) (end : String × String) (lid cid : String) {s : RouteSegment F}
      → lane_part m dest_s end (lid, cid) ≡ ok s
      → s.segment_id ≡ lid
  unfolding lane_part
  lane_part-id dest_s end lid cid {s = s} h =
      let (l, e, h') = >>=-eq-ok (from_option (find lid m.lanes) key_error) _ h in
      elim (Bool-cases (same_pair (lid, cid) end)) [
        | inl cut ↦
            let (pts, e', h'') = >>=-eq-ok (trim l.centerline nought dest_s) _ (rw cut at h') in
            sym (ap (λ r. r.segment_id) (ok-injective h''))
        | inr whole ↦ sym (ap (λ r. r.segment_id) (ok-injective (rw whole at h')))
      ]

  parts-ids :
      (dest_s : F) (end : String × String) (chain : List (String × String))
      {segs : List (RouteSegment F)}
      → parts m dest_s end chain ≡ ok segs
      → segment_ids segs ≡ ids chain
  unfolding parts
  parts-ids dest_s end [] h = rw (← ok-injective h) refl
  parts-ids dest_s end ((lid, cid) ∷ rest) h =
      let (c, e, h1) = >>=-eq-ok (from_option (find cid m.connectors) key_error) _ h in
      let (s, e1, h2) = >>=-eq-ok (lane_part m dest_s end (lid, cid)) _ h1 in
      let (more, e2, h3) = >>=-eq-ok (parts m dest_s end rest) _ h2 in
      rw (← ok-injective h3, lane_part-id dest_s end lid cid e1, parts-ids dest_s end rest e2) refl

  -- the start, then the connectors and lanes of a drive
  abbrev pub IsDrive : String → String → List (RouteSegment F) → Type 0
  IsDrive start dest segs =
      (chain : List (String × String)) × Leads m start chain dest
      × (segment_ids segs ≡ start ∷ ids chain)

  reconstruct-IsDrive :
      (start_id dest_id : String) (start_s dest_s total : F) (prev : Trail) {r : Route F}
      → IsTrail m prev
      → reconstruct m start_id start_s dest_id dest_s prev total ≡ ok r
      → IsDrive start_id dest_id r.segments
  unfolding reconstruct
  reconstruct-IsDrive start_id dest_id start_s dest_s total prev t h =
      let (chain, e, h1) = >>=-eq-ok (walk prev start_id (suc (length prev)) dest_id []) _ h in
      let (start, e1, h2) = >>=-eq-ok (from_option (find start_id m.lanes) key_error) _ h1 in
      let (pts, e2, h3) = >>=-eq-ok (trim start.centerline start_s start.length_m) _ h2 in
      let (segs, e3, h4) = >>=-eq-ok (parts m dest_s (end_of chain) chain) _ h3 in
      let leads =
        walk-Leads m prev start_id (suc (length prev)) dest_id dest_id [] t (inl (refl, refl)) e in
      (chain, leads, rw (← ok-injective h4, parts-ids dest_s (end_of chain) chain e3) refl)

  module _ {H : Type 0} (q : HeapQueue F H) where
    abbrev RoundIsTrail : Round F H → Type 0
    RoundIsTrail (found dd) = Unit
    RoundIsTrail (again settled s) = IsTrail m s.prev

    Round-cases :
        (r : Round F H)
        → ((dd : F) × (r ≡ found dd))
          ⊎ ((settled : List String) × (s : Search F H) × (r ≡ again settled s))
    Round-cases (found dd) = inl (dd, refl)
    Round-cases (again settled s) = inr (settled, s, refl)

    offer-IsTrail :
        (from cid nxt : String) (settled : List String) (cand : F) (s : Search F H)
        → Joins m from cid nxt
        → IsTrail m s.prev
        → IsTrail m (offer q from cid settled cand nxt s).prev
    offer-IsTrail from cid nxt settled cand s j t =
        elim (Bool-cases (not (member nxt settled) && lt cand (distance_of nxt s.dist))) [
          | inl better ↦ rw better (put-IsTrail m s.prev from cid nxt j t)
          | inr worse ↦ rw worse t
        ]

    -- the connectors of a lane, and of a part of them
    pub relax-IsTrail :
        (from : String) (base : F) (settled cids : List String) (s : Search F H) {s' : Search F H}
        (l : LaneSegment F)
        → find from m.lanes ≡ some l
        → subset cids l.successors ≡ true
        → relax q m from base settled cids s ≡ ok s'
        → IsTrail m s.prev
        → IsTrail m s'.prev
    unfolding relax
    relax-IsTrail from base settled [] s l e sub h t = rw (← ok-injective h) t
    relax-IsTrail from base settled (cid ∷ cids) s l e sub h t =
        let (c, e1, h1) = >>=-eq-ok (from_option (find cid m.connectors) key_error) _ h in
        let (first, others) : (member cid l.successors ≡ true) × (subset cids l.successors ≡ true) =
          ground (arith, sub) in
        let j : Joins m from cid c.successor =
          (l, c, e, first, from_option-eq-ok (find cid m.connectors) key_error e1, refl) in
        relax-IsTrail from base settled cids _ l e others h1
          (offer-IsTrail from cid c.successor settled _ s j t)

    settle_lane-IsTrail :
        (dest lid : String) (dd : F) (settled : List String) (s : Search F H) {r : Round F H}
        → settle_lane q m dest dd lid settled s ≡ ok r
        → IsTrail m s.prev
        → RoundIsTrail r
    unfolding settle_lane
    settle_lane-IsTrail dest lid dd settled s h t =
        let (l, e, h1) = >>=-eq-ok (from_option (find lid m.lanes) key_error) _ h in
        let (s1, e1, h2) =
          >>=-eq-ok (relax q m lid (dd + l.length_m) (lid ∷ settled) l.successors s) _ h1 in
        let at = from_option-eq-ok (find lid m.lanes) key_error e in
        rw (← ok-injective h2) (
          relax-IsTrail lid (dd + l.length_m) (lid ∷ settled) l.successors s l at
            (subset_self l.successors) e1 t)

    judge-IsTrail :
        (dest : String) (settled : List String) (s : Search F H) (o : Option ((F × String) × H))
        {r : Round F H}
        → judge q m dest settled s o ≡ ok r
        → IsTrail m s.prev
        → RoundIsTrail r
    unfolding judge
    judge-IsTrail dest settled s none h t = absurd (ground arith)
    judge-IsTrail dest settled s (some ((dd, lid), heap)) h t =
        elim (Bool-cases (member lid settled || lt (distance_of lid s.dist) dd)) [
          | inl skip ↦ rw (← ok-injective (rw skip at h)) t
          | inr fresh ↦ elim (Bool-cases (str_eq lid dest)) [
            | inl there ↦ rw (← ok-injective (rw (fresh, there) at h)) tt
            | inr further ↦
                settle_lane-IsTrail dest lid dd settled (record s { heap = heap })
                  (rw (fresh, further) at h) t
          ]
        ]

    pub search-IsTrail :
        (dest : String) (n : ℕ) (settled : List String) (s : Search F H) {prev : Trail} {dd : F}
        → search q m dest n settled s ≡ ok (prev, dd)
        → IsTrail m s.prev
        → IsTrail m prev
    unfolding search
    search-IsTrail dest zero settled s h t = absurd (ground arith)
    search-IsTrail dest (suc n) settled s h t =
        let (r, e, h1) = >>=-eq-ok (judge q m dest settled s (q.pop s.heap)) _ h in
        let t' : RoundIsTrail r = judge-IsTrail dest settled s (q.pop s.heap) e t in
        elim (Round-cases r) [
          | inl (dd, at) ↦ rw (ap (λ x. x.0) (ok-injective (rw at at h1))) at t
          | inr (settled', s', at) ↦ search-IsTrail dest n settled' s' (rw at at h1) (rw at at t')
        ]

    travel-IsDrive :
        (fuel : ℕ) (start_id dest_id : String) (start_s dest_s : F) (start : LaneSegment F)
        {r : Route F}
        → find start_id m.lanes ≡ some start
        → travel q fuel m start_id start_s start dest_id dest_s ≡ ok r
        → IsDrive start_id dest_id r.segments
    travel-IsDrive fuel start_id dest_id start_s dest_s start e h =
        let s0 : Search F H = record { dist = []; prev = []; heap = q.empty } in
        let base = start.length_m - start_s in
        let (s, e1, h1) = >>=-eq-ok (relax q m start_id base [] start.successors s0) _ h in
        let ((prev, dd), e2, h2) = >>=-eq-ok (search q m dest_id fuel [] s) _ h1 in
        let empty : IsTrail m s0.prev = empty-IsTrail m in
        let seeded =
          relax-IsTrail start_id base [] start.successors s0 start e (subset_self start.successors)
            e1 empty in
        reconstruct-IsDrive start_id dest_id start_s dest_s (dd + dest_s) prev
          (search-IsTrail dest_id fuel [] s e2 seeded) h2

    -- A route that the planner returns is the start lane alone, where start and destination are the
    -- same lane, or it runs from the start lane to the destination lane over connectors of the map:
    -- each connector is a successor of the lane before it and leads to the lane behind it.
    pub plan-IsDrive :
        (fuel : ℕ) (start_id dest_id : String) (start_s dest_s : F) {r : Route F}
        → plan q fuel m start_id start_s dest_id dest_s ≡ ok r
        → (segment_ids r.segments ≡ start_id ∷ []) × (start_id ≡ dest_id)
          ⊎ IsDrive start_id dest_id r.segments
    unfolding plan
    plan-IsDrive fuel start_id dest_id start_s dest_s h =
        let known = member start_id (keys m.lanes) && member dest_id (keys m.lanes) in
        let (u, e, h1) = >>=-eq-ok (guard known route_error) _ h in
        let (start, e1, h2) = >>=-eq-ok (from_option (find start_id m.lanes) key_error) _ h1 in
        elim (Bool-cases (ahead start_id start_s dest_id dest_s)) [
          | inl here ↦
              let (pts, e2, h3) =
                >>=-eq-ok (trim start.centerline start_s dest_s) _ (rw here at h2) in
              inl (rw (← ok-injective h3) refl, (eq_iff start_id dest_id).0 (ground (arith, here)))
          | inr far ↦ inr (
              travel-IsDrive fuel start_id dest_id start_s dest_s start
                (from_option-eq-ok (find start_id m.lanes) key_error e1) (rw far at h2))
        ]
