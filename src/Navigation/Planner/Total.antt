-- ===== src/Navigation/Planner/Total.antt =====
-- The planner (rc_car/navigation/route_planner.py, `plan`) on a checked map: it ends, and no lookup
-- fails.
use Prim.Native.Nat.{◌+◌}
use autonomous_rc_taxi.Prelude.{
  ℕ, suc, true, ◌&&◌, ◌≡◌, ◌<◌, inl, inr, refl, String, List, [], ◌∷◌, length, arith, Bool-cases,
  some, if◌then◌else◌, ap, ◌≤◌,
}
use autonomous_rc_taxi.Floats.{Double, ◌+◌ as ◌+ᶠ◌, ◌-◌ as ◌-ᶠ◌, nought}
use autonomous_rc_taxi.Keys.{member, find, keys, member-keys, subset_self}
use autonomous_rc_taxi.Result.{Result, ok, err, ◌>>=◌, from_option, from_option-eq-ok, key_error}
use autonomous_rc_taxi.Mapping.Geometry.{Point, trim, point_at}
use autonomous_rc_taxi.Mapping.LaneMap.{LaneMap, LaneSegment, Connector}
use autonomous_rc_taxi.Mapping.LaneMap.Validate.{validate_references}
use autonomous_rc_taxi.Mapping.LaneMap.Connected.{references-closed}
use autonomous_rc_taxi.Navigation.Planner.{
  HeapQueue, Search, Trail, walk, parts, lane_part, reconstruct, travel, plan, ahead, stay, end_of,
  same_pair,
}
use autonomous_rc_taxi.Navigation.Planner.Connected.{
  Leads, arrive, onward, IsTrail, empty-IsTrail, walk-Leads, relax-IsTrail, search-IsTrail,
}
use autonomous_rc_taxi.Navigation.Planner.Order.{Ends, walk-Ends}
use autonomous_rc_taxi.Navigation.Planner.Built.{IsQueue, IsBuilt, left, left-cons}
use autonomous_rc_taxi.Navigation.Planner.Rounds.{IsFound, pending, relax-IsBuilt, search-IsFound}

Ends-bind {ℓ κ} :
    {A : Type ℓ} {B : Type κ} (m : Result A) (k : A → Result B)
    → Ends m
    → ((a : A) → m ≡ ok a → Ends (k a))
    → Ends (m >>= k)
Ends-bind (ok a) k h next = next a refl
Ends-bind (err e) k h next = h

module _ {F : Type 0} ⦃d : Double F⦄ where
  trim-Ends : (pts : List (Point F)) (a b : F) → Ends (trim pts a b)
  unfolding trim point_at
  trim-Ends [] a b = ground arith
  trim-Ends (p ∷ ps) a b = ground arith

  module _ (m : LaneMap F)
      (connectors_closed : (cid : String) (c : Connector F)
        → find cid m.connectors ≡ some c
        → member c.successor (keys m.lanes) ≡ true) where
    lane_part-Ends :
        (dest_s : F) (end : String × String) (lid cid : String)
        → member lid (keys m.lanes) ≡ true
        → Ends (lane_part m dest_s end (lid, cid))
    unfolding lane_part
    lane_part-Ends dest_s end lid cid known =
        let (l, at) = member-keys lid m.lanes known in
        elim (Bool-cases (same_pair (lid, cid) end)) [
          | inr whole ↦ rw (at, whole) tt
          | inl cut ↦
              rw (at, cut)
                (Ends-bind (trim l.centerline nought dest_s) _
                  (trim-Ends l.centerline nought dest_s) (λ pts e. tt))
        ]

    -- the lanes and connectors of a drive are those of the map
    parts-Ends :
        (dest_s : F) (end : String × String) {a z : String} {chain : List (String × String)}
        → Leads m a chain z
        → Ends (parts m dest_s end chain)
    unfolding parts
    parts-Ends dest_s end (arrive a cid b (l, c, from, out, at, into)) = rw at (
        Ends-bind (lane_part m dest_s end (b, cid)) _
          (lane_part-Ends dest_s end b cid (rw into at (connectors_closed cid c at))) (λ s e. tt))
    parts-Ends dest_s end (onward a cid b z rest (l, c, from, out, at, into) further) = rw at (
        Ends-bind (lane_part m dest_s end (b, cid)) _
          (lane_part-Ends dest_s end b cid (rw into at (connectors_closed cid c at)))
          (λ s e.
            Ends-bind (parts m dest_s end rest) _ (parts-Ends dest_s end further) (λ more e'. tt)))

    module _ {H : Type 0} (q : HeapQueue F H) (entries : H → List String)
        (laws : IsQueue q entries) where
      reconstruct-Ends :
          (start_id dest_id : String) (start_s dest_s total : F) (prev : Trail)
          → member start_id (keys m.lanes) ≡ true
          → IsTrail m prev
          → IsFound m q entries laws start_id dest_id prev
          → Ends (reconstruct m start_id start_s dest_id dest_s prev total)
      unfolding reconstruct
      reconstruct-Ends start_id dest_id start_s dest_s total prev known t f =
          let (start, at) = member-keys start_id m.lanes known in
          Ends-bind (walk prev start_id (suc (length prev)) dest_id []) _
            (walk-Ends start_id prev f.settled f.parents f.traced dest_id f.reached f.room)
            (λ chain e.
              let leads =
                walk-Leads m prev start_id (suc (length prev)) dest_id dest_id [] t
                  (inl (refl, refl)) e in
              rw at (
                Ends-bind (trim start.centerline start_s start.length_m) _
                  (trim-Ends start.centerline start_s start.length_m)
                  (λ pts e1.
                    Ends-bind (parts m dest_s (end_of chain) chain) _
                      (parts-Ends dest_s (end_of chain) leads) (λ segs e2. tt))))

-- the rounds that are enough: one for each connector offered, and one to see the heap empty
abbrev pub rounds : {F : Type 0} → LaneMap F → ℕ
rounds m = suc (left m.lanes [] + left m.lanes [])

module _ {F H : Type 0} ⦃d : Double F⦄ (m : LaneMap F) (q : HeapQueue F H)
    (entries : H → List String) (laws : IsQueue q entries)
    (checked : validate_references m ≡ ok tt) where
  empty-IsBuilt :
      (start : String)
      → IsBuilt m q entries laws start [] (record { dist = []; prev = []; heap = q.empty })
  unfolding find keys
  empty-IsBuilt start = record {
    heaped = rw laws.empty_entries refl;
    traced = refl;
    known = refl;
    parents = λ b a cid e. absurd (ground (arith, e));
    room = omega arith;
  }

  travel-Ends :
      (fuel : ℕ) (start_id dest_id : String) (start_s dest_s : F) (start : LaneSegment F)
      → rounds m ≤ fuel
      → member start_id (keys m.lanes) ≡ true
      → find start_id m.lanes ≡ some start
      → Ends (travel q fuel m start_id start_s start dest_id dest_s)
  travel-Ends fuel start_id dest_id start_s dest_s start enough known at =
      let (lanes, conns) = references-closed m checked in
      let base = start.length_m -ᶠ start_s in
      let s0 : Search F H = record { dist = []; prev = []; heap = q.empty } in
      let (s, e, b, most) =
        relax-IsBuilt m q entries laws start_id lanes conns start_id base [] start.successors s0
          (inl refl) (lanes start_id start at) (empty-IsBuilt start_id) in
      let seeded : IsTrail m s.prev =
        relax-IsTrail m q start_id base [] start.successors s0 start at
          (subset_self start.successors) e (empty-IsTrail m) in
      let few : pending m q entries laws start_id [] s < fuel = omega (
        arith,
        most,
        ap length laws.empty_entries,
        enough,
        left-cons m.lanes [] start_id at refl,
      ) in
      rw e (elim (search-IsFound m q entries laws start_id lanes conns dest_id fuel [] s few b) [
        | inl raised ↦ rw raised refl
        | inr (prev, dd, e1, f) ↦ rw e1 (
            reconstruct-Ends m conns q entries laws start_id dest_id start_s dest_s (dd +ᶠ dest_s)
              prev known (search-IsTrail m q dest_id fuel [] s e1 seeded) f)
      ])

  departed-Ends :
      (fuel : ℕ) (start_id dest_id : String) (start_s dest_s : F) (start : LaneSegment F)
      → rounds m ≤ fuel
      → member start_id (keys m.lanes) ≡ true
      → find start_id m.lanes ≡ some start
      → Ends (
          if ahead start_id start_s dest_id dest_s
          then stay start_id start_s start dest_id dest_s
          else travel q fuel m start_id start_s start dest_id dest_s)
  departed-Ends fuel start_id dest_id start_s dest_s start enough known at =
      elim (Bool-cases (ahead start_id start_s dest_id dest_s)) [
        | inr far ↦ rw far (travel-Ends fuel start_id dest_id start_s dest_s start enough known at)
        | inl here ↦ rw here (
            Ends-bind (trim start.centerline start_s dest_s) _
              (trim-Ends start.centerline start_s dest_s) (λ pts e. tt))
      ]

  -- On a map that passes `_validate_references`, whatever the lanes and positions, `plan` ends and
  -- no lookup fails: given twice as many rounds as the lanes have connectors, and one more, it
  -- returns a route or raises RouteError, AssertionError or IndexError, the last two by its cuts of
  -- a centerline, but neither KeyError nor is it out of rounds. The walk back over its trail is
  -- given one round for each entry and one more. `heapq` holds what was pushed and not popped.
  pub plan-Ends :
      (fuel : ℕ) (start_id dest_id : String) (start_s dest_s : F)
      → rounds m ≤ fuel
      → Ends (plan q fuel m start_id start_s dest_id dest_s)
  unfolding plan
  plan-Ends fuel start_id dest_id start_s dest_s enough =
      elim (Bool-cases (member start_id (keys m.lanes) && member dest_id (keys m.lanes))) [
        | inr unknown ↦ rw unknown refl
        | inl known ↦
            let there : member start_id (keys m.lanes) ≡ true = ground (arith, known) in
            let (start, at) = member-keys start_id m.lanes there in
            rw known (
              Ends-bind (from_option (find start_id m.lanes) key_error) _ (rw at tt) (λ found e.
                departed-Ends fuel start_id dest_id start_s dest_s found enough there
                  (from_option-eq-ok (find start_id m.lanes) key_error e)))
      ]
