-- ===== src/Navigation/Planner/Rounds.antt =====
-- The planner's search (rc_car/navigation/route_planner.py, `plan`) ends: each lane is settled once,
-- and only then its connectors are offered.
use Prim.Native.Nat.{◌+◌}
use text.Mathlib.Text.{◌==◌ as str_eq}
use text.Mathlib.TextEquality.{eq_iff}
use autonomous_rc_taxi.Prelude.{
  ℕ, zero, suc, true, false, ◌≡◌, ◌⊎◌, inl, inr, refl, String, Option, some, none, List, [], ◌∷◌,
  length, arith, ◌≤◌, ◌<◌, Bool-cases, ◌||◌,
}
use autonomous_rc_taxi.Floats.{Double, ◌+◌ as ◌+ᶠ◌, lt}
use autonomous_rc_taxi.Keys.{member, subset, find, keys, member-keys, member_of_subset}
use autonomous_rc_taxi.Result.{ok, err, route_error}
use autonomous_rc_taxi.Mapping.LaneMap.{LaneMap, LaneSegment, Connector}
use autonomous_rc_taxi.Navigation.Planner.{
  HeapQueue, Search, Trail, offer, relax, Round, found, again, settle_lane, judge, search,
  distance_of,
}
use autonomous_rc_taxi.Navigation.Planner.Order.{HasParents, HasParents-cons, HasRoom, HasRoom-cons}
use autonomous_rc_taxi.Navigation.Planner.Built.{IsQueue, IsBuilt, left, left-cons, offer-IsBuilt}

module _ {F H : Type 0} ⦃d : Double F⦄ (m : LaneMap F) (q : HeapQueue F H)
    (entries : H → List String) (laws : IsQueue q entries) (start : String) where
  abbrev pub Holds : List String → Search F H → Type 0
  Holds settled s = IsBuilt m q entries laws start settled s

  -- what is still on the heap, and the connectors that may yet be put there
  abbrev pub pending : List String → Search F H → ℕ
  pending settled s = left m.lanes settled + length (entries s.heap)

  -- what a run of the search that ended well leaves
  pub record IsFound (dest : String) (prev : Trail) : Type 0 where
    pub settled : List String
    pub traced : subset settled (keys prev) ≡ true
    pub parents : HasParents start prev settled
    pub room : HasRoom prev settled
    pub reached : member dest (keys prev) ≡ true

  abbrev RoundIsFit : String → List String → Search F H → Round F H → Type 0
  RoundIsFit dest settled s (found dd) = IsFound dest s.prev
  RoundIsFit dest settled s (again settled' s') =
      Holds settled' s' × (pending settled' s' < pending settled s)

  popped-IsBuilt :
      (settled : List String) (s : Search F H) (dd : F) (lid : String) (h : H)
      → q.pop s.heap ≡ some ((dd, lid), h)
      → Holds settled s
      → Holds settled (record s { heap = h })
        × (member lid (keys s.prev) ≡ true)
        × (pending settled (record s { heap = h }) < pending settled s)
  popped-IsBuilt settled s dd lid h e b =
      let (there, kept) = laws.pop_keeps s.heap (keys s.prev) e b.heaped in
      (
        record {
          heaped = kept;
          traced = b.traced;
          known = b.known;
          parents = b.parents;
          room = b.room;
        },
        there,
        omega (arith, laws.pop_count s.heap e),
      )

  settled-IsBuilt :
      (settled : List String) (s : Search F H) (lid : String)
      → member lid (keys s.prev) ≡ true
      → member lid settled ≡ false
      → Holds settled s
      → Holds (lid ∷ settled) s
  settled-IsBuilt settled s lid there fresh b = record {
    heaped = b.heaped;
    traced = ground (arith, b.traced, there);
    known = b.known;
    parents = HasParents-cons start lid s.prev settled fresh b.parents;
    room = HasRoom-cons lid s.prev settled there fresh b.room;
  }

  module _
      (lanes_closed : (lid : String) (l : LaneSegment F)
        → find lid m.lanes ≡ some l
        → subset l.successors (keys m.connectors) ≡ true)
      (connectors_closed : (cid : String) (c : Connector F)
        → find cid m.connectors ≡ some c
        → member c.successor (keys m.lanes) ≡ true) where
    pub relax-IsBuilt :
        (from : String) (base : F) (settled cids : List String) (s : Search F H)
        → (from ≡ start) ⊎ (member from settled ≡ true)
        → subset cids (keys m.connectors) ≡ true
        → Holds settled s
        → (s' : Search F H) × (relax q m from base settled cids s ≡ ok s')
          × Holds settled s'
          × (length (entries s'.heap) ≤ length cids + length (entries s.heap))
    unfolding relax
    relax-IsBuilt from base settled [] s there sub b = (s, refl, b, omega arith)
    relax-IsBuilt from base settled (cid ∷ cids) s there sub b =
        let (c, at) = member-keys cid m.connectors (ground (arith, sub)) in
        let (b1, more) =
          offer-IsBuilt m q entries laws start from cid c.successor settled (base +ᶠ c.length_m) s
            there (connectors_closed cid c at) b in
        let (s', e, b', most) =
          relax-IsBuilt from base settled cids
            (offer q from cid settled (base +ᶠ c.length_m) c.successor s) there
            (ground (arith, sub)) b1 in
        (s', rw at e, b', omega (arith, more, most))

    settle_lane-IsFit :
        (dest lid : String) (dd : F) (settled : List String) (s : Search F H)
        → member lid (keys s.prev) ≡ true
        → member lid settled ≡ false
        → Holds settled s
        → (s' : Search F H) × (settle_lane q m dest dd lid settled s
            ≡ ok (again (lid ∷ settled) s'))
          × Holds (lid ∷ settled) s'
          × (pending (lid ∷ settled) s' ≤ pending settled s)
    unfolding settle_lane
    settle_lane-IsFit dest lid dd settled s there fresh b =
        let (l, at) =
          member-keys lid m.lanes
            (member_of_subset (keys s.prev) (keys m.lanes) lid b.known there) in
        let (s', e, b', most) =
          relax-IsBuilt lid (dd +ᶠ l.length_m) (lid ∷ settled) l.successors s
            (inr (ground (arith, eq_iff lid lid))) (lanes_closed lid l at)
            (settled-IsBuilt settled s lid there fresh b) in
        (s', rw (at, e) refl, b', omega (arith, most, left-cons m.lanes settled lid at fresh))

    -- a round raises RouteError on an empty heap, finds the lane, or leaves less to do
    judge-IsFit :
        (dest : String) (settled : List String) (s : Search F H) (o : Option ((F × String) × H))
        → q.pop s.heap ≡ o
        → Holds settled s
        → (judge q m dest settled s o ≡ err route_error)
          ⊎ ((r : Round F H) × (judge q m dest settled s o ≡ ok r) × RoundIsFit dest settled s r)
    unfolding judge
    judge-IsFit dest settled s none e b = inl refl
    judge-IsFit dest settled s (some ((dd, lid), h)) e b =
        let s1 : Search F H = record s { heap = h } in
        let (b1, there, fewer) = popped-IsBuilt settled s dd lid h e b in
        elim (Bool-cases (member lid settled || lt (distance_of lid s.dist) dd)) [
          | inl skip ↦ inr (again settled s1, rw skip refl, (b1, fewer))
          | inr fresh ↦ elim (Bool-cases (str_eq lid dest)) [
            | inl here ↦ inr (
              found dd,
              rw (fresh, here) refl,
              record {
                settled = settled;
                traced = b.traced;
                parents = b.parents;
                room = b.room;
                reached = rw (← (eq_iff lid dest).0 here) there;
              },
            )
            | inr further ↦
                let (s', e', b', most) =
                  settle_lane-IsFit dest lid dd settled s1 there (ground (arith, fresh)) b1 in
                inr (
                  again (lid ∷ settled) s',
                  rw (fresh, further) e',
                  (b', omega (arith, most, fewer)),
                )
          ]
        ]

    pub search-IsFound :
        (dest : String) (n : ℕ) (settled : List String) (s : Search F H)
        → pending settled s < n
        → Holds settled s
        → (search q m dest n settled s ≡ err route_error)
          ⊎ ((prev : Trail) × (dd : F) × (search q m dest n settled s ≡ ok (prev, dd))
              × IsFound dest prev)
    unfolding search
    search-IsFound dest zero settled s h b = absurd (omega (arith, h))
    search-IsFound dest (suc n) settled s h b =
        elim (judge-IsFit dest settled s (q.pop s.heap) refl b) [
          | inl raised ↦ inl (rw raised refl)
          | inr (found dd, e, fit) ↦ inr (s.prev, dd, rw e refl, fit)
          | inr (again settled' s', e, (b', fewer)) ↦
              rw e (search-IsFound dest n settled' s' (omega (arith, h, fewer)) b')
        ]
