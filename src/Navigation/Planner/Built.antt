-- ===== src/Navigation/Planner/Built.antt =====
-- What the planner's search (rc_car/navigation/route_planner.py, `plan`) keeps between two rounds,
-- over a queue with the laws of `heapq` that it relies on.
use Prim.Native.Nat.{◌+◌}
use text.Mathlib.Text.{◌==◌ as str_eq}
use text.Mathlib.TextEquality.{eq_iff}
use autonomous_rc_taxi.Prelude.{
  ℕ, suc, true, false, not, ◌≡◌, ◌⊎◌, inl, inr, String, some, List, [], ◌∷◌, length, arith, ◌≤◌,
  Bool-cases, if◌then◌else◌, ◌&&◌,
}
use mathlib.Core.Option.{some-injective}
use autonomous_rc_taxi.Floats.{Double, lt}
use autonomous_rc_taxi.Keys.{
  member, subset, find, keys, put, member-keys-put, subset-keys-put, keys-put-subset,
}
use autonomous_rc_taxi.Mapping.LaneMap.{LaneMap, LaneSegment}
use autonomous_rc_taxi.Navigation.Planner.{HeapQueue, Search, offer, distance_of}
use autonomous_rc_taxi.Navigation.Planner.Order.{HasParents, HasParents-put, HasRoom, HasRoom-put}

-- what the search relies on of `heapq`: it holds what was pushed and not popped, in any order
pub record IsQueue {F H : Type 0} (q : HeapQueue F H) (entries : H → List String) : Type 0 where
  pub empty_entries : entries q.empty ≡ []
  pub push_count :
      (x : F × String) (h : H) → length (entries (q.push x h)) ≡ suc (length (entries h))
  pub push_keeps :
      (x : F × String) (h : H) (ks : List String)
      → member x.1 ks ≡ true
      → subset (entries h) ks ≡ true
      → subset (entries (q.push x h)) ks ≡ true
  pub pop_count :
      (h : H) {x : F × String} {h' : H}
      → q.pop h ≡ some (x, h')
      → length (entries h) ≡ suc (length (entries h'))
  pub pop_keeps :
      (h : H) (ks : List String) {x : F × String} {h' : H}
      → q.pop h ≡ some (x, h')
      → subset (entries h) ks ≡ true
      → (member x.1 ks ≡ true) × (subset (entries h') ks ≡ true)

-- the connectors that are still to be offered
abbrev pub left : {F : Type 0} → List (String × LaneSegment F) → List String → ℕ
left [] settled = 0
left ((k, l) ∷ rest) settled =
    (if member k settled then 0 else length l.successors) + left rest settled

left-cons-le :
    {F : Type 0} (lanes : List (String × LaneSegment F)) (settled : List String) (x : String)
    → left lanes (x ∷ settled) ≤ left lanes settled
left-cons-le [] settled x = omega arith
left-cons-le ((k, l) ∷ rest) settled x = ground (arith, left-cons-le rest settled x)

-- settling a lane pays for its connectors
pub left-cons :
    {F : Type 0} (lanes : List (String × LaneSegment F)) (settled : List String) (x : String)
    {l : LaneSegment F}
    → find x lanes ≡ some l
    → member x settled ≡ false
    → left lanes (x ∷ settled) + length l.successors ≤ left lanes settled
unfolding find
left-cons [] settled x e fresh = absurd (ground (arith, e))
left-cons ((k, v) ∷ rest) settled x {l = l} e fresh = elim (Bool-cases (str_eq k x)) [
  | inl here ↦
      let at : v ≡ l = some-injective _ _ (rw here at e) in
      rw (← at) (ground (arith, eq_iff k x, eq_iff x k, left-cons-le rest settled x))
  | inr there ↦
      ground (arith, eq_iff k x, eq_iff x k, left-cons rest settled x (rw there at e) fresh)
]

module _ {F H : Type 0} ⦃d : Double F⦄ (m : LaneMap F) (q : HeapQueue F H)
    (entries : H → List String) (laws : IsQueue q entries) (start : String) where
  -- what holds between two rounds
  pub record IsBuilt (settled : List String) (s : Search F H) : Type 0 where
    pub heaped : subset (entries s.heap) (keys s.prev) ≡ true
    pub traced : subset settled (keys s.prev) ≡ true
    pub known : subset (keys s.prev) (keys m.lanes) ≡ true
    pub parents : HasParents start s.prev settled
    pub room : HasRoom s.prev settled

  offered-IsBuilt :
      (from cid nxt : String) (settled : List String) (cand : F) (s : Search F H)
      → (from ≡ start) ⊎ (member from settled ≡ true)
      → member nxt (keys m.lanes) ≡ true
      → member nxt settled ≡ false
      → IsBuilt settled s
      → IsBuilt settled (record {
        dist = put nxt cand s.dist;
        prev = put nxt (from, cid) s.prev;
        heap = q.push (cand, nxt) s.heap;
      })
  offered-IsBuilt from cid nxt settled cand s there lane fresh b = record {
    heaped =
        laws.push_keeps (cand, nxt) s.heap (keys (put nxt (from, cid) s.prev))
          (ground (arith, member-keys-put nxt nxt (from, cid) s.prev, eq_iff nxt nxt))
          (subset-keys-put (entries s.heap) nxt (from, cid) s.prev b.heaped);
    traced = subset-keys-put settled nxt (from, cid) s.prev b.traced;
    known = keys-put-subset nxt (from, cid) s.prev (keys m.lanes) lane b.known;
    parents = HasParents-put start from cid nxt s.prev settled there fresh b.parents;
    room = HasRoom-put nxt (from, cid) s.prev settled fresh b.room;
  }

  -- a better distance or none: one entry more at most
  pub offer-IsBuilt :
      (from cid nxt : String) (settled : List String) (cand : F) (s : Search F H)
      → (from ≡ start) ⊎ (member from settled ≡ true)
      → member nxt (keys m.lanes) ≡ true
      → IsBuilt settled s
      → let s' = offer q from cid settled cand nxt s in
        IsBuilt settled s' × (length (entries s'.heap) ≤ suc (length (entries s.heap)))
  offer-IsBuilt from cid nxt settled cand s there lane b =
      elim (Bool-cases (not (member nxt settled) && lt cand (distance_of nxt s.dist))) [
        | inr worse ↦ rw worse (b, omega arith)
        | inl better ↦ rw better (
          offered-IsBuilt from cid nxt settled cand s there lane (ground (arith, better)) b,
          omega (arith, laws.push_count (cand, nxt) s.heap),
        )
      ]
