-- ===== src/Mapping/LaneMap/Connected.antt =====
-- A validated map is strongly connected, and its searches never raise.
use mathlib.Core.Option.{some-injective}
use Prim.Native.Nat.{◌+◌}
use text.Mathlib.Text.{◌==◌ as str_eq}
use text.Mathlib.TextEquality.{eq_iff}
use autonomous_rc_taxi.Prelude.{
  ℕ, Bool, true, false, not, ◌&&◌, ◌≡◌, ◌≤◌, refl, ◌↔◌, String, some, List, [], ◌∷◌, arith, length,
  if◌then◌else◌, Bool-cases, inl, inr,
}
use autonomous_rc_taxi.Keys.{member, subset, same_set, find, keys, member-keys, member_of_subset}
use autonomous_rc_taxi.Result.{Result, Error, ok, err, ◌>>=◌, ◌>>◌, guard, >>=-eq-ok, map_error}
use autonomous_rc_taxi.Worklist.{explore}
use autonomous_rc_taxi.Worklist.Correct.{Reach, explore_iff}
use autonomous_rc_taxi.Worklist.Fuel.{unseen, IsGraph, explore_total}
use autonomous_rc_taxi.Mapping.LaneMap.{
  LaneMap, LaneSegment, Connector, next_lanes, reachable_lanes, targets, pred_from, pred_of,
}
use autonomous_rc_taxi.Mapping.LaneMap.Validate.{
  validate_references, validate_circuits, check_seed, check_forward, check_backward, labelled, each,
  is_empty, check_lane_references, check_connector_references,
}

pub guard_passed : (t : Bool) (e : Error) {u : Unit {0}} → guard t e ≡ ok u → t ≡ true
guard_passed true e h = refl
guard_passed false e h = absurd (ground arith)

-- the part after a check that passed
pub after {ℓ} :
    {B : Type ℓ} (m : Result (Unit {0})) (k : Result B) {b : B}
    → (m >> k) ≡ ok b
    → (m ≡ ok tt) × (k ≡ ok b)
after (ok tt) k h = (refl, h)
after (err e) k h = absurd (ground arith)

and-true : (a b : Bool) → (a && b) ≡ true → (a ≡ true) × (b ≡ true)
and-true a b h = ground arith

ok-injective : {a b : List String} → ok a ≡ ok b → a ≡ b
ok-injective e = cc

covered :
    (m : Result (List String)) (ks : List String)
    → (m >>= λ r. guard (same_set r ks) map_error) ≡ ok tt
    → (r : List String) × (m ≡ ok r) × (same_set r ks ≡ true)
covered (ok r) ks h = (r, refl, guard_passed (same_set r ks) map_error h)
covered (err e) ks h = absurd (ground arith)

-- a loop of membership checks that passes
each-member :
    (ks js : List String)
    → each (λ k. guard (member k js) map_error) ks ≡ ok tt
    → subset ks js ≡ true
each-member [] js h = refl
each-member (k ∷ ks) js h =
    let (first, others) =
      after (guard (member k js) map_error) (each (λ k. guard (member k js) map_error) ks) h in
    rw (guard_passed (member k js) map_error first) (each-member ks js others)

-- one key is seen, so one round for each key is enough
unseen_all :
    {F : Type 0} (lanes : List (String × LaneSegment F)) (seen : List String)
    → unseen (keys lanes) seen ≤ length lanes
unfolding keys
unseen_all [] seen = omega arith
unseen_all ((k, v) ∷ rest) seen = ground (arith, unseen_all rest seen)

one_round :
    {F : Type 0} (lanes : List (String × LaneSegment F)) (from : String)
    → member from (keys lanes) ≡ true
    → unseen (keys lanes) (from ∷ []) + 1 ≤ length lanes
unfolding keys
one_round [] from k = absurd (ground arith)
one_round ((j, v) ∷ rest) from k =
    ground (arith, eq_iff j from, eq_iff from j, unseen_all rest (from ∷ []), one_round rest from)

-- walks can be joined
Reach_trans :
    {next : String → Result (List String)} {a b c : String}
    → Reach next a b
    → Reach next b c
    → Reach next a c
Reach_trans w Reach.here = w
Reach_trans w (Reach.step v e k) = Reach.step (Reach_trans w v) e k

module _ {F : Type 0} (m : LaneMap F) where
  pred_from-next :
      (to : String) (lids : List String) {ps : List String} (p : String)
      → pred_from m to lids ≡ ok ps
      → member p ps ≡ true
      → (ys : List String) × (next_lanes m p ≡ ok ys) × (member to ys ≡ true)
  unfolding pred_from
  pred_from-next to [] p h k = absurd (ground arith)
  pred_from-next to (lid ∷ lids) p h k =
      let (ts, e, h') = >>=-eq-ok (next_lanes m lid) _ h in
      let (more, rest, h'') = >>=-eq-ok (pred_from m to lids) _ h' in
      let k' : member p (if member to ts then lid ∷ more else more) ≡ true =
        rw (← ok-injective h'') at k in
      elim (Bool-cases (member to ts)) [
        | inr out ↦ pred_from-next to lids p rest (rw out at k')
        | inl into ↦ elim (Bool-cases (str_eq lid p)) [
          | inl here ↦ (ts, rw (← (eq_iff lid p).0 here) e, into)
          | inr there ↦ pred_from-next to lids p rest (rw (into, there) at k')
        ]
      ]

  -- a walk against the edges is a walk along them
  backwards : {a b : String} → Reach (pred_of m) a b → Reach (next_lanes m) b a
  unfolding pred_of
  backwards Reach.here = Reach.here
  backwards (Reach.step {x = x} {y = y} w e k) =
      let (ys, e', k') = pred_from-next x (keys m.lanes) y e k in
      Reach_trans (Reach.step Reach.here e' k') (backwards w)

  -- what the two searches of the validation say
  record IsSearched (seed : String) : Type 0 where
    forward : (x : String) → member x (keys m.lanes) ≡ true → Reach (next_lanes m) seed x
    backward : (x : String) → member x (keys m.lanes) ≡ true → Reach (pred_of m) seed x

  searched :
      (next : String → Result (List String)) (seed : String) (fuel : ℕ) {r : List String}
      → explore next fuel (seed ∷ []) (seed ∷ []) ≡ ok r
      → same_set r (keys m.lanes) ≡ true
      → (x : String) → member x (keys m.lanes) ≡ true
      → Reach next seed x
  searched next seed fuel {r = r} h s x k =
      let (both, into) = and-true (subset r (keys m.lanes)) _ s in
      (explore_iff next seed fuel h x).0 (member_of_subset (keys m.lanes) r x into k)

  reachable_explored :
      (from : String) {r : List String}
      → reachable_lanes m from ≡ ok r
      → explore (next_lanes m) (length m.lanes) (from ∷ []) (from ∷ []) ≡ ok r
  unfolding reachable_lanes
  reachable_explored from h = elim (Bool-cases (member from (keys m.lanes))) [
    | inl e ↦ rw e at h
    | inr e ↦ absurd (ground arith)
  ]

  check_seed-IsSearched :
      (lanes : List (String × LaneSegment F))
      → check_seed m lanes ≡ ok tt
      → (seed : String) × IsSearched seed
  unfolding check_seed check_forward check_backward
  check_seed-IsSearched [] h = absurd (ground arith)
  check_seed-IsSearched ((seed, lane) ∷ rest) h =
      let (f, b) = after (check_forward m seed) (check_backward m seed) h in
      let (r, e, s) = covered (reachable_lanes m seed) (keys m.lanes) f in
      let (r', e', s') =
        covered (explore (pred_of m) (length m.lanes) (seed ∷ []) (seed ∷ [])) (keys m.lanes) b in
      (
        seed,
        record {
          forward = searched (next_lanes m) seed (length m.lanes) (reachable_explored seed e) s;
          backward = searched (pred_of m) seed (length m.lanes) e' s';
        },
      )

  circuits-IsSearched : validate_circuits m ≡ ok tt → (seed : String) × IsSearched seed
  unfolding validate_circuits
  circuits-IsSearched h =
      check_seed-IsSearched m.lanes
        (after (guard (labelled m) map_error) (check_seed m m.lanes) h).1

  -- On a map that passes `_validate_circuits` every lane reaches every lane.
  pub circuits_connected :
      (a b : String)
      → validate_circuits m ≡ ok tt
      → member a (keys m.lanes) ≡ true
      → member b (keys m.lanes) ≡ true
      → Reach (next_lanes m) a b
  circuits_connected a b h ka kb =
      let (seed, s) = circuits-IsSearched h in
      Reach_trans (backwards (s.backward a ka)) (s.forward b kb)

  -- what the reference checks say of one lane, by its key
  lane_checked :
      (lanes : List (String × LaneSegment F)) (lid : String) {lane : LaneSegment F}
      → each (check_lane_references m) lanes ≡ ok tt
      → find lid lanes ≡ some lane
      → subset lane.successors (keys m.connectors) ≡ true
  unfolding find check_lane_references
  lane_checked [] lid h e = absurd (ground arith)
  lane_checked ((k, v) ∷ rest) lid {lane = lane} h e =
      let (first, others) =
        after (check_lane_references m (k, v)) (each (check_lane_references m) rest) h in
      elim (Bool-cases (str_eq k lid)) [
        | inr there ↦ lane_checked rest lid others (rw there at e)
        | inl here ↦ rw (← some-injective _ _ (rw here at e)) (
            each-member v.successors (keys m.connectors)
              (after (guard (not (is_empty v.successors)) map_error) _ first).1)
      ]

  connector_checked :
      (conns : List (String × Connector F)) (cid : String) {c : Connector F}
      → each (check_connector_references m) conns ≡ ok tt
      → find cid conns ≡ some c
      → member c.successor (keys m.lanes) ≡ true
  unfolding find check_connector_references
  connector_checked [] cid h e = absurd (ground arith)
  connector_checked ((k, v) ∷ rest) cid {c = c} h e =
      let (first, others) =
        after (check_connector_references m (k, v)) (each (check_connector_references m) rest) h in
      elim (Bool-cases (str_eq k cid)) [
        | inr there ↦ connector_checked rest cid others (rw there at e)
        | inl here ↦ rw (← some-injective _ _ (rw here at e)) (guard_passed _ map_error first)
      ]

  targets_total :
      (cids : List String)
      → each (check_connector_references m) m.connectors ≡ ok tt
      → subset cids (keys m.connectors) ≡ true
      → (ys : List String) × (targets m.connectors cids ≡ ok ys) × (subset ys (keys m.lanes) ≡ true)
  unfolding targets
  targets_total [] h s = ([], refl, refl)
  targets_total (cid ∷ cids) h s =
      let (known, others) =
        and-true (member cid (keys m.connectors)) (subset cids (keys m.connectors)) s in
      let (c, found) = member-keys cid m.connectors known in
      let (ys, e, inside) = targets_total cids h others in
      (c.successor ∷ ys, rw (found, e) refl, rw (connector_checked m.connectors cid h found) inside)

  references-IsGraph : validate_references m ≡ ok tt → IsGraph (next_lanes m) (keys m.lanes)
  unfolding validate_references next_lanes
  references-IsGraph h x k =
      let (lanes, h') = after (each (check_lane_references m) m.lanes) _ h in
      let (conns, h'') = after (each (check_connector_references m) m.connectors) _ h' in
      let (lane, found) = member-keys x m.lanes k in
      rw found (targets_total lane.successors conns (lane_checked m.lanes x lanes found))

  -- On a map that passes `_validate_references` the search from a known lane never raises, within one
  -- round for each lane, and finds exactly the lanes that a walk along the connectors reaches.
  pub reachable_lanes_iff :
      (from : String)
      → validate_references m ≡ ok tt
      → member from (keys m.lanes) ≡ true
      → (r : List String) × (reachable_lanes m from ≡ ok r)
        × ((x : String) → (member x r ≡ true) ↔ Reach (next_lanes m) from x)
  unfolding reachable_lanes
  reachable_lanes_iff from h k =
      let (r, e) =
        explore_total (next_lanes m) (keys m.lanes) (references-IsGraph h) (length m.lanes)
          (from ∷ []) (from ∷ []) (rw k) (one_round m.lanes from k) in
      (r, rw k e, explore_iff (next_lanes m) from (length m.lanes) e)

  -- the successors of a lane are connectors, and those lead to lanes
  pub references-closed :
      validate_references m ≡ ok tt
      → ((lid : String) (l : LaneSegment F)
          → find lid m.lanes ≡ some l
          → subset l.successors (keys m.connectors) ≡ true)
        × ((cid : String) (c : Connector F)
            → find cid m.connectors ≡ some c
            → member c.successor (keys m.lanes) ≡ true)
  unfolding validate_references
  references-closed h =
      let (lanes, h') = after (each (check_lane_references m) m.lanes) _ h in
      let (conns, h'') = after (each (check_connector_references m) m.connectors) _ h' in
      (λ lid l. lane_checked m.lanes lid lanes, λ cid c. connector_checked m.connectors cid conns)
