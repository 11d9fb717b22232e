-- ===== src/Mapping/LaneMap/Arrival.antt =====
-- Which lanes the arrival check accepts on a connector.
use text.Mathlib.Text.{◌==◌ as str_eq}
use text.Mathlib.TextEquality.{eq_iff}
use mathlib.Core.List.{Memᴰ}
use autonomous_rc_taxi.Prelude.{
  true, ◌≡◌, ◌⊎◌, ◌↔◌, inl, inr, sym, String, none, some, List, [], ◌∷◌, arith, Bool-cases, ap,
}
use autonomous_rc_taxi.Keys.{member, find}
use autonomous_rc_taxi.Mapping.LaneMap.{
  LaneMap, LaneSegment, Connector, entry_from, entry_lanes_of, arrival_lane_candidates,
}

module _ {F : Type 0} where
  -- a lane of the map that leads into the connector
  abbrev pub EntersBy : List (String × LaneSegment F) → String → String → Type 0
  EntersBy lanes cid lid =
      (lane : LaneSegment F) × Memᴰ (lid, lane) lanes × (member cid lane.successors ≡ true)

  enters_of_entry_from :
      (lanes : List (String × LaneSegment F)) (cid lid : String)
      → member lid (entry_from cid lanes) ≡ true
      → EntersBy lanes cid lid
  unfolding entry_from
  enters_of_entry_from [] cid lid h = absurd (ground arith)
  enters_of_entry_from ((k, lane) ∷ rest) cid lid h =
      elim (Bool-cases (member cid lane.successors)) [
        | inr out ↦ later (enters_of_entry_from rest cid lid (rw out at h))
        | inl into ↦ elim (Bool-cases (str_eq k lid)) [
          | inl here ↦ (lane, Memᴰ.head (ap (λ j. (j, lane)) (sym ((eq_iff k lid).0 here))), into)
          | inr there ↦ later (enters_of_entry_from rest cid lid (rw (into, there) at h))
        ]
      ]
    where
      later : EntersBy rest cid lid → EntersBy ((k, lane) ∷ rest) cid lid
      later (l, m, e) = (l, Memᴰ.tail m, e)

  entry_from_of_enters :
      (lanes : List (String × LaneSegment F)) (cid lid : String) (lane : LaneSegment F)
      → Memᴰ (lid, lane) lanes
      → member cid lane.successors ≡ true
      → member lid (entry_from cid lanes) ≡ true
  unfolding entry_from
  entry_from_of_enters [] cid lid lane none_there h = elim none_there [ ]
  entry_from_of_enters ((k, l) ∷ rest) cid lid lane (Memᴰ.head e) h =
      let same : lid ≡ k = ap (λ (p : String × LaneSegment F). p.0) e in
      let into : member cid l.successors ≡ true =
        rw (← ap (λ (p : String × LaneSegment F). p.1) e) h in
      rw into (rw (← same) (ground (arith, eq_iff lid lid)))
  entry_from_of_enters ((k, l) ∷ rest) cid lid lane (Memᴰ.tail m) h =
      ground (arith, entry_from_of_enters rest cid lid lane m h)

  -- On a connector (an id that is no lane) the arrival check accepts exactly the lane that the
  -- connector leads to and the lanes that lead into it.
  pub arrival_lane_candidates_iff :
      (m : LaneMap F) (cid lid : String) (c : Connector F)
      → find cid m.lanes ≡ none
      → find cid m.connectors ≡ some c
      → (member lid (arrival_lane_candidates m cid) ≡ true)
        ↔ ((c.successor ≡ lid) ⊎ EntersBy m.lanes cid lid)
  unfolding arrival_lane_candidates entry_lanes_of
  arrival_lane_candidates_iff m cid lid c not_lane e =
      rw (not_lane, e)
        (
          λ h. elim (Bool-cases (str_eq c.successor lid)) [
            | inl here ↦ inl ((eq_iff c.successor lid).0 here)
            | inr there ↦ inr (enters_of_entry_from m.lanes cid lid (rw there at h))
          ],
          λ h. elim h [
            | inl same ↦ rw (← same) (ground (arith, eq_iff c.successor c.successor))
            | inr (lane, k, into) ↦ ground (arith, entry_from_of_enters m.lanes cid lid lane k into)
          ],
        )
