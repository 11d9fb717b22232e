-- ===== src/Navigation/TurnTable/Mirrored.antt =====
-- What rc_car/navigation/turn_table.py gives a turn and its mirror image.
use autonomous_rc_taxi.Prelude.{◌≡◌, ap, ◌∙◌, Option, none, some}
use autonomous_rc_taxi.Floats.{Double}
use autonomous_rc_taxi.Navigation.LaneRoute.{Turn}
use autonomous_rc_taxi.Navigation.TurnTable.{
  TurnKey, TurnEntry, TurnTable, turn_key, symmetric_key, get_entry, entry_for, resolve, resolved,
  with_key, under, or_mirror,
}

module _ {F : Type 0} where
  own_entry :
      (t : TurnTable F) (k : TurnKey) {e : TurnEntry F}
      → get_entry k t.entries ≡ some e
      → entry_for t.entries k ≡ some (e, k)
  unfolding entry_for
  own_entry t k h = ap (or_mirror t.entries k) h

  mirror_entry :
      (t : TurnTable F) (k m : TurnKey) {e : TurnEntry F}
      → get_entry k t.entries ≡ none
      → symmetric_key k ≡ some m
      → get_entry m t.entries ≡ some e
      → entry_for t.entries k ≡ some (e, m)
  unfolding entry_for
  mirror_entry t k m h1 h2 h3 =
      ap (or_mirror t.entries k) h1 ∙ ap (under t.entries) h2 ∙ ap (with_key m) h3

module _ {F : Type 0} ⦃d : Double F⦄ where
  resolved-same :
      (t : TurnTable F) (a b : Turn F) (found : Option (TurnEntry F × TurnKey))
      → a.maneuver ≡ b.maneuver
      → a.radius_m ≡ b.radius_m
      → resolved t a found ≡ record (resolved t b found) { key = turn_key a }
  unfolding resolved
  resolved-same t a b found h1 h2 = simp (h1, h2)

  -- A turn without an entry of its own is driven as its mirror image is: if the table has an entry
  -- for the mirrored turn, and the two turns have the same manoeuvre and radius, then all that the
  -- table says of them is equal, but for the name.
  pub resolve_mirrored :
      (t : TurnTable F) (a b : Turn F) {e : TurnEntry F}
      → get_entry (turn_key a) t.entries ≡ none
      → symmetric_key (turn_key a) ≡ some (turn_key b)
      → get_entry (turn_key b) t.entries ≡ some e
      → a.maneuver ≡ b.maneuver
      → a.radius_m ≡ b.radius_m
      → resolve t a ≡ record (resolve t b) { key = turn_key a }
  unfolding resolve
  resolve_mirrored t a b {e = e} h1 h2 h3 h4 h5 =
      rw (mirror_entry t (turn_key a) (turn_key b) h1 h2 h3, own_entry t (turn_key b) h3)
        (resolved-same t a b (some (e, turn_key b)) h4 h5)
