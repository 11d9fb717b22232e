-- ===== src/Navigation/TurnTable.antt =====
-- rc_car/navigation/turn_table.py. The YAML file is read by a third-party parser; the model starts at
-- the parsed block. An entry is a dictionary of which each key may be missing; a key whose value may
-- also be null is an option twice. A null elsewhere (`float(None)`) is not modelled.

pub mod Mirrored
use text.Mathlib.Text.{◌==◌ as str_eq, find?}
use autonomous_rc_taxi.Prelude.{
  ℕ, Bool, true, false, not, ◌&&◌, ◌||◌, String, Option, none, some, is_some, List, [], ◌∷◌, ◌==◌,
  if◌then◌else◌,
}
use autonomous_rc_taxi.Floats.{Double, ◌/◌, lit, nought, le, lt, min, max}
use autonomous_rc_taxi.Result.{Result, ok, config_error, ◌>>◌, guard}
use autonomous_rc_taxi.Keys.{member}
use autonomous_rc_taxi.Mapping.LaneMap.{Maneuver, straight, left, right, follow, lane_change}
use autonomous_rc_taxi.Navigation.Numbers.{symmetric_num}
use autonomous_rc_taxi.Navigation.LaneRoute.{Turn}

-- a key's text: "11->22" is `between 11 22`, any other text is `named`
pub data TurnKey : Type 0 where
  between : ℕ → ℕ → TurnKey
  named : String → TurnKey

abbrev pub same_key : TurnKey → TurnKey → Bool
same_key (between a b) (between c e) = a == c && b == e
same_key (named s) (named t) = str_eq s t
same_key _ _ = false

-- `lane_route.Turn.key`
abbrev key_of : String → Option ℕ → Option ℕ → TurnKey
key_of id (some a) (some b) = between a b
key_of id _ _ = named id

unfoldable pub turn_key : {F : Type 0} → Turn F → TurnKey
turn_key t = key_of t.connector_id t.from_num t.to_num

abbrev both : Option ℕ → Option ℕ → Option TurnKey
both (some a) (some b) = some (between a b)
both _ _ = none

unfoldable pub symmetric_key : TurnKey → Option TurnKey
symmetric_key (between a b) = both (symmetric_num (some a)) (symmetric_num (some b))
symmetric_key (named s) = none

pub record TriggerSpec (F : Type 0) : Type 0 where
  pub cls : Option String
  pub min_conf : F
  pub near_row_frac : F
  pub max_lateral_m : F

abbrev pub uses_vision : {F : Type 0} → TriggerSpec F → Bool
uses_vision t = is_some t.cls

pub record ResolvedTurn (F : Type 0) : Type 0 where
  pub key : TurnKey
  pub maneuver : Maneuver
  pub arm_distance_m : F
  pub start_offset_m : F
  pub wheel_deg : F
  pub exit_align_deg : F
  pub min_turn_m : F
  pub max_turn_m : F
  pub arc_complete_m : Option F
  pub fallback_at_lane_end : Bool
  pub fallback_lead_m : F
  pub fuse_next : Bool
  pub trigger : TriggerSpec F
  pub from_table : Bool
  pub source_key : Option TurnKey

abbrev other_key : TurnKey → Option TurnKey → Bool
other_key k (some s) = not (same_key s k)
other_key k none = false

unfoldable pub inherited : {F : Type 0} → ResolvedTurn F → Bool
inherited r = r.from_table && other_key r.key r.source_key

abbrev turns : Maneuver → Bool
turns left = true
turns right = true
turns _ = false

unfoldable pub is_turn : {F : Type 0} → ResolvedTurn F → Bool
is_turn r = turns r.maneuver

-- what the file may say of a trigger, and of a turn
pub record TriggerEntry (F : Type 0) : Type 0 where
  pub cls : Option (Option String)
  pub min_conf : Option F
  pub near_row_frac : Option F
  pub max_lateral_m : Option F

pub record TurnEntry (F : Type 0) : Type 0 where
  pub arm_distance_m : Option F
  pub start_offset_m : Option F
  pub wheel_deg : Option (Option F)
  pub exit_align_deg : Option F
  pub min_turn_m : Option F
  pub max_turn_m : Option F
  pub arc_complete_m : Option (Option F)
  pub fallback_at_lane_end : Option Bool
  pub fallback_lead_m : Option F
  pub fuse_next : Option Bool
  pub trigger : Option (Option (TriggerEntry F))

-- `defaults` is an empty dictionary if it is missing; a turn's entry may be null
pub record TurnTable (F : Type 0) : Type 0 where
  pub defaults : TurnEntry F
  pub entries : List (TurnKey × Option (TurnEntry F))
  pub wheelbase : F
  pub max_wheel : F

-- a key of the second dictionary wins
abbrev pub over {ℓ} : {A : Type ℓ} → Option A → Option A → Option A
over base (some a) = some a
over base none = base

abbrev pub value_or {ℓ} : {A : Type ℓ} → A → Option A → A
value_or a none = a
value_or a (some b) = b

-- `d.get(k)` where the value may be null
abbrev pub flat {ℓ} : {A : Type ℓ} → Option (Option A) → Option A
flat none = none
flat (some o) = o

abbrev pub no_trigger : {F : Type 0} → TriggerEntry F
no_trigger = record { cls = none; min_conf = none; near_row_frac = none; max_lateral_m = none }

abbrev trigger_classes : List String
trigger_classes = "crosswalk" ∷ "stop_line" ∷ "direction_arrow" ∷ "dashed_line" ∷ []

abbrev class_ok : Option String → Bool
class_ok none = true
class_ok (some c) = member c trigger_classes

-- `"->" in str(key)`
abbrev has_arrow : TurnKey → Bool
has_arrow (between a b) = true
has_arrow (named s) = is_some (find? s "->")

module _ {F : Type 0} where
  abbrev merge_trigger :
      Option (Option (TriggerEntry F))
      → Option (Option (TriggerEntry F))
      → Option (Option (TriggerEntry F))
  merge_trigger base (some (some t)) =
      let b = value_or no_trigger (flat base) in
      some (
        some (record {
          cls = over b.cls t.cls;
          min_conf = over b.min_conf t.min_conf;
          near_row_frac = over b.near_row_frac t.near_row_frac;
          max_lateral_m = over b.max_lateral_m t.max_lateral_m;
        }))
  merge_trigger base (some none) = some none
  merge_trigger base none = base

  unfoldable pub merge : TurnEntry F → Option (TurnEntry F) → TurnEntry F
  merge base none = base
  merge base (some e) = record {
    arm_distance_m = over base.arm_distance_m e.arm_distance_m;
    start_offset_m = over base.start_offset_m e.start_offset_m;
    wheel_deg = over base.wheel_deg e.wheel_deg;
    exit_align_deg = over base.exit_align_deg e.exit_align_deg;
    min_turn_m = over base.min_turn_m e.min_turn_m;
    max_turn_m = over base.max_turn_m e.max_turn_m;
    arc_complete_m = over base.arc_complete_m e.arc_complete_m;
    fallback_at_lane_end = over base.fallback_at_lane_end e.fallback_at_lane_end;
    fallback_lead_m = over base.fallback_lead_m e.fallback_lead_m;
    fuse_next = over base.fuse_next e.fuse_next;
    trigger = merge_trigger base.trigger e.trigger;
  }

  -- `self._turns.get(key)`: a null entry reads as none
  unfoldable pub get_entry : TurnKey → List (TurnKey × Option (TurnEntry F)) → Option (TurnEntry F)
  get_entry k [] = none
  get_entry k ((j, e) ∷ rest) = let later = get_entry k rest in if same_key j k then e else later

  abbrev with_key : TurnKey → Option (TurnEntry F) → Option (TurnEntry F × TurnKey)
  with_key k none = none
  with_key k (some e) = some (e, k)

  abbrev pub under :
      List (TurnKey × Option (TurnEntry F)) → Option TurnKey → Option (TurnEntry F × TurnKey)
  under es none = none
  under es (some m) = with_key m (get_entry m es)

  abbrev pub or_mirror :
      List (TurnKey × Option (TurnEntry F))
      → TurnKey
      → Option (TurnEntry F)
      → Option (TurnEntry F × TurnKey)
  or_mirror es key (some e) = some (e, key)
  or_mirror es key none = under es (symmetric_key key)

  -- the turn's own entry, or that of its mirror image, and the key it stands under
  unfoldable pub entry_for :
      List (TurnKey × Option (TurnEntry F)) → TurnKey → Option (TurnEntry F × TurnKey)
  entry_for es key = or_mirror es key (get_entry key es)

  abbrev entry_of : Option (TurnEntry F × TurnKey) → Option (TurnEntry F)
  entry_of none = none
  entry_of (some (e, k)) = some e

  abbrev source_of : Option (TurnEntry F × TurnKey) → Option TurnKey
  source_of none = none
  source_of (some (e, k)) = some k

module _ {F : Type 0} ⦃d : Double F⦄ where
  -- no radius, or 0, steers fully
  unfoldable pub geometric_wheel_deg : TurnTable F → Option F → F
  geometric_wheel_deg t none = t.max_wheel
  geometric_wheel_deg t (some r) =
      if d.eq r nought || le r nought then t.max_wheel else d.degrees (d.atan (t.wheelbase / r))

  abbrev size_of : TurnTable F → Option F → Option F → F
  size_of t radius none = geometric_wheel_deg t radius
  size_of t radius (some w) = d.abs w

  -- plus is to the right
  abbrev signed : Maneuver → F → F
  signed right w = w
  signed left w = d.neg w
  signed straight w = nought
  signed follow w = nought
  signed lane_change w = nought

  abbrev trigger_of : TriggerEntry F → TriggerSpec F
  trigger_of t = record {
    cls = flat t.cls;
    min_conf = value_or (lit 45 2) t.min_conf;
    near_row_frac = value_or (lit 80 2) t.near_row_frac;
    max_lateral_m = value_or (lit 30 2) t.max_lateral_m;
  }

  unfoldable pub resolved : TurnTable F → Turn F → Option (TurnEntry F × TurnKey) → ResolvedTurn F
  unfolding turn_key merge geometric_wheel_deg
  resolved t turn found =
      let cfg = merge t.defaults (entry_of found) in
      let wheel = signed turn.maneuver (size_of t turn.radius_m (flat cfg.wheel_deg)) in
      record {
        key = turn_key turn;
        maneuver = turn.maneuver;
        arm_distance_m = value_or (lit 6 1) cfg.arm_distance_m;
        start_offset_m = value_or nought cfg.start_offset_m;
        wheel_deg = max (d.neg t.max_wheel) (min t.max_wheel wheel);
        exit_align_deg = value_or (lit 12 0) cfg.exit_align_deg;
        min_turn_m = value_or (lit 10 2) cfg.min_turn_m;
        max_turn_m = value_or (lit 120 2) cfg.max_turn_m;
        arc_complete_m = flat cfg.arc_complete_m;
        fallback_at_lane_end = value_or true cfg.fallback_at_lane_end;
        fallback_lead_m = value_or nought cfg.fallback_lead_m;
        fuse_next = value_or false cfg.fuse_next;
        trigger = trigger_of (value_or no_trigger (flat cfg.trigger));
        from_table = is_some found;
        source_key = source_of found;
      }

  unfoldable pub resolve : TurnTable F → Turn F → ResolvedTurn F
  unfolding turn_key
  resolve t turn = resolved t turn (entry_for t.entries (turn_key turn))

  abbrev frac_ok : Option F → Bool
  frac_ok none = true
  frac_ok (some f) = lt nought f && le f (lit 1 0)

  -- one round of the first loop
  abbrev pub trigger_ok : TriggerEntry F → Bool
  trigger_ok t = class_ok (flat t.cls) && frac_ok t.near_row_frac

  abbrev pub entry_trigger : Option (TurnEntry F) → TriggerEntry F
  entry_trigger none = no_trigger
  entry_trigger (some e) = value_or no_trigger (flat e.trigger)

  abbrev triggers_ok : List (TurnKey × Option (TurnEntry F)) → Bool
  triggers_ok [] = true
  triggers_ok ((k, e) ∷ rest) = trigger_ok (entry_trigger e) && triggers_ok rest

  abbrev arrows_ok : List (TurnKey × Option (TurnEntry F)) → Bool
  arrows_ok [] = true
  arrows_ok ((k, e) ∷ rest) = has_arrow k && arrows_ok rest

  unfoldable pub validate_table : TurnTable F → Result (Unit {0})
  validate_table t =
      guard (trigger_ok (entry_trigger (some t.defaults)) && triggers_ok t.entries) config_error
      >> guard (arrows_ok t.entries) config_error

  -- the constructor: a block that fails the check makes no table
  unfoldable pub new_table :
      TurnEntry F → List (TurnKey × Option (TurnEntry F)) → F → F → Result (TurnTable F)
  unfolding validate_table
  new_table defaults entries wheelbase_m max_wheel_deg =
      let t : TurnTable F = record {
        defaults = defaults;
        entries = entries;
        wheelbase = wheelbase_m;
        max_wheel = max_wheel_deg;
      } in
      validate_table t >> ok t
