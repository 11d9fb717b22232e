-- ===== src/Localization/Validator.antt =====
-- rc_car/localization/pose_validator.py. `json.loads` is an argument, as for the commands; a number
-- of a message is a float, or an integer that no float holds, for which `math.isfinite` raises
-- OverflowError. A text nested so deep that `json.loads` raises RecursionError is left out. The marker of a message is looked up as Python compares it with a number:
-- a bool is 0 or 1, and in cube mode a list or a dict, which has no hash, raises TypeError.
pub mod Accepted
use text.Mathlib.Text.{◌==◌ as str_eq}
use autonomous_rc_taxi.Prelude.{
  ℕ, Bool, true, false, not, ◌&&◌, ◌||◌, String, Option, none, some, List, [], ◌∷◌, if◌then◌else◌,
  ◌⊎◌, inl, inr,
}
use autonomous_rc_taxi.Floats.{Double, ◌+◌, ◌-◌, ◌*◌, ◌/◌, ◌%◌, lit, nought, le, lt, max}
use autonomous_rc_taxi.Result.{Result, ok, err, type_error, overflow_error, zero_division, ◌>>=◌}
use autonomous_rc_taxi.Core.Models.{LocalizationPose}
use autonomous_rc_taxi.Network.Messages.{
  Json, Fields, Items, null, bool, num, huge, str, arr, obj, nil, item, end, field, get,
}

pub data Reason : Type 0 where
  parse other_marker not_found malformed out_of_order out_of_map jump : Reason

pub data PoseResult (F : Type 0) : Type 0 where
  accepted : LocalizationPose F → PoseResult F
  rejected : Reason → PoseResult F

-- the faces' yaw offsets, by marker, and the distance from a face to the centre
pub record Cube (F : Type 0) : Type 0 where
  pub faces : List (F × F)
  pub center_off : F

-- the affine map from the server's frame
pub record Frame (F : Type 0) : Type 0 where
  pub a00 : F
  pub a01 : F
  pub a10 : F
  pub a11 : F
  pub t0 : F
  pub t1 : F

pub record PoseValidator (F : Type 0) : Type 0 where
  pub marker_id : F
  pub yaw_offset : F
  pub max_jump_m : F
  pub max_heading_jump_deg : F
  pub nominal_dt : F
  pub map_x : F
  pub map_y : F
  pub cube : Option (Cube F)
  pub frame : Frame F
  pub prev : Option (LocalizationPose F)
  pub prev_face : Option F

-- a message that has passed the checks of its form
pub record Sighting (F : Type 0) : Type 0 where
  pub marker : F
  pub offset : F
  pub ts : F
  pub x : F
  pub y : F
  pub heading : F

module _ {F : Type 0} where
  unfoldable pub reset : PoseValidator F → PoseValidator F
  reset v = record v { prev = none; prev_face = none }

module _ {F : Type 0} ⦃d : Double F⦄ where
  abbrev number_of_bool : Bool → F
  number_of_bool b = if b then lit 1 0 else nought

  -- the number that a JSON value equals, if any
  abbrev pub as_number : Option (Json F) → Option F
  as_number (some (num n)) = some n
  as_number (some (bool b)) = some (number_of_bool b)
  as_number _ = none

  abbrev pub is_unhashable : Option (Json F) → Bool
  is_unhashable (some (arr _)) = true
  is_unhashable (some (obj _)) = true
  is_unhashable _ = false

  pub face_offset : F → List (F × F) → Option F
  face_offset n [] = none
  face_offset n ((k, v) ∷ rest) = if d.eq k n then some v else face_offset n rest

  abbrev pub own_marker : PoseValidator F → Option F → Option (F × F)
  own_marker v none = none
  own_marker v (some n) = if d.eq n v.marker_id then some (n, v.yaw_offset) else none

  abbrev pub face_of : Cube F → Option F → Option (F × F)
  face_of c none = none
  face_of c (some n) = elim (face_offset n c.faces) [ none ↦ none | some o ↦ some (n, o) ]

  -- our marker and its yaw offset, or none for another vehicle's
  unfoldable pub marker_of : PoseValidator F → Option (Json F) → Result (Option (F × F))
  unfolding face_offset
  marker_of v mid = elim v.cube [
    | none ↦ ok (own_marker v (as_number mid))
    | some c ↦ if is_unhashable mid then err type_error else ok (face_of c (as_number mid))
  ]

  -- `_is_finite_number`, with the number
  abbrev pub finite_number : Option (Json F) → Result (Option F)
  finite_number (some (num n)) = if d.is_finite n then ok (some n) else ok none
  finite_number (some huge) = err overflow_error
  finite_number _ = ok none

  -- `not msg.get("found")`
  abbrev pub is_falsy : Option (Json F) → Bool
  is_falsy none = true
  is_falsy (some null) = true
  is_falsy (some (bool b)) = not b
  is_falsy (some (num n)) = d.eq n nought
  is_falsy (some huge) = false
  is_falsy (some (str s)) = str_eq s ""
  is_falsy (some (arr nil)) = true
  is_falsy (some (arr (item _ _))) = false
  is_falsy (some (obj end)) = true
  is_falsy (some (obj (field _ _ _))) = false

  -- a message without the number is malformed
  abbrev pub with_number :
      Result (Option F) → (F → Result (Sighting F ⊎ Reason)) → Result (Sighting F ⊎ Reason)
  with_number (err e) next = err e
  with_number (ok none) next = ok (inr malformed)
  with_number (ok (some n)) next = next n

  abbrev pub placed : Fields F → F × F → F → Option (Json F) → Result (Sighting F ⊎ Reason)
  placed msg m ts (some (obj pos)) = with_number (finite_number (get "x" pos)) (λ x.
      with_number (finite_number (get "y" pos)) (λ y.
        with_number (finite_number (get "heading" msg)) (λ h.
          ok (inl (record { marker = m.0; offset = m.1; ts = ts; x = x; y = y; heading = h })))))
  placed msg m ts _ = ok (inr malformed)

  abbrev pub timed : Fields F → F × F → F → Result (Sighting F ⊎ Reason)
  timed msg m ts =
      if is_falsy (get "found" msg)
      then ok (inr not_found)
      else placed msg m ts (get "position" msg)

  abbrev pub of_marker : Fields F → Option (F × F) → Result (Sighting F ⊎ Reason)
  of_marker msg none = ok (inr other_marker)
  of_marker msg (some m) = with_number (finite_number (get "timestamp" msg)) (timed msg m)

  -- the checks of a message's form, in the order of the source
  unfoldable pub sight : PoseValidator F → Option (Json F) → Result (Sighting F ⊎ Reason)
  unfolding marker_of get
  sight v (some (obj msg)) = marker_of v (get "marker_id" msg) >>= of_marker msg
  sight v _ = ok (inr parse)

  -- from a face to the centre of the vehicle
  abbrev centred : Option (Cube F) → Sighting F → F × F
  centred none g = (g.x, g.y)
  centred (some c) g =
      let rad = d.radians g.heading in
      (g.x - c.center_off * d.cos rad, g.y - c.center_off * d.sin rad)

  abbrev is_identity : Frame F → Bool
  is_identity f =
      (d.eq f.a00 (lit 1 0) && d.eq f.a01 nought && d.eq f.a10 nought && d.eq f.a11 (lit 1 0))
      && (d.eq f.t0 nought && d.eq f.t1 nought)

  -- to the frame of the map
  abbrev mapped : Frame F → F × F → F × F
  mapped f p =
      if is_identity f
      then p
      else (f.a00 * p.0 + f.a01 * p.1 + f.t0, f.a10 * p.0 + f.a11 * p.1 + f.t1)

  abbrev rotation_deg : Frame F → F
  rotation_deg f = d.degrees (d.atan2 f.a10 f.a00)

  abbrev pub heading_delta_deg : F → F → F
  heading_delta_deg a b = d.abs ((a - b + lit 180 0) % lit 360 0 - lit 180 0)

  abbrev pub within_map : PoseValidator F → F × F → Bool
  within_map v p = (le nought p.0 && le p.0 v.map_x) && (le nought p.1 && le p.1 v.map_y)

  -- the pose that a sighting stands for
  unfoldable pub pose_of : PoseValidator F → Sighting F → F → LocalizationPose F
  pose_of v g received_monotonic_s =
      let p = mapped v.frame (centred v.cube g) in
      record {
        x = p.0;
        y = p.1;
        heading_deg = (g.heading + g.offset + rotation_deg v.frame) % lit 360 0;
        source_timestamp_s = g.ts;
        received_monotonic_s = received_monotonic_s;
      }

  abbrev same_number : Option F → F → Bool
  same_number none m = false
  same_number (some n) m = d.eq m n

  -- `not self._cube or mid == self._prev_face`
  abbrev pub same_face : PoseValidator F → F → Bool
  same_face v m = elim v.cube [ none ↦ true | some _ ↦ same_number v.prev_face m ]

  -- how much further than in one interval a pose may be
  abbrev pub scale : PoseValidator F → LocalizationPose F → LocalizationPose F → F
  scale v prev pose =
      max (lit 1 0) ((pose.source_timestamp_s - prev.source_timestamp_s) / v.nominal_dt)

  abbrev pub jumps : PoseValidator F → LocalizationPose F → LocalizationPose F → Bool
  jumps v prev pose =
      lt (v.max_jump_m * scale v prev pose) (d.hypot (pose.x - prev.x) (pose.y - prev.y))
      || lt (v.max_heading_jump_deg * scale v prev pose)
          (heading_delta_deg pose.heading_deg prev.heading_deg)

  abbrev pub is_late : Option (LocalizationPose F) → LocalizationPose F → Bool
  is_late none pose = false
  is_late (some prev) pose = le pose.source_timestamp_s prev.source_timestamp_s

  -- a nominal interval of 0 raises ZeroDivisionError
  abbrev pub is_jump_from :
      PoseValidator F → F → LocalizationPose F → Option (LocalizationPose F) → Result Bool
  is_jump_from v m pose none = ok false
  is_jump_from v m pose (some prev) =
      if not (same_face v m)
      then ok false
      else if d.eq v.nominal_dt nought
      then err zero_division
      else ok (jumps v prev pose)

  abbrev face_to_keep : PoseValidator F → F → Option F
  face_to_keep v m = elim v.cube [ none ↦ none | some _ ↦ some m ]

  abbrev pub unless_jump :
      PoseValidator F → F → LocalizationPose F → Bool → PoseResult F × PoseValidator F
  unless_jump v m pose true = (rejected jump, v)
  unless_jump v m pose false =
      (accepted pose, record v { prev = some pose; prev_face = face_to_keep v m })

  -- the checks against the pose before and the map, and the new state
  unfoldable pub weigh :
      PoseValidator F → F → LocalizationPose F → Result (PoseResult F × PoseValidator F)
  weigh v m pose =
      if is_late v.prev pose
      then ok (rejected out_of_order, v)
      else if not (within_map v (pose.x, pose.y))
      then ok (rejected out_of_map, v)
      else (do far ← is_jump_from v m pose v.prev; ok (unless_jump v m pose far))

  abbrev pub decide :
      PoseValidator F → F → Sighting F ⊎ Reason → Result (PoseResult F × PoseValidator F)
  decide v now (inl g) = weigh v g.marker (pose_of v g now)
  decide v now (inr why) = ok (rejected why, v)

  unfoldable pub validate :
      (String → Option (Json F))
      → PoseValidator F
      → String
      → F
      → Result (PoseResult F × PoseValidator F)
  unfolding sight weigh pose_of
  validate loads v raw received_monotonic_s = sight v (loads raw) >>= decide v received_monotonic_s
