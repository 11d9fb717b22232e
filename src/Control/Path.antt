-- ===== src/Control/Path.antt =====
-- rc_car/control/lane_follower.py: the tracks of positions, oldest first, and what is read off them.
use autonomous_rc_taxi.Prelude.{Option, none, some, List, [], ◌∷◌, ◌++◌, length, ltb, if◌then◌else◌}
use autonomous_rc_taxi.Floats.{Double, ◌-◌, ◌*◌, ◌%◌, lit, le, lt}
use autonomous_rc_taxi.Mapping.Geometry.{Point, polyline_length}

abbrev or_else {ℓ} : {A : Type ℓ} → Option A → Option A → Option A
or_else (some a) o = some a
or_else none o = o

module _ {F : Type 0} ⦃d : Double F⦄ where
  abbrev pub course_window : F
  course_window = lit 15 2

  -- `while len > 2 and _path_len > limit: pop(0)`
  unfoldable pub shortened : F → List (Point F) → List (Point F)
  shortened limit [] = []
  shortened limit (a ∷ []) = a ∷ []
  shortened limit (a ∷ b ∷ []) = a ∷ b ∷ []
  shortened limit (a ∷ b ∷ c ∷ rest) =
      let later = shortened limit (b ∷ c ∷ rest) in
      if lt limit (polyline_length (a ∷ b ∷ c ∷ rest)) then later else a ∷ b ∷ c ∷ rest

  -- a position joins a track, of which at most 2.5 windows are kept
  unfoldable pub extended : F → List (Point F) → Point F → List (Point F)
  unfolding shortened
  extended window path p = shortened (window * lit 25 1) (path ++ (p ∷ []))

  -- the loop from the back: the newest position before the last one that is a window away from it
  pub behind : F → Point F → List (Point F) → Option F
  behind window head [] = none
  behind window head (p ∷ []) = none
  behind window head (p ∷ q ∷ rest) =
      let dx = head.x - p.x in
      let dy = head.y - p.y in
      let here = if le window (d.hypot dx dy) then some (d.degrees (d.atan2 dy dx)) else none in
      or_else (behind window head (q ∷ rest)) here

  abbrev last_of : Point F → List (Point F) → Point F
  last_of a [] = a
  last_of a (b ∷ rest) = last_of b rest

  abbrev bearing : F → List (Point F) → Option F
  bearing window [] = none
  bearing window (a ∷ rest) = behind window (last_of a rest) (a ∷ rest)

  abbrev wrapped : Option F → Option F
  wrapped none = none
  wrapped (some a) = some (a % lit 360 0)

  unfoldable pub course_deg : List (Point F) → F → Option F
  unfolding behind
  course_deg path window = wrapped (bearing window path)

  unfoldable pub turn_course_deg : List (Point F) → Option F
  unfolding behind
  turn_course_deg path = if ltb (length path) 3 then none else bearing course_window path
