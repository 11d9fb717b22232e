-- ===== src/Network/Messages/Protocol.antt =====
-- Which messages are commands.
use autonomous_rc_taxi.Prelude.{true, false, ◌≡◌, ◌↔◌, String, Option, none, some, arith, refl}
use autonomous_rc_taxi.Floats.{Double, nought}
use autonomous_rc_taxi.Floats.Laws.{◌≼◌}
use autonomous_rc_taxi.Network.Messages.{
  Json, Fields, null, huge, bool, num, str, arr, obj, move, get, is_text, other_major, location,
  move_to, parse_fields, parse_message, parse_command,
}

module _ {F : Type 0} ⦃d : Double F⦄ (x_max y_max : F) where
  -- a protocol 2 command
  abbrev pub IsCommand : String → Fields F → Type 0
  IsCommand name msg =
      (other_major (get "protocol_version" msg) ≡ false)
      × (is_text "command" (get "header" msg) ≡ true)
      × (is_text name (get "command" msg) ≡ true)

  abbrev pub Locates : Fields F → F → F → Type 0
  Locates msg x y =
      (loc : Fields F) × (get "loc" msg ≡ some (obj loc))
      × (get "x" loc ≡ some (num x))
      × (get "y" loc ≡ some (num y))
      × (nought ≼ x)
      × (x ≼ x_max)
      × (nought ≼ y)
      × (y ≼ y_max)

  location-eq-some :
      (a b : Option (Json F)) (x y : F)
      → location x_max y_max a b ≡ some (move x y)
      → (a ≡ some (num x))
        × (b ≡ some (num y))
        × (nought ≼ x)
        × (x ≼ x_max)
        × (nought ≼ y)
        × (y ≼ y_max)
  location-eq-some a b x y h = ground arith

  move_to-Locates :
      (msg : Fields F) (o : Option (Json F)) (x y : F)
      → get "loc" msg ≡ o
      → move_to x_max y_max o ≡ some (move x y)
      → Locates msg x y
  move_to-Locates msg (some (obj loc)) x y e h =
      let (ex, ey, x0, x1, y0, y1) = location-eq-some _ _ x y h in (loc, e, ex, ey, x0, x1, y0, y1)
  move_to-Locates msg none x y e h = absurd (ground arith)
  move_to-Locates msg (some null) x y e h = absurd (ground arith)
  move_to-Locates msg (some huge) x y e h = absurd (ground arith)
  move_to-Locates msg (some (bool b)) x y e h = absurd (ground arith)
  move_to-Locates msg (some (num n)) x y e h = absurd (ground arith)
  move_to-Locates msg (some (str s)) x y e h = absurd (ground arith)
  move_to-Locates msg (some (arr s)) x y e h = absurd (ground arith)

  parse_fields-eq-some :
      (msg : Fields F) (x y : F)
      → parse_fields x_max y_max msg ≡ some (move x y)
      → IsCommand "move" msg × (move_to x_max y_max (get "loc" msg) ≡ some (move x y))
  unfolding parse_fields
  parse_fields-eq-some msg x y h = ground arith

  parse_message-eq-some :
      (o : Option (Json F)) (x y : F)
      → parse_message x_max y_max o ≡ some (move x y)
      → (msg : Fields F) × (o ≡ some (obj msg)) × IsCommand "move" msg × Locates msg x y
  parse_message-eq-some (some (obj msg)) x y h =
      let (named, at) = parse_fields-eq-some msg x y h in
      (msg, refl, named, move_to-Locates msg (get "loc" msg) x y refl at)
  parse_message-eq-some none x y h = absurd (ground arith)
  parse_message-eq-some (some null) x y h = absurd (ground arith)
  parse_message-eq-some (some huge) x y h = absurd (ground arith)
  parse_message-eq-some (some (bool b)) x y h = absurd (ground arith)
  parse_message-eq-some (some (num n)) x y h = absurd (ground arith)
  parse_message-eq-some (some (str s)) x y h = absurd (ground arith)
  parse_message-eq-some (some (arr s)) x y h = absurd (ground arith)

  -- A text is a move to (x, y) exactly when it is a JSON object that bears the header "command", the
  -- command "move", no protocol version of another major than 2, and a `loc` object with the numbers
  -- x and y, both on the map.
  pub parse_command_move :
      (loads : String → Option (Json F)) (raw : String) (x y : F)
      → (parse_command loads x_max y_max raw ≡ some (move x y))
        ↔ ((msg : Fields F) × (loads raw ≡ some (obj msg)) × IsCommand "move" msg × Locates msg x y)
  unfolding parse_command parse_fields
  parse_command_move loads raw x y = (
    parse_message-eq-some (loads raw) x y,
    λ h.
        (let (msg, e, (a, b, c), (loc, at, ex, ey, x0, x1, y0, y1)) = h in
          rw (e, a, b, c, at, ex, ey, x0, x1, y0, y1) refl),
  )
