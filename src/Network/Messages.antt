-- ===== src/Network/Messages.antt =====
-- rc_car/network/messages.py: `parse_command`. What `json.loads` returns is the tree of the JSON
-- text, its objects with distinct keys; the function itself is an argument, `none` where it raises.
pub mod Protocol
use Prim.Native.Char.{code}
use Prim.Native.String.{[] as empty, ◌∷◌ as cons}
use text.Mathlib.Text.{◌==◌ as str_eq}
use autonomous_rc_taxi.Prelude.{
  ℕ, Bool, true, false, not, ◌&&◌, ◌||◌, String, Option, none, some, ◌==◌, if◌then◌else◌, is_some,
}
use autonomous_rc_taxi.Floats.{Double, le, nought}

mutual
  pub data Json (F : Type 0) : Type 0 where
    null : Json F
    bool : Bool → Json F
    num : F → Json F
    -- an integer that is too large for a float
    huge : Json F
    str : String → Json F
    arr : Items F → Json F
    obj : Fields F → Json F

  pub data Items (F : Type 0) : Type 0 where
    nil : Items F
    item : Json F → Items F → Items F

  pub data Fields (F : Type 0) : Type 0 where
    end : Fields F
    field : String → Json F → Fields F → Fields F

pub data Command (F : Type 0) : Type 0 where
  move : F → F → Command F
  stop resume : Command F

-- `ver.split(".")[0]`
pub before_dot : String → String
before_dot String.[] = String.[]
before_dot (String.◌∷◌ c s) = if code c == b'.' then String.[] else String.◌∷◌ c (before_dot s)

module _ {F : Type 0} where
  -- `msg.get(key)`
  unfoldable pub get : String → Fields F → Option (Json F)
  get key end = none
  get key (field k v fs) = if str_eq k key then some v else get key fs

  abbrev pub is_text : String → Option (Json F) → Bool
  is_text t (some (str s)) = str_eq s t
  is_text t _ = false

  -- a text whose part before the first dot is not "2"
  abbrev pub other_major : Option (Json F) → Bool
  other_major (some (str s)) = not (str_eq (before_dot s) "2")
  other_major _ = false

module _ {F : Type 0} ⦃d : Double F⦄ where
  abbrev in_range : F → F → Bool
  in_range top v = le nought v && le v top

  -- the coordinates of `move`
  abbrev pub location : F → F → Option (Json F) → Option (Json F) → Option (Command F)
  location x_max y_max (some (num x)) (some (num y)) =
      if in_range x_max x && in_range y_max y then some (move x y) else none
  location x_max y_max _ _ = none

  abbrev pub move_to : F → F → Option (Json F) → Option (Command F)
  move_to x_max y_max (some (obj loc)) = location x_max y_max (get "x" loc) (get "y" loc)
  move_to x_max y_max _ = none

  unfoldable pub parse_fields : F → F → Fields F → Option (Command F)
  unfolding get before_dot
  parse_fields x_max y_max msg =
      if other_major (get "protocol_version" msg)
      then none
      else if not (is_text "command" (get "header" msg))
      then none
      else if is_text "move" (get "command" msg)
      then move_to x_max y_max (get "loc" msg)
      else if is_text "stop" (get "command" msg)
      then some stop
      else if is_text "resume" (get "command" msg)
      then some resume
      else none

  abbrev pub parse_message : F → F → Option (Json F) → Option (Command F)
  parse_message x_max y_max (some (obj msg)) = parse_fields x_max y_max msg
  parse_message x_max y_max _ = none

  unfoldable pub parse_command : (String → Option (Json F)) → F → F → String → Option (Command F)
  unfolding parse_fields
  parse_command loads x_max y_max raw = parse_message x_max y_max (loads raw)
