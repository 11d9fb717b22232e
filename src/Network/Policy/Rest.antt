-- ===== src/Network/Policy/Rest.antt =====
-- The motor rests in every state that is no driving one, whatever the policy does.
use autonomous_rc_taxi.Prelude.{true, ◌≡◌, ◌⊎◌, Option, none, some, String, arith}
use autonomous_rc_taxi.Floats.{Double, nought}
use autonomous_rc_taxi.Core.Enums.{is_driving}
use autonomous_rc_taxi.Network.Messages.{Json, Command}
use autonomous_rc_taxi.Network.Policy.{
  Vehicle, state, on_command, on_raw_message, on_control_disconnected, on_control_connected,
  on_gps_lost, on_gps_recovered, notify_arrived,
}
use autonomous_rc_taxi.Network.Policy.Invariant.{IsConsistent}

module _ {F : Type 0} ⦃d : Double F⦄ where
  abbrev pub IsAtRest : Vehicle F → Type 0
  IsAtRest v = (is_driving (state v) ≡ true) ⊎ (v.plant.motor.throttle ≡ nought)

  on_command-IsAtRest :
      (now : F) (c : Option (Command F)) (v : Vehicle F)
      → IsConsistent v
      → IsAtRest v
      → IsAtRest (on_command now c v)
  unfolding on_command
  on_command-IsAtRest now none v h r = r
  on_command-IsAtRest now (some (Command.move x y)) v h r = ground arith
  on_command-IsAtRest now (some Command.stop) v h r = ground arith
  on_command-IsAtRest now (some Command.resume) v h r = ground arith

  pub on_raw_message-IsAtRest :
      (loads : String → Option (Json F)) (x_max y_max now : F) (raw : String) (v : Vehicle F)
      → IsConsistent v
      → IsAtRest v
      → IsAtRest (on_raw_message loads x_max y_max now raw v)
  unfolding on_raw_message
  on_raw_message-IsAtRest loads x_max y_max now raw v h r = on_command-IsAtRest now _ v h r

  pub on_control_connected-IsAtRest :
      (now : F) (v : Vehicle F) → IsAtRest v → IsAtRest (on_control_connected now v)
  unfolding on_control_connected
  on_control_connected-IsAtRest now v r = ground arith

  pub on_control_disconnected-IsAtRest :
      (v : Vehicle F) → IsAtRest v → IsAtRest (on_control_disconnected v)
  unfolding on_control_disconnected
  on_control_disconnected-IsAtRest v r = ground arith

  pub on_gps_lost-IsAtRest : (now : F) (v : Vehicle F) → IsAtRest v → IsAtRest (on_gps_lost now v)
  unfolding on_gps_lost
  on_gps_lost-IsAtRest now v r = ground arith

  pub on_gps_recovered-IsAtRest :
      (now : F) (v : Vehicle F) → IsConsistent v → IsAtRest v → IsAtRest (on_gps_recovered now v)
  unfolding on_gps_recovered
  on_gps_recovered-IsAtRest now v h r = ground arith

  pub notify_arrived-IsAtRest :
      (now : F) (v : Vehicle F) → IsAtRest v → IsAtRest (notify_arrived now v)
  unfolding notify_arrived
  notify_arrived-IsAtRest now v r = ground arith
