-- ===== src/Network/Policy/Invariant.antt =====
-- What holds of the vehicle between two handlers of the policy.
use autonomous_rc_taxi.Prelude.{
  false, ◌≡◌, Option, none, some, String, is_some, arith, ◌||◌, ◌&&◌, not,
}
use autonomous_rc_taxi.Floats.{Double}
use autonomous_rc_taxi.Core.Enums.{DrivingState, error, is_error, is_arrived, is_driving}
use autonomous_rc_taxi.Core.Models.{VehicleSnapshot}
use autonomous_rc_taxi.Network.Messages.{Json, Command}
use autonomous_rc_taxi.Network.Policy.{
  Vehicle, state, any, on_command, on_raw_message, on_control_disconnected, on_control_connected,
  on_gps_lost, on_gps_recovered, notify_arrived,
}

-- where the vehicle is, or comes back to after an error
abbrev pub underlying : DrivingState → Option DrivingState → DrivingState
underlying error (some s) = s
underlying s _ = s

module _ {F : Type 0} where
  abbrev pub home : VehicleSnapshot F → DrivingState
  home s = underlying s.driving_state s.prev_state_for_recovery

  pub record IsConsistent (v : Vehicle F) : Type 0 where
    pub error_iff_reason : is_error (state v) ≡ any v.reasons
    pub kept_iff_error : is_some v.plant.store.prev_state_for_recovery ≡ is_error (state v)
    pub home_live : is_error (home v.plant.store) ≡ false
    pub resend_lost : is_some v.reports.error_resend_ts && not v.reasons.control_lost ≡ false
    pub complete_iff_arrived : is_some v.reports.complete_ts ≡ is_arrived (home v.plant.store)
    pub mission_iff_service :
        is_some v.plant.store.mission
        ≡ is_driving (home v.plant.store) || is_arrived (home v.plant.store)

  on_command-IsConsistent :
      (now : F) (c : Option (Command F)) (v : Vehicle F)
      → IsConsistent v
      → IsConsistent (on_command now c v)
  unfolding on_command
  on_command-IsConsistent now none v h = h
  on_command-IsConsistent now (some (Command.move x y)) v h = ground arith
  on_command-IsConsistent now (some Command.stop) v h = ground arith
  on_command-IsConsistent now (some Command.resume) v h = ground arith

  pub on_control_connected-IsConsistent :
      (now : F) (v : Vehicle F) → IsConsistent v → IsConsistent (on_control_connected now v)
  unfolding on_control_connected
  on_control_connected-IsConsistent now v h = ground arith

  pub on_gps_recovered-IsConsistent :
      (now : F) (v : Vehicle F) → IsConsistent v → IsConsistent (on_gps_recovered now v)
  unfolding on_gps_recovered
  on_gps_recovered-IsConsistent now v h = ground arith

module _ {F : Type 0} ⦃d : Double F⦄ where
  pub on_control_disconnected-IsConsistent :
      (v : Vehicle F) → IsConsistent v → IsConsistent (on_control_disconnected v)
  unfolding on_control_disconnected
  on_control_disconnected-IsConsistent v h = ground arith

  pub on_gps_lost-IsConsistent :
      (now : F) (v : Vehicle F) → IsConsistent v → IsConsistent (on_gps_lost now v)
  unfolding on_gps_lost
  on_gps_lost-IsConsistent now v h = ground arith

  pub notify_arrived-IsConsistent :
      (now : F) (v : Vehicle F) → IsConsistent v → IsConsistent (notify_arrived now v)
  unfolding notify_arrived
  notify_arrived-IsConsistent now v h = ground arith

  pub on_raw_message-IsConsistent :
      (loads : String → Option (Json F)) (x_max y_max now : F) (raw : String) (v : Vehicle F)
      → IsConsistent v
      → IsConsistent (on_raw_message loads x_max y_max now raw v)
  unfolding on_raw_message
  on_raw_message-IsConsistent loads x_max y_max now raw v h = on_command-IsConsistent now _ v h
