-- ===== src/Network/Policy/Reach.antt =====
-- Every sequence of the policy's handlers, from the start of the program.
use autonomous_rc_taxi.Prelude.{String, Option}
use autonomous_rc_taxi.Floats.{Double}
use autonomous_rc_taxi.Network.Messages.{Json}
use autonomous_rc_taxi.Network.Policy.{
  Vehicle, on_raw_message, on_control_disconnected, on_control_connected, on_gps_lost,
  on_gps_recovered, notify_arrived,
}
use autonomous_rc_taxi.Network.Policy.Invariant.{
  IsConsistent, on_raw_message-IsConsistent, on_control_disconnected-IsConsistent,
  on_control_connected-IsConsistent, on_gps_lost-IsConsistent, on_gps_recovered-IsConsistent,
  notify_arrived-IsConsistent,
}
use autonomous_rc_taxi.Network.Policy.Rest.{
  IsAtRest, on_raw_message-IsAtRest, on_control_disconnected-IsAtRest,
  on_control_connected-IsAtRest, on_gps_lost-IsAtRest, on_gps_recovered-IsAtRest,
  notify_arrived-IsAtRest,
}

module _ {F : Type 0} ⦃d : Double F⦄ where
  -- one handler, with any message and at any time
  pub data Handles : Vehicle F → Vehicle F → Type 0 where
    message :
        (loads : String → Option (Json F)) (x_max y_max now : F) (raw : String) (v : Vehicle F)
        → Handles v (on_raw_message loads x_max y_max now raw v)
    disconnected : (v : Vehicle F) → Handles v (on_control_disconnected v)
    connected : (now : F) (v : Vehicle F) → Handles v (on_control_connected now v)
    lost : (now : F) (v : Vehicle F) → Handles v (on_gps_lost now v)
    recovered : (now : F) (v : Vehicle F) → Handles v (on_gps_recovered now v)
    at_destination : (now : F) (v : Vehicle F) → Handles v (notify_arrived now v)

  pub data Reaches : Vehicle F → Vehicle F → Type 0 where
    here : (v : Vehicle F) → Reaches v v
    then : (u v w : Vehicle F) → Reaches u v → Handles v w → Reaches u w

  Handles-IsConsistent : (v w : Vehicle F) → Handles v w → IsConsistent v → IsConsistent w
  Handles-IsConsistent v w (message l x y t raw _) h = on_raw_message-IsConsistent l x y t raw v h
  Handles-IsConsistent v w (disconnected _) h = on_control_disconnected-IsConsistent v h
  Handles-IsConsistent v w (connected t _) h = on_control_connected-IsConsistent t v h
  Handles-IsConsistent v w (lost t _) h = on_gps_lost-IsConsistent t v h
  Handles-IsConsistent v w (recovered t _) h = on_gps_recovered-IsConsistent t v h
  Handles-IsConsistent v w (at_destination t _) h = notify_arrived-IsConsistent t v h

  Handles-IsAtRest : (v w : Vehicle F) → Handles v w → IsConsistent v → IsAtRest v → IsAtRest w
  Handles-IsAtRest v w (message l x y t raw _) h r = on_raw_message-IsAtRest l x y t raw v h r
  Handles-IsAtRest v w (disconnected _) h r = on_control_disconnected-IsAtRest v r
  Handles-IsAtRest v w (connected t _) h r = on_control_connected-IsAtRest t v r
  Handles-IsAtRest v w (lost t _) h r = on_gps_lost-IsAtRest t v r
  Handles-IsAtRest v w (recovered t _) h r = on_gps_recovered-IsAtRest t v h r
  Handles-IsAtRest v w (at_destination t _) h r = notify_arrived-IsAtRest t v r

  -- Whatever messages, losses, recoveries and arrivals come, in whatever order: a vehicle that is
  -- consistent and whose motor rests unless it drives stays so.
  pub Reaches-IsAtRest :
      (u v : Vehicle F) → Reaches u v → IsConsistent u → IsAtRest u → IsConsistent v × IsAtRest v
  Reaches-IsAtRest u v (here _) h r = (h, r)
  Reaches-IsAtRest u w (then _ v _ before step) h r =
      let (h', r') = Reaches-IsAtRest u v before h r in
      (Handles-IsConsistent v w step h', Handles-IsAtRest v w step h' r')
