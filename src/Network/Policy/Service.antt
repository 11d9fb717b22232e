-- ===== src/Network/Policy/Service.antt =====
-- The service as the control server sees it: a ride from the call to the drop-off, and what a lost
-- connection or position does to it.
use autonomous_rc_taxi.Prelude.{false, ◌≡◌, none, some, arith}
use autonomous_rc_taxi.Floats.{Double, nought}
use autonomous_rc_taxi.Core.Enums.{
  waiting, error, ServiceState, idle, heading_to_caller, waiting_for_boarding, carrying_customer,
  error_stop, to_service_state, is_error,
}
use autonomous_rc_taxi.Network.Messages.{move, stop, resume}
use autonomous_rc_taxi.Network.Policy.{
  Vehicle, state, any, on_command, on_control_disconnected, on_control_connected, on_gps_lost,
  on_gps_recovered, notify_arrived,
}
use autonomous_rc_taxi.Network.Policy.Invariant.{IsConsistent}

module _ {F : Type 0} where
  -- the `state` that telemetry reports
  abbrev pub service : Vehicle F → ServiceState
  service v = to_service_state (state v) v.plant.store.service_kind

module _ {F : Type 0} ⦃d : Double F⦄ where
  -- accept a move, arrive, be confirmed
  abbrev ride : F → F → F → Vehicle F → Vehicle F
  ride now x y v =
      on_command now (some stop) (notify_arrived now (on_command now (some (move x y)) v))

  -- A waiting vehicle that serves nobody goes through the five service states in order: on a move it
  -- heads for the caller and still does when it has arrived, the stop makes it wait for boarding,
  -- the next move carries the customer, and the stop after that arrival leaves it idle, waiting and
  -- with no mission.
  pub service_cycle :
      (now x y x' y' : F) (v : Vehicle F)
      → state v ≡ waiting
      → v.plant.store.service_kind ≡ none
      → let v1 = on_command now (some (move x y)) v in
        let v2 = notify_arrived now v1 in
        let v3 = on_command now (some stop) v2 in
        let v4 = on_command now (some (move x' y')) v3 in
        let v5 = notify_arrived now v4 in
        let v6 = on_command now (some stop) v5 in
        (service v1 ≡ heading_to_caller)
        × (service v2 ≡ heading_to_caller)
        × (service v3 ≡ waiting_for_boarding)
        × (service v4 ≡ carrying_customer)
        × (service v5 ≡ carrying_customer)
        × (service v6 ≡ idle)
        × (state v6 ≡ waiting)
        × (v6.plant.store.mission ≡ none)
  unfolding on_command notify_arrived to_service_state
  service_cycle now x y x' y' v w k = ground arith

  -- A consistent vehicle that is not in error and loses the control server stops at once and reports
  -- the error state; after the reconnection and a resume it is back in the state it came from, with
  -- the same mission and service, no open reason and no error report left to resend.
  pub resume_after_loss :
      (now : F) (v : Vehicle F)
      → IsConsistent v
      → is_error (state v) ≡ false
      → let lost = on_control_disconnected v in
        let back = on_command now (some resume) (on_control_connected now lost) in
        (service lost ≡ error_stop)
        × (lost.plant.motor.throttle ≡ nought)
        × (state back ≡ state v)
        × (back.plant.store.mission ≡ v.plant.store.mission)
        × (service back ≡ service v)
        × (any back.reasons ≡ false)
        × (back.reports.error_resend_ts ≡ none)
  unfolding on_command on_control_connected on_control_disconnected to_service_state
  resume_after_loss now v h live = ground arith

  -- While control server and position are both lost, whichever comes back first leaves the vehicle in
  -- error, and when both are back it is in the state it came from, in either order.
  pub both_lost :
      (now : F) (v : Vehicle F)
      → IsConsistent v
      → is_error (state v) ≡ false
      → let lost = on_gps_lost now (on_control_disconnected v) in
        let position_first = on_gps_recovered now lost in
        let server_first = on_command now (some resume) lost in
        (state position_first ≡ error)
        × (state server_first ≡ error)
        × (state (on_command now (some resume) position_first) ≡ state v)
        × (state (on_gps_recovered now server_first) ≡ state v)
  unfolding on_command on_gps_lost on_gps_recovered on_control_disconnected
  both_lost now v h live = ground arith
