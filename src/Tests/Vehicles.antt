-- ===== src/Tests/Vehicles.antt =====
-- Runs: the supervisor, the watchdog, the policy and the worker.
use autonomous_rc_taxi.Prelude.{false, ◌≡◌, inl, inr, refl, none, some, arith}
use autonomous_rc_taxi.Floats.{lit, nought, min}
use autonomous_rc_taxi.Floats.Laws.{◌≼◌}
use autonomous_rc_taxi.Floats.Micro.{Micro, micro_double, Micro-IsOrdered}
use autonomous_rc_taxi.Result.{ok}
use autonomous_rc_taxi.Core.Enums.{
  waiting, error, idle, heading_to_caller, waiting_for_boarding, carrying_customer, error_stop,
  following_route,
}
use autonomous_rc_taxi.Core.Models.{ControlCommand, stop_command}
use autonomous_rc_taxi.Core.Store.{set_driving_state, recover_previous_state}
use autonomous_rc_taxi.Core.Store.Laws.{recover-set_error}
use autonomous_rc_taxi.Hardware.{SteeringDriver, set_angle_deg}
use autonomous_rc_taxi.Hardware.Laws.{set_angle_deg_bounds}
use autonomous_rc_taxi.Safety.Supervisor.{apply}
use autonomous_rc_taxi.Safety.Supervisor.Gate.{IsWithin, apply_gate, apply_blocked}
use autonomous_rc_taxi.Network.Messages.{move, stop, resume}
use autonomous_rc_taxi.Network.Policy.{
  state, any, on_command, on_control_disconnected, on_control_connected, on_gps_lost,
  on_gps_recovered, notify_arrived,
}
use autonomous_rc_taxi.Network.Policy.Invariant.{IsConsistent}
use autonomous_rc_taxi.Network.Policy.Rest.{IsAtRest}
use autonomous_rc_taxi.Network.Policy.Reach.{Handles, Reaches, Reaches-IsAtRest}
use autonomous_rc_taxi.Network.Policy.Service.{service, service_cycle, resume_after_loss, both_lost}
use autonomous_rc_taxi.Tests.Samples.{
  metres, limits, plant, idle_snapshot, driving_snapshot, vehicle,
}

-- more throttle and more steering than allowed
abbrev fast : ControlCommand Micro
fast = record { throttle = metres 2; steering_wheel_deg = metres 45 }

apply_gate_example :
    let (r, p') = apply limits (plant driving_snapshot) fast in
    (sent : ControlCommand Micro) × (r ≡ ok sent)
    × IsWithin Micro-IsOrdered limits sent
    × (p'.store ≡ record driving_snapshot { control_command = sent })
    × (p'.motor.throttle ≡ min sent.throttle (lit 1 0))
    × (p'.latched ≡ false)
apply_gate_example =
    apply_gate Micro-IsOrdered limits (plant driving_snapshot) fast
      (record { throttle = refl; wheel = refl }) refl refl refl

apply_blocked_example :
    let (r, p') = apply limits (plant idle_snapshot) fast in
    (r ≡ ok stop_command)
    × (p'.motor.throttle ≡ nought)
    × (p'.store ≡ record idle_snapshot { control_command = stop_command })
    × (p'.latched ≡ false)
apply_blocked_example =
    apply_blocked Micro-IsOrdered limits (plant idle_snapshot) fast (inr (inr refl))

set_angle_deg_bounds_example :
    (s : SteeringDriver Micro) × (set_angle_deg (plant idle_snapshot).steering (metres 45) ≡ ok s)
    × (metres 51 ≼ s.servo_deg)
    × (s.servo_deg ≼ metres 165)
set_angle_deg_bounds_example =
    set_angle_deg_bounds Micro-IsOrdered (plant idle_snapshot).steering (metres 45) refl refl refl

recover-set_error_example :
    (recover_previous_state (set_driving_state driving_snapshot error) ≡ driving_snapshot)
    × (recover_previous_state (set_driving_state (set_driving_state driving_snapshot error) error)
        ≡ driving_snapshot)
recover-set_error_example = recover-set_error driving_snapshot refl refl

pub driving-IsConsistent : IsConsistent (vehicle driving_snapshot)
driving-IsConsistent = ground arith

resume_after_loss_example :
    let v = vehicle driving_snapshot in
    let lost = on_control_disconnected v in
    let back = on_command (metres 9) (some resume) (on_control_connected (metres 9) lost) in
    (service lost ≡ error_stop)
    × (lost.plant.motor.throttle ≡ nought)
    × (state back ≡ following_route)
    × (back.plant.store.mission ≡ v.plant.store.mission)
    × (service back ≡ service v)
    × (any back.reasons ≡ false)
    × (back.reports.error_resend_ts ≡ none)
resume_after_loss_example =
    resume_after_loss (metres 9) (vehicle driving_snapshot) driving-IsConsistent refl

both_lost_example :
    let lost = on_gps_lost (metres 9) (on_control_disconnected (vehicle driving_snapshot)) in
    let position_first = on_gps_recovered (metres 9) lost in
    let server_first = on_command (metres 9) (some resume) lost in
    (state position_first ≡ error)
    × (state server_first ≡ error)
    × (state (on_command (metres 9) (some resume) position_first) ≡ following_route)
    × (state (on_gps_recovered (metres 9) server_first) ≡ following_route)
both_lost_example = both_lost (metres 9) (vehicle driving_snapshot) driving-IsConsistent refl

service_cycle_example :
    let v1 = on_command (metres 9) (some (move (metres 3) (metres 1))) (vehicle idle_snapshot) in
    let v2 = notify_arrived (metres 9) v1 in
    let v3 = on_command (metres 9) (some stop) v2 in
    let v4 = on_command (metres 9) (some (move (metres 4) (metres 2))) v3 in
    let v5 = notify_arrived (metres 9) v4 in
    let v6 = on_command (metres 9) (some stop) v5 in
    (service v1 ≡ heading_to_caller)
    × (service v2 ≡ heading_to_caller)
    × (service v3 ≡ waiting_for_boarding)
    × (service v4 ≡ carrying_customer)
    × (service v5 ≡ carrying_customer)
    × (service v6 ≡ idle)
    × (state v6 ≡ waiting)
    × (v6.plant.store.mission ≡ none)
service_cycle_example =
    service_cycle (metres 9) (metres 3) (metres 1) (metres 4) (metres 2) (vehicle idle_snapshot)
      refl refl

Reaches-IsAtRest_example :
    let v = on_gps_lost (metres 9) (on_control_disconnected (vehicle driving_snapshot)) in
    IsConsistent v × IsAtRest v
Reaches-IsAtRest_example =
    Reaches-IsAtRest (vehicle driving_snapshot)
      (on_gps_lost (metres 9) (on_control_disconnected (vehicle driving_snapshot)))
      (Reaches.then _ _ _ (Reaches.then _ _ _ (Reaches.here _) (Handles.disconnected _))
        (Handles.lost (metres 9) _))
      driving-IsConsistent (inl refl)
