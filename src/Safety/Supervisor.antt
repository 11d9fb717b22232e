-- ===== src/Safety/Supervisor.antt =====
-- rc_car/safety/safety_supervisor.py. `Plant` is what the supervisor drives: the store, the latch
-- and the two drivers.
pub mod Gate
pub mod Frame
use autonomous_rc_taxi.Prelude.{Bool, true, false, not, ◌||◌, if◌then◌else◌}
use autonomous_rc_taxi.Floats.{Double, nought, min, max}
use autonomous_rc_taxi.Result.{Result, ok, err}
use autonomous_rc_taxi.Core.Enums.{is_driving}
use autonomous_rc_taxi.Core.Models.{ControlCommand, VehicleSnapshot, stop_command}
use autonomous_rc_taxi.Core.Store.{set_control_command}
use autonomous_rc_taxi.Hardware.{
  MotorDriver, SteeringDriver, set_throttle, stop, set_angle_deg, center_steering,
}

pub record Plant (F : Type 0) : Type 0 where
  pub store : VehicleSnapshot F
  pub latched : Bool
  pub motor : MotorDriver F
  pub steering : SteeringDriver F

pub record Limits (F : Type 0) : Type 0 where
  pub max_wheel : F
  pub max_throttle : F

module _ {F : Type 0} where
  -- any one of the three conditions blocks the output
  abbrev pub blocked : Plant F → Bool
  blocked p = p.latched || p.store.pose_stale || not (is_driving p.store.driving_state)

  unfoldable pub release : Plant F → Plant F
  release p = record p { latched = false }

module _ {F : Type 0} ⦃d : Double F⦄ where
  unfoldable pub force_stop : Plant F → Plant F
  unfolding stop center_steering set_control_command
  force_stop p = record p {
    motor = stop p.motor;
    steering = center_steering p.steering;
    store = set_control_command p.store stop_command;
  }

  unfoldable pub latch_stop : Plant F → Plant F
  unfolding force_stop
  latch_stop p = force_stop (record p { latched = true })

  abbrev pub applied : Limits F → Plant F → ControlCommand F → ControlCommand F
  applied k p command = if blocked p then stop_command else (record {
    throttle = min (max command.throttle nought) k.max_throttle;
    steering_wheel_deg = min (max command.steering_wheel_deg (d.neg k.max_wheel)) k.max_wheel;
  })

  -- the three outputs, in the order of the source; a raise of a driver skips the rest
  abbrev pub steered :
      ControlCommand F → Plant F → Result (SteeringDriver F) → Result (ControlCommand F) × Plant F
  steered c p (err e) = (err e, p)
  steered c p (ok s) = (ok c, record p { steering = s; store = set_control_command p.store c })

  pub output :
      ControlCommand F → Plant F → Result (MotorDriver F) → Result (ControlCommand F) × Plant F
  unfolding set_angle_deg
  output c p (err e) = (err e, p)
  output c p (ok m) =
      steered c (record p { motor = m }) (set_angle_deg p.steering c.steering_wheel_deg)

  -- The source takes no lock here. This is one step: a latch or a change of the state that comes
  -- between the test and the outputs is not modelled.
  unfoldable pub apply : Limits F → Plant F → ControlCommand F → Result (ControlCommand F) × Plant F
  unfolding output set_throttle
  apply k p command = let c = applied k p command in output c p (set_throttle p.motor c.throttle)
