-- ===== src/Safety/Supervisor/Frame.antt =====
-- What an output leaves alone.
use autonomous_rc_taxi.Prelude.{◌≡◌, refl}
use autonomous_rc_taxi.Floats.{Double}
use autonomous_rc_taxi.Result.{Result, ok, err}
use autonomous_rc_taxi.Core.Models.{ControlCommand}
use autonomous_rc_taxi.Hardware.{MotorDriver, SteeringDriver, set_throttle, set_angle_deg}
use autonomous_rc_taxi.Safety.Supervisor.{Plant, Limits, applied, apply, output, steered}
use autonomous_rc_taxi.Core.Store.{set_control_command}

module _ {F : Type 0} ⦃d : Double F⦄ where
  steered-store :
      (c : ControlCommand F) (p : Plant F) (r : Result (SteeringDriver F))
      → (x : ControlCommand F) × ((steered c p r).1.store ≡ record p.store { control_command = x })
  unfolding set_control_command
  steered-store c p (err e) = (p.store.control_command, refl)
  steered-store c p (ok s) = (c, refl)

  output-store :
      (c : ControlCommand F) (p : Plant F) (r : Result (MotorDriver F))
      → (x : ControlCommand F) × ((output c p r).1.store ≡ record p.store { control_command = x })
  unfolding output set_control_command
  output-store c p (err e) = (p.store.control_command, refl)
  output-store c p (ok m) =
      steered-store c (record p { motor = m }) (set_angle_deg p.steering c.steering_wheel_deg)

  -- frame
  pub apply-store :
      (k : Limits F) (p : Plant F) (c : ControlCommand F)
      → (x : ControlCommand F) × ((apply k p c).1.store ≡ record p.store { control_command = x })
  unfolding apply
  apply-store k p c = output-store (applied k p c) p (set_throttle p.motor (applied k p c).throttle)
