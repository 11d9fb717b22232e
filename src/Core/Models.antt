-- ===== src/Core/Models.antt =====
-- rc_car/core/models.py, over the type of floats
use autonomous_rc_taxi.Prelude.{Bool, true, Option, none}
use autonomous_rc_taxi.Floats.{Double, nought}
use autonomous_rc_taxi.Core.Enums.{DrivingState, boot, ServiceKind}

pub record LocalizationPose (F : Type 0) : Type 0 where
  pub x : F
  pub y : F
  pub heading_deg : F
  pub source_timestamp_s : F
  pub received_monotonic_s : F

pub record ControlCommand (F : Type 0) : Type 0 where
  pub throttle : F
  pub steering_wheel_deg : F

pub record ActiveMission (F : Type 0) : Type 0 where
  pub dest_x : F
  pub dest_y : F
  pub kind : ServiceKind
  pub accepted_at_s : F

pub record VehicleSnapshot (F : Type 0) : Type 0 where
  pub driving_state : DrivingState
  pub prev_state_for_recovery : Option DrivingState
  pub service_kind : Option ServiceKind
  pub pose : Option (LocalizationPose F)
  pub pose_stale : Bool
  pub mission : Option (ActiveMission F)
  pub control_command : ControlCommand F
  pub estimated_speed_mps : F

module _ {F : Type 0} ⦃d : Double F⦄ where
  abbrev pub stop_command : ControlCommand F
  stop_command = record { throttle = nought; steering_wheel_deg = nought }

  -- the defaults of the dataclass
  abbrev pub new_snapshot : VehicleSnapshot F
  new_snapshot = record {
    driving_state = boot;
    prev_state_for_recovery = none;
    service_kind = none;
    pose = none;
    pose_stale = true;
    mission = none;
    control_command = stop_command;
    estimated_speed_mps = nought;
  }
