-- ===== src/Core/Store.antt =====
-- rc_car/core/state_store.py. The store is its snapshot: each method returns the next one, and the
-- lock makes each method one step.
pub mod Laws
use autonomous_rc_taxi.Prelude.{Bool, true, false, not, ◌&&◌, Option, none, some, if◌then◌else◌}
use autonomous_rc_taxi.Floats.{Double, le, max, nought}
use autonomous_rc_taxi.Core.Enums.{DrivingState, waiting, ServiceKind, is_error}
use autonomous_rc_taxi.Core.Models.{
  LocalizationPose, ControlCommand, ActiveMission, VehicleSnapshot,
}

-- `keep` in the source
abbrev kept : DrivingState → DrivingState → Option DrivingState → Option DrivingState
kept state prev keep =
    if is_error state && not (is_error prev)
    then some prev
    else if not (is_error state)
    then none
    else keep

-- `prev_state_for_recovery or WAITING`
abbrev pub recovery_target : Option DrivingState → DrivingState
recovery_target none = waiting
recovery_target (some target) = target

module _ {F : Type 0} where
  unfoldable pub mark_pose_stale : VehicleSnapshot F → VehicleSnapshot F
  mark_pose_stale s = record s { pose_stale = true }

  unfoldable pub set_driving_state : VehicleSnapshot F → DrivingState → VehicleSnapshot F
  set_driving_state s state = record s {
    driving_state = state;
    prev_state_for_recovery = kept state s.driving_state s.prev_state_for_recovery;
  }

  unfoldable pub recover_previous_state : VehicleSnapshot F → VehicleSnapshot F
  recover_previous_state s = record s {
    driving_state = recovery_target s.prev_state_for_recovery;
    prev_state_for_recovery = none;
  }

  -- `now` is `time.time()`
  unfoldable pub set_mission : VehicleSnapshot F → F → F → ServiceKind → F → VehicleSnapshot F
  set_mission s dest_x dest_y kind now = record s {
    mission = some (record { dest_x = dest_x; dest_y = dest_y; kind = kind; accepted_at_s = now });
    service_kind = some kind;
  }

  unfoldable pub clear_mission : VehicleSnapshot F → Option ServiceKind → VehicleSnapshot F
  clear_mission s next_kind = record s { mission = none; service_kind = next_kind }

  unfoldable pub set_control_command : VehicleSnapshot F → ControlCommand F → VehicleSnapshot F
  set_control_command s command = record s { control_command = command }

module _ {F : Type 0} ⦃d : Double F⦄ where
  -- not newer than the pose held
  abbrev pub is_old : VehicleSnapshot F → LocalizationPose F → Bool
  is_old s pose = elim s.pose [
    | none ↦ false
    | some prev ↦ le pose.source_timestamp_s prev.source_timestamp_s
  ]

  unfoldable pub update_pose : VehicleSnapshot F → LocalizationPose F → VehicleSnapshot F × Bool
  update_pose s pose =
      if is_old s pose
      then (s, false)
      else (record s { pose = some pose; pose_stale = false }, true)

  unfoldable pub set_estimated_speed : VehicleSnapshot F → F → VehicleSnapshot F
  set_estimated_speed s mps = record s { estimated_speed_mps = max nought mps }
