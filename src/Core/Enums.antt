-- ===== src/Core/Enums.antt =====
-- rc_car/core/enums.py
use autonomous_rc_taxi.Prelude.{Bool, true, false, Option, none, some, String, if◌then◌else◌, ◌||◌}

pub data DrivingState : Type 0 where
  boot waiting planning following_route approaching_destination arrived error : DrivingState
  approaching_stop_line stopped_at_line crossing_intersection obstacle_wait : DrivingState

-- `state in DRIVING_STATES`
abbrev pub is_driving : DrivingState → Bool
is_driving planning = true
is_driving following_route = true
is_driving approaching_destination = true
is_driving _ = false

abbrev pub is_error : DrivingState → Bool
is_error error = true
is_error _ = false

abbrev pub is_arrived : DrivingState → Bool
is_arrived arrived = true
is_arrived _ = false

abbrev pub is_waiting : DrivingState → Bool
is_waiting waiting = true
is_waiting _ = false

pub data ServiceKind : Type 0 where
  pickup carry : ServiceKind

abbrev pub is_pickup : Option ServiceKind → Bool
is_pickup (some pickup) = true
is_pickup _ = false

-- The five Korean texts of `info.state`.
pub data ServiceState : Type 0 where
  idle heading_to_caller waiting_for_boarding carrying_customer error_stop : ServiceState

abbrev pub text : ServiceState → String
text idle = "대기 중"
text heading_to_caller = "호출 응답 이동 중"
text waiting_for_boarding = "탑승 대기 중"
text carrying_customer = "고객 탑승 이동 중"
text error_stop = "오류 정지"

-- `kind.value`, and "대기 중" for `None`
abbrev kind_state : Option ServiceKind → ServiceState
kind_state none = idle
kind_state (some pickup) = heading_to_caller
kind_state (some carry) = carrying_customer

unfoldable pub to_service_state : DrivingState → Option ServiceKind → ServiceState
to_service_state driving kind =
    if is_error driving
    then error_stop
    else if is_driving driving || is_arrived driving
    then kind_state kind
    else if is_pickup kind
    then waiting_for_boarding
    else idle
