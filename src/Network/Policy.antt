-- ===== src/Network/Policy.antt =====
-- rc_car/network/command_policy.py: every transition of the driving state that a command, a lost
-- connection, a lost position or an arrival makes. Each handler runs under the policy's lock and is
-- one step on the vehicle; the time of its reports is an argument.
pub mod Invariant
pub mod Service
pub mod Rest
pub mod Reach
use autonomous_rc_taxi.Prelude.{
  Bool, true, false, not, ◌||◌, String, Option, none, some, if◌then◌else◌,
}
use autonomous_rc_taxi.Floats.{Double}
use autonomous_rc_taxi.Core.Enums.{
  DrivingState, waiting, planning, arrived, error, ServiceKind, pickup, carry, is_pickup,
  is_waiting, is_arrived, is_error, is_driving,
}
use autonomous_rc_taxi.Core.Models.{VehicleSnapshot}
use autonomous_rc_taxi.Core.Store.{
  set_driving_state, recover_previous_state, set_mission, clear_mission,
}
use autonomous_rc_taxi.Safety.Supervisor.{Plant, force_stop}
use autonomous_rc_taxi.Network.Messages.{Json, Command, move, stop, resume, parse_command}
use autonomous_rc_taxi.Network.Reports.{
  ReportManager, send_accept, send_recovered, send_error_once, mark_complete, clear_complete,
  start_error_resend, stop_error_resend,
}

-- the set of open error reasons
pub record Reasons : Type 0 where
  pub control_lost : Bool
  pub gps_lost : Bool

pub data Reason : Type 0 where
  control_lost gps_lost : Reason

abbrev pub has : Reasons → Reason → Bool
has r control_lost = r.control_lost
has r gps_lost = r.gps_lost

abbrev put : Reasons → Reason → Bool → Reasons
put r control_lost b = record r { control_lost = b }
put r gps_lost b = record r { gps_lost = b }

abbrev pub any : Reasons → Bool
any r = r.control_lost || r.gps_lost

pub record Vehicle (F : Type 0) : Type 0 where
  pub plant : Plant F
  pub reports : ReportManager F
  pub reasons : Reasons

-- a pickup that was confirmed is followed by a carry
abbrev next_kind : Option ServiceKind → ServiceKind
next_kind kind = if is_pickup kind then carry else pickup

module _ {F : Type 0} where
  abbrev pub state : Vehicle F → DrivingState
  state v = v.plant.store.driving_state

  abbrev pub with_store : Vehicle F → VehicleSnapshot F → Vehicle F
  with_store v s = record v { plant = record v.plant { store = s } }

  abbrev with_reports : Vehicle F → ReportManager F → Vehicle F
  with_reports v m = record v { reports = m }

  on_move : F → F → F → Vehicle F → Vehicle F
  unfolding set_driving_state set_mission send_accept
  on_move now x y v =
      if not (is_waiting (state v))
      then v
      else (let s = v.plant.store in
          let s' = set_driving_state (set_mission s x y (next_kind s.service_kind) now) planning in
          with_reports (with_store v s') (send_accept now v.reports))

  on_stop : Vehicle F → Vehicle F
  unfolding set_driving_state clear_mission clear_complete
  on_stop v =
      if not (is_arrived (state v))
      then v
      else (let s = v.plant.store in
          let next = if is_pickup s.service_kind then some pickup else none in
          let s' = set_driving_state (clear_mission s next) waiting in
          with_store (with_reports v (clear_complete v.reports)) s')

  recover_if_clear : Vehicle F → Vehicle F
  unfolding recover_previous_state
  recover_if_clear v =
      if any v.reasons
      then v
      else if is_error (state v)
      then with_store v (recover_previous_state v.plant.store)
      else v

  abbrev stop_resend : Reason → ReportManager F → ReportManager F
  stop_resend control_lost m = stop_error_resend m
  stop_resend gps_lost m = m

  clear_reason : Reason → Vehicle F → Vehicle F
  unfolding recover_if_clear stop_error_resend
  clear_reason r v =
      recover_if_clear
        (record v { reasons = put v.reasons r false; reports = stop_resend r v.reports })

  on_resume : Vehicle F → Vehicle F
  unfolding clear_reason
  on_resume v =
      if not (is_error (state v)) || not v.reasons.control_lost
      then v
      else clear_reason control_lost v

  unfoldable pub on_command : F → Option (Command F) → Vehicle F → Vehicle F
  unfolding on_move on_stop on_resume
  on_command now none v = v
  on_command now (some (move x y)) v = on_move now x y v
  on_command now (some stop) v = on_stop v
  on_command now (some resume) v = on_resume v

  unfoldable pub on_control_connected : F → Vehicle F → Vehicle F
  unfolding start_error_resend
  on_control_connected now v =
      if v.reasons.control_lost then with_reports v (start_error_resend now v.reports) else v

  unfoldable pub on_gps_recovered : F → Vehicle F → Vehicle F
  unfolding clear_reason send_recovered
  on_gps_recovered now v =
      if not v.reasons.gps_lost
      then v
      else clear_reason gps_lost (with_reports v (send_recovered now v.reports))

module _ {F : Type 0} ⦃d : Double F⦄ where
  -- the result says whether the reason is new
  unfoldable pub enter_error : Reason → Vehicle F → Vehicle F × Bool
  unfolding set_driving_state force_stop
  enter_error r v =
      let newly = not (has v.reasons r) in
      let w : Vehicle F = record v { reasons = put v.reasons r true } in
      if is_error (state w) then (w, newly) else (
        record w {
          plant = force_stop (record w.plant { store = set_driving_state w.plant.store error });
        },
        newly,
      )

  unfoldable pub on_control_disconnected : Vehicle F → Vehicle F
  unfolding enter_error
  on_control_disconnected v = (enter_error control_lost v).0

  unfoldable pub on_gps_lost : F → Vehicle F → Vehicle F
  unfolding enter_error send_error_once
  on_gps_lost now v =
      let (w, newly) = enter_error gps_lost v in
      if newly then with_reports w (send_error_once now w.reports) else w

  unfoldable pub notify_arrived : F → Vehicle F → Vehicle F
  unfolding set_driving_state force_stop mark_complete
  notify_arrived now v =
      if not (is_driving (state v))
      then v
      else (let s' = set_driving_state v.plant.store arrived in
          record v {
            plant = force_stop (record v.plant { store = s' });
            reports = mark_complete now v.reports;
          })

  unfoldable pub on_raw_message :
      (String → Option (Json F)) → F → F → F → String → Vehicle F → Vehicle F
  unfolding on_command parse_command
  on_raw_message loads x_max y_max now raw v =
      on_command now (parse_command loads x_max y_max raw) v
