-- ===== src/Network/Reports.antt =====
-- rc_car/network/report_manager.py. `sent` holds the calls of `client.send_json`, newest first; what
-- the client makes of them (it drops them while it is not connected) does not come back here. The
-- time of a call is an argument.
use autonomous_rc_taxi.Prelude.{Bool, Option, none, some, List, ◌∷◌, if◌then◌else◌}
use autonomous_rc_taxi.Core.Enums.{DrivingState, is_arrived, is_error}

pub data ReportKind : Type 0 where
  accept complete error recovered : ReportKind

pub record Report (F : Type 0) : Type 0 where
  pub kind : ReportKind
  pub timestamp : F

pub record ReportManager (F : Type 0) : Type 0 where
  pub complete_ts : Option F
  pub error_resend_ts : Option F
  pub sent : List (Report F)

module _ {F : Type 0} where
  unfoldable pub send : ReportManager F → ReportKind → F → ReportManager F
  send m kind ts = record m { sent = record { kind = kind; timestamp = ts } ∷ m.sent }

  unfoldable pub send_accept : F → ReportManager F → ReportManager F
  unfolding send
  send_accept now m = send m accept now

  unfoldable pub send_recovered : F → ReportManager F → ReportManager F
  unfolding send
  send_recovered now m = send m recovered now

  unfoldable pub send_error_once : F → ReportManager F → ReportManager F
  unfolding send
  send_error_once now m = send m error now

  -- the first time is kept
  abbrev first_time : Option F → F → F
  first_time none now = now
  first_time (some ts) now = ts

  unfoldable pub mark_complete : F → ReportManager F → ReportManager F
  unfolding send
  mark_complete now m =
      let ts = first_time m.complete_ts now in send (record m { complete_ts = some ts }) complete ts

  unfoldable pub clear_complete : ReportManager F → ReportManager F
  clear_complete m = record m { complete_ts = none }

  unfoldable pub start_error_resend : F → ReportManager F → ReportManager F
  unfolding send
  start_error_resend now m =
      let ts = first_time m.error_resend_ts now in
      send (record m { error_resend_ts = some ts }) error ts

  unfoldable pub stop_error_resend : ReportManager F → ReportManager F
  stop_error_resend m = record m { error_resend_ts = none }

  abbrev send_if : Bool → ReportKind → Option F → ReportManager F → ReportManager F
  send_if test kind none m = m
  send_if test kind (some ts) m = if test then send m kind ts else m

  -- one round of the resending worker, in a vehicle that is in `state`
  unfoldable pub tick : DrivingState → ReportManager F → ReportManager F
  unfolding send
  tick state m =
      send_if (is_error state) error m.error_resend_ts
        (send_if (is_arrived state) complete m.complete_ts m)
