-- ===== src/Runtime/Steps.antt =====
-- The steps of the program that rc_car/app/runtime.py starts: what its threads do, in any order.
use autonomous_rc_taxi.Prelude.{◌≡◌, String, Option}
use autonomous_rc_taxi.Floats.{Double}
use autonomous_rc_taxi.Result.{Error, ok, err}
use autonomous_rc_taxi.Localization.Service.{LocalizationService, on_raw, on_disconnected, tick}
use autonomous_rc_taxi.Perception.Seg.{SegObservation}
use autonomous_rc_taxi.Perception.Marks.{MarkAdapter}
use autonomous_rc_taxi.Runtime.{
  RuntimeSetup, Runtime, hooked, driving, commanded, control_up, control_down, worker_error,
  begin_round, control_round, located, reports_round, heartbeat_round, watchdog_round, stop_motor,
  set_stop_event,
}

module _ {F H : Type 0} ⦃d : Double F⦄ where
  -- A raise in a callback is logged, and one in a worker's round ends in `_on_worker_error`. Either
  -- may leave the service's own fields in any state, but comes before its first write to the vehicle.
  -- A worker that has raised may go on here, and one that is not modelled may raise at any time.
  pub data Happens (k : RuntimeSetup F H) : Runtime F → Runtime F → Type 0 where
    text :
        (sent now : F) (raw : String) (r : Runtime F) (s : LocalizationService F)
        → on_raw (hooked k sent) raw now r.service ≡ ok s
        → Happens k r (record r { service = s })
    text_raised :
        (sent now : F) (raw : String) (r : Runtime F) (s : LocalizationService F) (e : Error)
        → on_raw (hooked k sent) raw now r.service ≡ err e
        → s.vehicle ≡ r.service.vehicle
        → Happens k r (record r { service = s })
    server_gone :
        (sent : F) (r : Runtime F)
        → Happens k r (record r { service = on_disconnected (hooked k sent) r.service })
    command : (sent : F) (raw : String) (r : Runtime F) → Happens k r (commanded k sent raw r)
    up : (sent : F) (r : Runtime F) → Happens k r (control_up sent r)
    down : (r : Runtime F) → Happens k r (control_down r)
    localized :
        (sent now started : F) (r : Runtime F) (s : LocalizationService F)
        → tick (hooked k sent) now r.service ≡ ok s
        → Happens k r (located started s r)
    localization_raised :
        (sent now : F) (r : Runtime F) (s : LocalizationService F) (e : Error)
        → tick (hooked k sent) now r.service ≡ err e
        → s.vehicle ≡ r.service.vehicle
        → Happens k r (worker_error (record r { service = s }))
    begun : (r : Runtime F) → Happens k r (begin_round r)
    control :
        (started now sent : F) (seg : Option (SegObservation F)) (marks : Option (MarkAdapter F))
        (corr : Option F) (r : Runtime F)
        → Happens k r (control_round (driving k now seg marks) started now sent corr r)
    reports : (started : F) (r : Runtime F) → Happens k r (reports_round started r)
    heartbeat : (started : F) (r : Runtime F) → Happens k r (heartbeat_round started r)
    watchdog : (now : F) (r : Runtime F) → Happens k r (watchdog_round now r)
    other_raised : (r : Runtime F) → Happens k r (worker_error r)
    motor_stopped : (r : Runtime F) → Happens k r (stop_motor r)
    stop_set : (r : Runtime F) → Happens k r (set_stop_event r)

  pub data Runs (k : RuntimeSetup F H) : Runtime F → Runtime F → Type 0 where
    at_once : (r : Runtime F) → Runs k r r
    later : (r s t : Runtime F) → Runs k r s → Happens k s t → Runs k r t
