-- ===== src/Runtime/Kept.antt =====
-- What every step of the program keeps, from what each part keeps.
use autonomous_rc_taxi.Prelude.{
  not, ◌&&◌, if-both, arith, Bool, true, false, ◌≡◌, refl, sym, subst, String, Option, List, [],
  ◌∷◌, if◌then◌else◌, Bool-cases, inl, inr,
}
use autonomous_rc_taxi.Floats.{Double}
use autonomous_rc_taxi.Result.{Result, ok, err, Lands-eq}
use autonomous_rc_taxi.Safety.Supervisor.{latch_stop, force_stop}
use autonomous_rc_taxi.Safety.Watchdog.{Watched, is_stalled, tick as watch}
use autonomous_rc_taxi.Network.Reports.{tick as resend}
use autonomous_rc_taxi.Network.Policy.{
  Vehicle, state, on_raw_message, on_control_connected, on_control_disconnected,
}
use autonomous_rc_taxi.Localization.Service.{on_raw, on_disconnected, tick}
use autonomous_rc_taxi.Localization.Service.Kept.{on_raw-Holds, tick-Holds, declare_lost-Holds}
use autonomous_rc_taxi.Localization.Service.Written.{IsKeptByWrites, service-IsKept}
use autonomous_rc_taxi.Perception.Seg.{SegObservation}
use autonomous_rc_taxi.Perception.Marks.{MarkAdapter}
use autonomous_rc_taxi.Control.Follower.{LaneFollower}
use autonomous_rc_taxi.Behavior.Driving.{Drive}
use autonomous_rc_taxi.Behavior.Driving.Tick.{tick as drive}
use autonomous_rc_taxi.Runtime.{
  RuntimeSetup, Runtime, hooked, driving, begin_round, commanded, control_up, control_down,
  worker_error, driven, control_round, located, reports_round, heartbeat_round, watchdog_round,
  stop_motor, set_stop_event, drive_of, with_drive, watched_workers,
}
use autonomous_rc_taxi.Runtime.Steps.{
  Happens, text, text_raised, server_gone, command, up, down, localized, localization_raised,
  control, reports, heartbeat, watchdog, other_raised, motor_stopped, stop_set, begun, Runs,
  at_once, later,
}

module _ {F : Type 0} where
  -- the stop event is set, and the driving worker is in no round
  abbrev pub is_quiet : Runtime F → Bool
  is_quiet r = r.stopping && not r.in_round

module _ {F H : Type 0} ⦃d : Double F⦄ where
  -- a property of the vehicle, which may differ once the event is set and no tick is under way
  pub record IsRuntimeKept (k : RuntimeSetup F H) (P : Bool → Vehicle F → Type 0) : Type 0 where
    pub service : (b : Bool) (sent : F) → IsKeptByWrites (P b) (hooked k sent)
    pub message :
        (b : Bool) (sent : F) (raw : String) (v : Vehicle F)
        → P b v
        → P b (on_raw_message k.read k.x_max k.y_max sent raw v)
    pub connected :
        (b : Bool) (sent : F) (v : Vehicle F) → P b v → P b (on_control_connected sent v)
    pub disconnected : (b : Bool) (v : Vehicle F) → P b v → P b (on_control_disconnected v)
    pub resent :
        (b : Bool) (v : Vehicle F) → P b v → P b (record v { reports = resend (state v) v.reports })
    pub latched : (b : Bool) (v : Vehicle F) → P b v → P b (record v { plant = latch_stop v.plant })
    pub driven :
        (now sent : F) (seg : Option (SegObservation F)) (marks : Option (MarkAdapter F))
        (corr : Option F) (w : Drive F (LaneFollower F))
        → P false w.vehicle
        → P false (drive (driving k now seg marks) now sent corr w).1.vehicle
    pub stopped : (b : Bool) (v : Vehicle F) → P b v → P b (record v { plant = force_stop v.plant })
    pub ended : (b : Bool) (v : Vehicle F) → P b v → P true v

module _ {F H : Type 0} ⦃d : Double F⦄ (k : RuntimeSetup F H) (P : Bool → Vehicle F → Type 0)
    (kept : IsRuntimeKept k P) where
  abbrev Holds : Runtime F → Type 0
  Holds r = P (is_quiet r) r.service.vehicle

  -- a watchdog's round latches once, twice or not at all
  watch-Holds :
      (b : Bool) (now : F) (ws : List (Watched F)) (v : Vehicle F)
      → P b v
      → P b (record v { plant = watch now ws v.plant })
  unfolding watch
  watch-Holds b now [] v h = h
  watch-Holds b now (w ∷ ws) v h = elim (Bool-cases (is_stalled now w)) [
    | inl stalled ↦
        rw stalled
          (watch-Holds b now ws (record v { plant = latch_stop v.plant }) (kept.latched b v h))
    | inr fine ↦ rw fine (watch-Holds b now ws v h)
  ]

  -- the flag may only be raised
  raised : (b c : Bool) (v : Vehicle F) → (b ≡ true → c ≡ true) → P b v → P c v
  raised true true v e h = h
  raised true false v e h = absurd (ground (arith, e refl))
  raised false true v e h = kept.ended false v h
  raised false false v e h = h

  worker_error-Holds : (r : Runtime F) → Holds r → Holds (worker_error r)
  unfolding worker_error
  worker_error-Holds r h = kept.latched (is_quiet r) r.service.vehicle h

  by_test :
      (b : Bool) (r t : Runtime F)
      → (b ≡ true → Holds r)
      → (b ≡ false → Holds t)
      → Holds (if b then r else t)
  by_test true r t on off = on refl
  by_test false r t on off = off refl

  begin_round-Holds : (r : Runtime F) → Holds r → Holds (begin_round r)
  unfolding begin_round
  begin_round-Holds r h =
      by_test r.stopping r (record r { in_round = true }) (λ over. h)
        (λ on.
          raised (is_quiet r) (is_quiet (record r { in_round = true })) r.service.vehicle
            (λ e. ground (arith, e, on)) h)

  driven-Holds :
      (started : F) (out : Result (Unit {0}) × Drive F (LaneFollower F)) (r : Runtime F)
      → P false out.1.vehicle
      → Holds (driven started out r)
  driven-Holds started (err e, w) r h =
      worker_error-Holds (record (with_drive r w) { in_round = false })
        (raised false _ w.vehicle (λ e. ground (arith, e)) h)
  driven-Holds started (ok u, w) r h = raised false _ w.vehicle (λ e. ground (arith, e)) h

  control_round-Holds :
      (started now sent : F) (seg : Option (SegObservation F)) (marks : Option (MarkAdapter F))
      (corr : Option F) (r : Runtime F)
      → Holds r
      → Holds (control_round (driving k now seg marks) started now sent corr r)
  unfolding control_round
  control_round-Holds started now sent seg marks corr r h =
      by_test r.in_round
        (driven started (drive (driving k now seg marks) now sent corr (drive_of r)) r) r
        (λ busy.
          driven-Holds started (drive (driving k now seg marks) now sent corr (drive_of r)) r (
            kept.driven now sent seg marks corr (drive_of r)
              (raised (is_quiet r) false r.service.vehicle (λ e. ground (arith, e, busy)) h)))
        (λ idle. h)

  reports_round-Holds : (started : F) (r : Runtime F) → Holds r → Holds (reports_round started r)
  unfolding reports_round
  reports_round-Holds started r h =
      if-both Holds r.stopping {x = r} h (kept.resent (is_quiet r) r.service.vehicle h)

  heartbeat_round-Holds :
      (started : F) (r : Runtime F) → Holds r → Holds (heartbeat_round started r)
  unfolding heartbeat_round
  heartbeat_round-Holds started r h = if-both Holds r.stopping {x = r} h h

  watchdog_round-Holds : (now : F) (r : Runtime F) → Holds r → Holds (watchdog_round now r)
  unfolding watchdog_round
  watchdog_round-Holds now r h =
      if-both Holds r.stopping {x = r} h
        (watch-Holds (is_quiet r) now (watched_workers r.workers) r.service.vehicle h)

  Happens-Holds : (r t : Runtime F) → Happens k r t → Holds r → Holds t
  unfolding commanded control_up control_down located stop_motor set_stop_event on_disconnected
  Happens-Holds r t (text sent now raw _ s e) h =
      Lands-eq (λ x. P (is_quiet r) x.vehicle) (on_raw (hooked k sent) raw now r.service)
        (on_raw-Holds (λ x. P (is_quiet r) x.vehicle) (hooked k sent)
          (service-IsKept (P (is_quiet r)) (hooked k sent) (kept.service (is_quiet r) sent)) raw now
          r.service h)
        e
  Happens-Holds r t (text_raised sent now raw _ s e raised same) h =
      subst (P (is_quiet r)) (sym same) h
  Happens-Holds r t (server_gone sent _) h =
      declare_lost-Holds (λ x. P (is_quiet r) x.vehicle) (hooked k sent)
        (service-IsKept (P (is_quiet r)) (hooked k sent) (kept.service (is_quiet r) sent)) r.service
        h
  Happens-Holds r t (command sent raw _) h = kept.message (is_quiet r) sent raw r.service.vehicle h
  Happens-Holds r t (up sent _) h = kept.connected (is_quiet r) sent r.service.vehicle h
  Happens-Holds r t (down _) h = kept.disconnected (is_quiet r) r.service.vehicle h
  Happens-Holds r t (localized sent now started _ s e) h =
      Lands-eq (λ x. P (is_quiet r) x.vehicle) (tick (hooked k sent) now r.service)
        (tick-Holds (λ x. P (is_quiet r) x.vehicle) (hooked k sent)
          (service-IsKept (P (is_quiet r)) (hooked k sent) (kept.service (is_quiet r) sent)) now
          r.service h)
        e
  Happens-Holds r t (localization_raised sent now _ s e raised same) h =
      worker_error-Holds (record r { service = s }) (subst (P (is_quiet r)) (sym same) h)
  Happens-Holds r t (begun _) h = begin_round-Holds r h
  Happens-Holds r t (control started now sent seg marks corr _) h =
      control_round-Holds started now sent seg marks corr r h
  Happens-Holds r t (reports started _) h = reports_round-Holds started r h
  Happens-Holds r t (heartbeat started _) h = heartbeat_round-Holds started r h
  Happens-Holds r t (watchdog now _) h = watchdog_round-Holds now r h
  Happens-Holds r t (other_raised _) h = worker_error-Holds r h
  Happens-Holds r t (motor_stopped _) h = kept.stopped (is_quiet r) r.service.vehicle h
  Happens-Holds r t (stop_set _) h =
      raised (is_quiet r) (is_quiet (set_stop_event r)) r.service.vehicle (λ e. ground (arith, e)) h

  pub Runs-Holds : (r t : Runtime F) → Runs k r t → Holds r → Holds t
  Runs-Holds r t (at_once _) h = h
  Runs-Holds r t (later _ s _ before step) h = Happens-Holds s t step (Runs-Holds r s before h)
