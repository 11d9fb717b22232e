-- ===== src/Runtime/Sound.antt =====
-- What holds of the vehicle after every step of the program (rc_car/app/runtime.py).
use autonomous_rc_taxi.Hardware.{MotorDriver, SteeringDriver}
use autonomous_rc_taxi.Prelude.{
  true, false, sym, subst, ap, ◌∙◌, Bool-cases, ◌≡◌, ◌⊎◌, inl, inr, refl, arith, some, if-both,
  Bool,
}
use autonomous_rc_taxi.Floats.{Double, nought}
use autonomous_rc_taxi.Floats.Laws.{IsOrdered}
use autonomous_rc_taxi.Core.Enums.{DrivingState, is_driving, waiting}
use autonomous_rc_taxi.Core.Models.{ControlCommand, LocalizationPose, VehicleSnapshot, stop_command}
use autonomous_rc_taxi.Core.Store.{
  set_driving_state, is_old, update_pose, mark_pose_stale, set_estimated_speed,
}
use autonomous_rc_taxi.Safety.Supervisor.{Plant, Limits, apply, latch_stop, force_stop}
use autonomous_rc_taxi.Safety.Supervisor.Gate.{apply_blocked}
use autonomous_rc_taxi.Safety.Supervisor.Frame.{apply-store}
use autonomous_rc_taxi.Network.Policy.{Vehicle, state, with_store}
use autonomous_rc_taxi.Network.Policy.Invariant.{
  IsConsistent, on_raw_message-IsConsistent, on_control_disconnected-IsConsistent,
  on_control_connected-IsConsistent, on_gps_lost-IsConsistent, on_gps_recovered-IsConsistent,
}
use autonomous_rc_taxi.Network.Policy.Rest.{
  IsAtRest, on_raw_message-IsAtRest, on_control_disconnected-IsAtRest,
  on_control_connected-IsAtRest, on_gps_lost-IsAtRest, on_gps_recovered-IsAtRest,
  notify_arrived-IsAtRest,
}
use autonomous_rc_taxi.Network.Reports.{ReportManager, tick as resend}
use autonomous_rc_taxi.Localization.Service.Written.{IsKeptByWrites}
use autonomous_rc_taxi.Behavior.Driving.Kept as DriveKept
use autonomous_rc_taxi.Behavior.Driving.Consistent.{tick-IsSound}
use autonomous_rc_taxi.Runtime.{RuntimeSetup, Runtime, hooked, driving, new_vehicle, initialized}
use autonomous_rc_taxi.Runtime.Steps.{Runs}
use autonomous_rc_taxi.Runtime.Kept.{IsRuntimeKept, Runs-Holds}

module _ {F : Type 0} ⦃d : Double F⦄ where
  abbrev pub IsSteady : Vehicle F → Type 0
  IsSteady v = IsConsistent v × IsAtRest v

  -- the invariant reads three fields of the store
  planted-IsConsistent :
      (v : Vehicle F) (p : Plant F)
      → p.store.driving_state ≡ v.plant.store.driving_state
      → p.store.prev_state_for_recovery ≡ v.plant.store.prev_state_for_recovery
      → p.store.mission ≡ v.plant.store.mission
      → IsConsistent v
      → IsConsistent (record v { plant = p })
  planted-IsConsistent v p a b c h = record {
    error_iff_reason = rw a h.error_iff_reason;
    kept_iff_error = rw (a, b) h.kept_iff_error;
    home_live = rw (a, b) h.home_live;
    resend_lost = h.resend_lost;
    complete_iff_arrived = rw (a, b) h.complete_iff_arrived;
    mission_iff_service = rw (a, b, c) h.mission_iff_service;
  }

  moved-IsSteady :
      (v : Vehicle F) (s : VehicleSnapshot F)
      → s.driving_state ≡ v.plant.store.driving_state
      → s.prev_state_for_recovery ≡ v.plant.store.prev_state_for_recovery
      → s.mission ≡ v.plant.store.mission
      → IsSteady v
      → IsSteady (with_store v s)
  moved-IsSteady v s a b c (h, r) =
      (planted-IsConsistent v (record v.plant { store = s }) a b c h, rw a r)

  posed-IsSteady :
      (v : Vehicle F) (pose : LocalizationPose F)
      → IsSteady v
      → IsSteady (with_store v (update_pose v.plant.store pose).0)
  unfolding update_pose
  posed-IsSteady v pose h =
      if-both {A = VehicleSnapshot F × Bool} (λ r. IsSteady (with_store v r.0))
        (is_old v.plant.store pose) h
        (moved-IsSteady v (record v.plant.store { pose = some pose; pose_stale = false }) refl refl
          refl h)

  resent-IsSteady :
      (v : Vehicle F) (m : ReportManager F)
      → m.error_resend_ts ≡ v.reports.error_resend_ts
      → m.complete_ts ≡ v.reports.complete_ts
      → IsSteady v
      → IsSteady (record v { reports = m })
  resent-IsSteady v m a b (h, r) = (
    record {
      error_iff_reason = h.error_iff_reason;
      kept_iff_error = h.kept_iff_error;
      home_live = h.home_live;
      resend_lost = rw a h.resend_lost;
      complete_iff_arrived = rw b h.complete_iff_arrived;
      mission_iff_service = h.mission_iff_service;
    },
    r,
  )

  -- a round of the resending worker only sends
  resend-keeps_ts :
      (v : Vehicle F)
      → ((resend (state v) v.reports).error_resend_ts ≡ v.reports.error_resend_ts)
        × ((resend (state v) v.reports).complete_ts ≡ v.reports.complete_ts)
  unfolding resend
  resend-keeps_ts v = ground arith

  latched-IsSteady :
      (v : Vehicle F) → IsSteady v → IsSteady (record v { plant = latch_stop v.plant })
  unfolding latch_stop force_stop
  latched-IsSteady v (h, r) = (planted-IsConsistent v _ refl refl refl h, inr refl)

  stopped-IsSteady :
      (v : Vehicle F) → IsSteady v → IsSteady (record v { plant = force_stop v.plant })
  unfolding force_stop
  stopped-IsSteady v (h, r) = (planted-IsConsistent v _ refl refl refl h, inr refl)

  -- an output turns the motor on only in a driving state
  pub put_out-IsAtRest :
      (laws : IsOrdered F) (limits : Limits F) (v : Vehicle F) (c : ControlCommand F)
      → IsAtRest (record v { plant = (apply limits v.plant c).1 })
  put_out-IsAtRest laws limits v c = elim (Bool-cases (is_driving (state v))) [
    | inl on ↦
        let (x, e) = apply-store limits v.plant c in
        inl (ap (λ s. is_driving s.driving_state) e ∙ on)
    | inr off ↦
        let (sent, rest, kept, latch) = apply_blocked laws limits v.plant c (inr (inr off)) in
        inr rest
  ]

  entered-IsAtRest :
      (v : Vehicle F) (s : DrivingState)
      → is_driving s ≡ true
      → IsAtRest (with_store v (set_driving_state v.plant.store s))
  unfolding set_driving_state
  entered-IsAtRest v s e = inl e

  staled-IsSteady :
      (v : Vehicle F) → IsSteady v → IsSteady (with_store v (mark_pose_stale v.plant.store))
  unfolding mark_pose_stale
  staled-IsSteady v h = moved-IsSteady v (mark_pose_stale v.plant.store) refl refl refl h

  sped-IsSteady :
      (v : Vehicle F) (x : F)
      → IsSteady v
      → IsSteady (with_store v (set_estimated_speed v.plant.store x))
  unfolding set_estimated_speed
  sped-IsSteady v x h = moved-IsSteady v (set_estimated_speed v.plant.store x) refl refl refl h

module _ {F H : Type 0} ⦃d : Double F⦄ (k : RuntimeSetup F H) (laws : IsOrdered F) where
  pub drive-IsAtRest : DriveKept.IsKept IsAtRest k.limits
  drive-IsAtRest = record {
    entered = λ v s e o r. entered-IsAtRest v s e;
    given_up = λ v e s r.
        put_out-IsAtRest laws k.limits (with_store v (set_driving_state v.plant.store waiting))
          stop_command;
    put_out = λ v c r. put_out-IsAtRest laws k.limits v c;
    at_goal = λ v now r. notify_arrived-IsAtRest now v r;
  }

  service-IsSteady : (sent : F) → IsKeptByWrites IsSteady (hooked k sent)
  service-IsSteady sent = record {
    moved = posed-IsSteady;
    staled = staled-IsSteady;
    sped = sped-IsSteady;
    on_lost = λ v (h, r). (on_gps_lost-IsConsistent sent v h, on_gps_lost-IsAtRest sent v r);
    on_recovered =
        λ v (h, r). (on_gps_recovered-IsConsistent sent v h, on_gps_recovered-IsAtRest sent v h r);
  }

  runtime-IsSteady : IsRuntimeKept k (λ b v. IsSteady v)
  runtime-IsSteady = record {
    service = λ b sent. service-IsSteady sent;
    message = λ b sent raw v (h, r). (
      on_raw_message-IsConsistent k.read k.x_max k.y_max sent raw v h,
      on_raw_message-IsAtRest k.read k.x_max k.y_max sent raw v h r,
    );
    connected = λ b sent v (h, r).
        (on_control_connected-IsConsistent sent v h, on_control_connected-IsAtRest sent v r);
    disconnected = λ b v (h, r).
        (on_control_disconnected-IsConsistent v h, on_control_disconnected-IsAtRest v r);
    resent = λ b v h.
        let (a, c) = resend-keeps_ts v in resent-IsSteady v (resend (state v) v.reports) a c h;
    latched = λ b v h. latched-IsSteady v h;
    driven = λ now sent seg marks corr w (h, r). (
      tick-IsSound (driving k now seg marks) now sent corr w h,
      DriveKept.tick-Holds IsAtRest (driving k now seg marks) drive-IsAtRest now sent corr w r,
    );
    stopped = λ b v h. stopped-IsSteady v h;
    ended = λ b v h. h;
  }

  initialized-IsSteady :
      (r : Runtime F) (motor : MotorDriver F) (steering : SteeringDriver F)
      → r.service.vehicle ≡ new_vehicle motor steering
      → IsSteady (initialized r).service.vehicle
  unfolding initialized force_stop set_driving_state
  initialized-IsSteady r motor steering e =
      subst
        (λ v. IsSteady (record v {
          plant = record (force_stop v.plant) {
            store = set_driving_state (force_stop v.plant).store waiting;
          };
        }))
        (sym e) (ready, inr refl)
    where
      ready : IsConsistent (record (new_vehicle motor steering) {
        plant = record (force_stop (new_vehicle motor steering).plant) {
          store = set_driving_state (force_stop (new_vehicle motor steering).plant).store waiting;
        };
      })
      ready = ground arith

  -- After `initialize`, and after any steps of the program's threads in any order in which no other
  -- thread writes while a tick or an output is under way, the driving state, the reasons of an error,
  -- the state kept for the recovery, the mission and the reports that wait agree with each other, and
  -- the motor runs only in a driving state.
  pub program_steady :
      (r t : Runtime F) (motor : MotorDriver F) (steering : SteeringDriver F)
      → r.service.vehicle ≡ new_vehicle motor steering
      → Runs k (initialized r) t
      → IsConsistent t.service.vehicle
        × ((is_driving (state t.service.vehicle) ≡ true)
            ⊎ (t.service.vehicle.plant.motor.throttle ≡ nought))
  program_steady r t motor steering e runs =
      Runs-Holds k (λ b v. IsSteady v) runtime-IsSteady (initialized r) t runs
        (initialized-IsSteady r motor steering e)
