-- ===== src/Runtime/Halted.antt =====
-- A stop of the whole program (rc_car/app/runtime.py) is for good: the latch behind a worker's error,
-- and the end of the program.
use autonomous_rc_taxi.Core.Enums.{waiting}
use autonomous_rc_taxi.Core.Store.{set_driving_state}
use autonomous_rc_taxi.Prelude.{
  if◌then◌else◌, Bool, true, false, ◌≡◌, refl, String, Option, none, some, inl, arith, ◌∙◌, sym,
  subst,
}
use autonomous_rc_taxi.Floats.{Double, nought}
use autonomous_rc_taxi.Floats.Laws.{IsOrdered}
use autonomous_rc_taxi.Result.{ok, err, zero_division}
use autonomous_rc_taxi.Core.Models.{ControlCommand, stop_command}
use autonomous_rc_taxi.Safety.Supervisor.{Limits, apply, latch_stop, force_stop}
use autonomous_rc_taxi.Safety.Supervisor.Gate.{apply_blocked}
use autonomous_rc_taxi.Network.Messages.{Json, Command}
use autonomous_rc_taxi.Network.Policy.{
  Vehicle, on_command, on_raw_message, on_control_connected, on_control_disconnected, on_gps_lost,
  on_gps_recovered, notify_arrived, with_store,
}
use autonomous_rc_taxi.Localization.Service.Written.{IsKeptByWrites}
use autonomous_rc_taxi.Behavior.Driving.Kept as DriveKept
use autonomous_rc_taxi.Runtime.{RuntimeSetup, Runtime, hooked, driving, worker_error}
use autonomous_rc_taxi.Runtime.Steps.{Runs}
use autonomous_rc_taxi.Runtime.Kept.{is_quiet, IsRuntimeKept, Runs-Holds}

module _ {F : Type 0} ⦃d : Double F⦄ where
  -- the motor rests
  abbrev pub Rests : Vehicle F → Type 0
  Rests v = v.plant.motor.throttle ≡ nought

  -- the stop is latched, too
  abbrev pub IsHalted : Vehicle F → Type 0
  IsHalted v = (v.plant.latched ≡ true) × Rests v

  -- what no handler of the policy does: release the latch, or turn the motor on
  abbrev Slows : Vehicle F → Vehicle F → Type 0
  Slows v w = (w.plant.latched ≡ v.plant.latched) × (Rests v → Rests w)

  on_command-Slows :
      (now : F) (c : Option (Command F)) (v : Vehicle F) → Slows v (on_command now c v)
  unfolding on_command
  on_command-Slows now none v = (refl, λ h. h)
  on_command-Slows now (some (Command.move x y)) v = (ground arith, λ h. ground arith)
  on_command-Slows now (some Command.stop) v = (ground arith, λ h. ground arith)
  on_command-Slows now (some Command.resume) v = (ground arith, λ h. ground arith)

  on_raw_message-Slows :
      (loads : String → Option (Json F)) (x_max y_max now : F) (raw : String) (v : Vehicle F)
      → Slows v (on_raw_message loads x_max y_max now raw v)
  unfolding on_raw_message
  on_raw_message-Slows loads x_max y_max now raw v = on_command-Slows now _ v

  on_control_connected-Slows : (now : F) (v : Vehicle F) → Slows v (on_control_connected now v)
  unfolding on_control_connected
  on_control_connected-Slows now v = (ground arith, λ h. ground arith)

  on_control_disconnected-Slows : (v : Vehicle F) → Slows v (on_control_disconnected v)
  unfolding on_control_disconnected
  on_control_disconnected-Slows v = (ground arith, λ h. ground arith)

  on_gps_lost-Slows : (now : F) (v : Vehicle F) → Slows v (on_gps_lost now v)
  unfolding on_gps_lost
  on_gps_lost-Slows now v = (ground arith, λ h. ground arith)

  on_gps_recovered-Slows : (now : F) (v : Vehicle F) → Slows v (on_gps_recovered now v)
  unfolding on_gps_recovered
  on_gps_recovered-Slows now v = (ground arith, λ h. ground arith)

  notify_arrived-Slows : (now : F) (v : Vehicle F) → Slows v (notify_arrived now v)
  unfolding notify_arrived
  notify_arrived-Slows now v = (ground arith, λ h. ground arith)

  Slows-IsHalted : (v w : Vehicle F) → Slows v w → IsHalted v → IsHalted w
  Slows-IsHalted v w (latch, rest) (latched, still) = (latch ∙ latched, rest still)

  -- a latched supervisor puts the stop command out
  put_out-IsHalted :
      (laws : IsOrdered F) (limits : Limits F) (v : Vehicle F) (c : ControlCommand F)
      → IsHalted v
      → IsHalted (record v { plant = (apply limits v.plant c).1 })
  put_out-IsHalted laws limits v c (latched, still) =
      let (sent, rest, kept, latch) = apply_blocked laws limits v.plant c (inl latched) in
      (latch ∙ latched, rest)

  latch_stop-IsHalted : (v : Vehicle F) → IsHalted (record v { plant = latch_stop v.plant })
  unfolding latch_stop force_stop
  latch_stop-IsHalted v = ground arith

  force_stop-Slows : (v : Vehicle F) → Slows v (record v { plant = force_stop v.plant })
  unfolding force_stop
  force_stop-Slows v = (refl, λ h. ground arith)

module _ {F H : Type 0} ⦃d : Double F⦄ (k : RuntimeSetup F H) where
  -- the program is stopping with no round of the driving worker under way, and the motor rests
  abbrev EndsAtRest : Bool → Vehicle F → Type 0
  EndsAtRest true v = Rests v
  EndsAtRest false v = ⊥

  service-IsHalted : (sent : F) → IsKeptByWrites IsHalted (hooked k sent)
  service-IsHalted sent = record {
    moved = λ v pose h. h;
    staled = λ v h. h;
    sped = λ v x h. h;
    on_lost = λ v h. Slows-IsHalted v (on_gps_lost sent v) (on_gps_lost-Slows sent v) h;
    on_recovered =
        λ v h. Slows-IsHalted v (on_gps_recovered sent v) (on_gps_recovered-Slows sent v) h;
  }

  drive-IsHalted : (laws : IsOrdered F) → DriveKept.IsKept IsHalted k.limits
  drive-IsHalted laws = record {
    entered = λ v s e o h. h;
    given_up = λ v e s h.
        put_out-IsHalted laws k.limits (with_store v (set_driving_state v.plant.store waiting))
          stop_command h;
    put_out = λ v c h. put_out-IsHalted laws k.limits v c h;
    at_goal = λ v now h. Slows-IsHalted v (notify_arrived now v) (notify_arrived-Slows now v) h;
  }

  runtime-IsHalted : (laws : IsOrdered F) → IsRuntimeKept k (λ b v. IsHalted v)
  runtime-IsHalted laws = record {
    service = λ b sent. service-IsHalted sent;
    message = λ b sent raw v h.
        Slows-IsHalted v (on_raw_message k.read k.x_max k.y_max sent raw v)
          (on_raw_message-Slows k.read k.x_max k.y_max sent raw v) h;
    connected = λ b sent v h.
        Slows-IsHalted v (on_control_connected sent v) (on_control_connected-Slows sent v) h;
    disconnected =
        λ b v h. Slows-IsHalted v (on_control_disconnected v) (on_control_disconnected-Slows v) h;
    resent = λ b v h. h;
    latched = λ b v h. latch_stop-IsHalted v;
    driven = λ now sent seg marks corr w h.
        DriveKept.tick-Holds IsHalted (driving k now seg marks) (drive-IsHalted laws) now sent corr
          w h;
    stopped =
        λ b v h. Slows-IsHalted v (record v { plant = force_stop v.plant }) (force_stop-Slows v) h;
    ended = λ b v h. h;
  }

  -- When any worker has raised, the stop is latched and the motor at rest for good: whatever
  -- messages, losses, recoveries, rounds of workers and errors follow, in whatever order, the latch
  -- stays, the motor rests, and the supervisor answers every command with the stop command, or
  -- raises if the steering ratio is 0.
  pub worker_error_halts :
      (laws : IsOrdered F) (r t : Runtime F)
      → Runs k (worker_error r) t
      → (limits : Limits F) (c : ControlCommand F)
      → (t.service.vehicle.plant.latched ≡ true)
        × (t.service.vehicle.plant.motor.throttle ≡ nought)
        × ((apply limits t.service.vehicle.plant c).0 ≡ (
            if d.eq t.service.vehicle.plant.steering.ratio nought
            then err zero_division
            else ok stop_command))
  unfolding worker_error
  worker_error_halts laws r t runs limits c =
      let (latched, still) =
        Runs-Holds k (λ b v. IsHalted v) (runtime-IsHalted laws) (worker_error r) t runs
          (latch_stop-IsHalted r.service.vehicle) in
      let (sent, rest, kept, latch) =
        apply_blocked laws limits t.service.vehicle.plant c (inl latched) in
      (latched, still, sent)

  -- a handler that turns nothing on keeps that
  Slows-EndsAtRest : (b : Bool) (v w : Vehicle F) → Slows v w → EndsAtRest b v → EndsAtRest b w
  Slows-EndsAtRest true v w (latch, rest) h = rest h
  Slows-EndsAtRest false v w slows h = elim h [ ]

  resting-EndsAtRest : (b : Bool) (v w : Vehicle F) → Rests w → EndsAtRest b v → EndsAtRest b w
  resting-EndsAtRest true v w rest h = rest
  resting-EndsAtRest false v w rest h = elim h [ ]

  ended-EndsAtRest : (b : Bool) (v : Vehicle F) → EndsAtRest b v → EndsAtRest true v
  ended-EndsAtRest true v h = h
  ended-EndsAtRest false v h = elim h [ ]

  service-EndsAtRest : (b : Bool) (sent : F) → IsKeptByWrites (EndsAtRest b) (hooked k sent)
  service-EndsAtRest b sent = record {
    moved = λ v pose h. Slows-EndsAtRest b v _ (refl, λ r. r) h;
    staled = λ v h. Slows-EndsAtRest b v _ (refl, λ r. r) h;
    sped = λ v x h. Slows-EndsAtRest b v _ (refl, λ r. r) h;
    on_lost = λ v h. Slows-EndsAtRest b v (on_gps_lost sent v) (on_gps_lost-Slows sent v) h;
    on_recovered =
        λ v h. Slows-EndsAtRest b v (on_gps_recovered sent v) (on_gps_recovered-Slows sent v) h;
  }

  runtime-EndsAtRest : IsRuntimeKept k EndsAtRest
  runtime-EndsAtRest = record {
    service = service-EndsAtRest;
    message = λ b sent raw v h.
        Slows-EndsAtRest b v (on_raw_message k.read k.x_max k.y_max sent raw v)
          (on_raw_message-Slows k.read k.x_max k.y_max sent raw v) h;
    connected = λ b sent v h.
        Slows-EndsAtRest b v (on_control_connected sent v) (on_control_connected-Slows sent v) h;
    disconnected = λ b v h.
        Slows-EndsAtRest b v (on_control_disconnected v) (on_control_disconnected-Slows v) h;
    resent = λ b v h. Slows-EndsAtRest b v _ (refl, λ r. r) h;
    latched = λ b v h.
        resting-EndsAtRest b v (record v { plant = latch_stop v.plant }) (latch_stop-IsHalted v).1
          h;
    driven = λ now sent seg marks corr w h. elim h [ ];
    stopped = λ b v h.
        Slows-EndsAtRest b v (record v { plant = force_stop v.plant }) (force_stop-Slows v) h;
    ended = ended-EndsAtRest;
  }

  EndsAtRest-Rests : (b : Bool) (v : Vehicle F) → EndsAtRest b v → (b ≡ true) × Rests v
  EndsAtRest-Rests true v h = (refl, h)
  EndsAtRest-Rests false v h = elim h [ ]

  -- When the stop event is set, no round of the driving worker is under way and the motor rests, all
  -- three stay so: whatever messages, losses, recoveries and errors follow, no round begins, and no
  -- step turns the motor on again. (`shutdown` does not wait for a round under way before it stops
  -- the motor.)
  pub stop_event_rests :
      (r t : Runtime F)
      → r.stopping ≡ true
      → r.in_round ≡ false
      → r.service.vehicle.plant.motor.throttle ≡ nought
      → Runs k r t
      → (t.stopping ≡ true)
        × (t.in_round ≡ false)
        × (t.service.vehicle.plant.motor.throttle ≡ nought)
  stop_event_rests r t over idle rest runs =
      let quiet : is_quiet r ≡ true = ground (arith, over, idle) in
      let (quiet', rest') = EndsAtRest-Rests (is_quiet t) t.service.vehicle (
        Runs-Holds k EndsAtRest runtime-EndsAtRest r t runs
          (subst (λ b. EndsAtRest b r.service.vehicle) (sym quiet) rest)) in
      (ground (arith, quiet'), ground (arith, quiet'), rest')
