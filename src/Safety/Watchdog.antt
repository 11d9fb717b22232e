-- ===== src/Safety/Watchdog.antt =====
-- rc_car/safety/watchdog.py: a worker with no tick for five of its intervals, and at least one
-- second, latches the stop. The heartbeat file is not modelled.
use autonomous_rc_taxi.Prelude.{
  Bool, true, false, not, ◌&&◌, ◌||◌, ◌≡◌, refl, List, [], ◌∷◌, if◌then◌else◌, Bool-cases, inl, inr,
}
use autonomous_rc_taxi.Floats.{Double, ◌-◌, ◌*◌, lit, nought, lt, max}
use autonomous_rc_taxi.Core.Models.{stop_command}
use autonomous_rc_taxi.Core.Store.{set_control_command}
use autonomous_rc_taxi.Hardware.{stop, center_steering}
use autonomous_rc_taxi.Safety.Supervisor.{Plant, latch_stop}

-- what the watchdog reads of a PeriodicWorker
pub record Watched (F : Type 0) : Type 0 where
  pub last_tick_monotonic : F
  pub interval_sec : F

module _ {F : Type 0} ⦃d : Double F⦄ where
  unfoldable pub is_stalled : F → Watched F → Bool
  is_stalled now w =
      not (d.eq w.last_tick_monotonic nought)
      && lt (max (w.interval_sec * lit 5 0) (lit 1 0)) (now - w.last_tick_monotonic)

  unfoldable pub tick : F → List (Watched F) → Plant F → Plant F
  tick now [] p = p
  tick now (w ∷ ws) p = tick now ws (if is_stalled now w then latch_stop p else p)

  abbrev pub any_stalled : F → List (Watched F) → Bool
  any_stalled now [] = false
  any_stalled now (w ∷ ws) = is_stalled now w || any_stalled now ws

  -- stopping twice is stopping once
  latch_stop_twice : (p : Plant F) → latch_stop (latch_stop p) ≡ latch_stop p
  unfolding latch_stop stop center_steering set_control_command
  latch_stop_twice p = refl

  tick_latched :
      (now : F) (ws : List (Watched F)) (p : Plant F) → tick now ws (latch_stop p) ≡ latch_stop p
  unfolding tick
  tick_latched now [] p = refl
  tick_latched now (w ∷ ws) p = elim (Bool-cases (is_stalled now w)) [
    | inl e ↦ rw (e, latch_stop_twice p) (tick_latched now ws p)
    | inr e ↦ rw e (tick_latched now ws p)
  ]

  -- One round of the watchdog latches the stop, with the motor at rest, the steering centred and the
  -- stop command recorded, exactly when some watched worker is stalled; otherwise it changes nothing.
  pub tick_lem :
      (now : F) (ws : List (Watched F)) (p : Plant F)
      → tick now ws p ≡ (
          if any_stalled now ws
          then record p {
            latched = true;
            motor = record p.motor { throttle = nought; stopped = true };
            steering = record p.steering { servo_deg = p.steering.center };
            store = record p.store { control_command = stop_command };
          }
          else p)
  unfolding tick
  tick_lem now [] p = refl
  tick_lem now (w ∷ ws) p = elim (Bool-cases (is_stalled now w)) [
    | inl e ↦
        rw (e, tick_latched now ws p)
          (unfold latch_stop stop center_steering set_control_command in refl)
    | inr e ↦ rw e (tick_lem now ws p)
  ]
