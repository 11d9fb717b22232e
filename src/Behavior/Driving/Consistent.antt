-- ===== src/Behavior/Driving/Consistent.antt =====
-- The worker keeps the vehicle consistent, whatever the map, the route and the position are.
use autonomous_rc_taxi.Behavior.Driving.Kept.{IsKept, tick-Holds}
use autonomous_rc_taxi.Safety.Supervisor.Frame.{apply-store}
use autonomous_rc_taxi.Prelude.{true, ◌≡◌, Option, arith}
use autonomous_rc_taxi.Floats.{Double}
use autonomous_rc_taxi.Core.Enums.{DrivingState, is_driving}
use autonomous_rc_taxi.Core.Models.{ControlCommand}
use autonomous_rc_taxi.Core.Store.{set_driving_state}
use autonomous_rc_taxi.Safety.Supervisor.{Plant}
use autonomous_rc_taxi.Network.Policy.{Vehicle, state, with_store}
use autonomous_rc_taxi.Network.Policy.Invariant.{IsConsistent, notify_arrived-IsConsistent}
use autonomous_rc_taxi.Behavior.Driving.{Setup, Drive}
use autonomous_rc_taxi.Behavior.Driving.Tick.{tick}

module _ {F H W : Type 0} ⦃d : Double F⦄ (k : Setup F H W) where
  abbrev pub IsSound : Drive F W → Type 0
  IsSound w = IsConsistent w.vehicle

  entered-IsConsistent :
      (v : Vehicle F) (s : DrivingState)
      → is_driving s ≡ true
      → is_driving (state v) ≡ true
      → IsConsistent v
      → IsConsistent (with_store v (set_driving_state v.plant.store s))
  unfolding set_driving_state
  entered-IsConsistent v s new old h = ground (arith, new, old)

  -- the invariant does not read the command that was put out last
  with_plant-IsSound :
      (v : Vehicle F) (p : Plant F) (x : ControlCommand F)
      → p.store ≡ record v.plant.store { control_command = x }
      → IsConsistent v
      → IsConsistent (record v { plant = p })
  with_plant-IsSound v p x e h = rw e (record {
    error_iff_reason = h.error_iff_reason;
    kept_iff_error = h.kept_iff_error;
    home_live = h.home_live;
    resend_lost = h.resend_lost;
    complete_iff_arrived = h.complete_iff_arrived;
    mission_iff_service = h.mission_iff_service;
  })

  -- a consistent vehicle that plans has a mission
  drive-IsConsistent : IsKept IsConsistent k.limits
  drive-IsConsistent = record {
    entered = entered-IsConsistent;
    given_up = λ v e s h. absurd (ground (arith, e, s, h.mission_iff_service));
    put_out = λ v c h. let (x, e) = apply-store k.limits v.plant c in with_plant-IsSound v _ x e h;
    at_goal = λ v now h. notify_arrived-IsConsistent now v h;
  }

  -- A tick of the worker leaves a consistent vehicle consistent, in every driving state, whatever the
  -- map, the follower and the planner answer and wherever the tick is cut short by an error.
  pub tick-IsSound :
      (now sent : F) (corr : Option F) (w : Drive F W)
      → IsSound w
      → IsSound (tick k now sent corr w).1
  tick-IsSound now sent corr w h = tick-Holds IsConsistent k drive-IsConsistent now sent corr w h
