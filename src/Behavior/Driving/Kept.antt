-- ===== src/Behavior/Driving/Kept.antt =====
-- What a tick of rc_car/behavior/driving_worker.py may do to the vehicle: it enters states, puts
-- commands out through the supervisor, and reports the arrival.
use autonomous_rc_taxi.Prelude.{
  Bool, true, false, ◌≡◌, refl, ap, not, ◌&&◌, Option, none, some, is_some, if-both,
}
use autonomous_rc_taxi.Floats.{Double}
use autonomous_rc_taxi.Result.{Result, ok, err}
use autonomous_rc_taxi.Core.Enums.{
  DrivingState, boot, waiting, planning, following_route, approaching_destination, arrived, error,
  approaching_stop_line, stopped_at_line, crossing_intersection, obstacle_wait, is_driving,
}
use autonomous_rc_taxi.Core.Models.{LocalizationPose, ControlCommand, ActiveMission, stop_command}
use autonomous_rc_taxi.Core.Store.{set_driving_state}
use autonomous_rc_taxi.Safety.Supervisor.{Limits, apply}
use autonomous_rc_taxi.Network.Policy.{Vehicle, state, with_store, notify_arrived}
use autonomous_rc_taxi.Mapping.Matcher.{LaneMatch}
use autonomous_rc_taxi.Navigation.Arrival.{StopPose}
use autonomous_rc_taxi.Navigation.Planner.{Route}
use autonomous_rc_taxi.Behavior.Driving.{
  Setup, Drive, output, and_stop, snapshot, matched, commit, plan_with, planned, tick_planning,
  install,
}
use autonomous_rc_taxi.Behavior.Driving.Tick.{
  tick, tick_driving, tick_idle, steer, arrive_if, judged, checked, approach_if, see_stale,
  drive_with, cleared, tick_in,
}

module _ {F : Type 0} ⦃d : Double F⦄ where
  -- a property of the vehicle that the worker's writes keep
  pub record IsKept (P : Vehicle F → Type 0) (limits : Limits F) : Type 0 where
    pub entered :
        (v : Vehicle F) (s : DrivingState)
        → is_driving s ≡ true
        → is_driving (state v) ≡ true
        → P v
        → P (with_store v (set_driving_state v.plant.store s))
    -- planning without a mission ends at once
    pub given_up :
        (v : Vehicle F)
        → v.plant.store.mission ≡ none
        → state v ≡ planning
        → P v
        → let idle = with_store v (set_driving_state v.plant.store waiting) in
          P (record idle { plant = (apply limits idle.plant stop_command).1 })
    pub put_out :
        (v : Vehicle F) (c : ControlCommand F)
        → P v
        → P (record v { plant = (apply limits v.plant c).1 })
    pub at_goal : (v : Vehicle F) (now : F) → P v → P (notify_arrived now v)

module _ {F H W : Type 0} ⦃d : Double F⦄ (P : Vehicle F → Type 0) (k : Setup F H W)
    (kept : IsKept P k.limits) where
  abbrev Holds : Drive F W → Type 0
  Holds w = P w.vehicle

  -- a step with an answer
  abbrev HoldsAnd : {A : Type 0} → A × Drive F W → Type 0
  HoldsAnd r = Holds r.1

  output-Holds : (c : ControlCommand F) (w : Drive F W) → Holds w → HoldsAnd (output k c w)
  unfolding output
  output-Holds c w h = kept.put_out w.vehicle c h

  and_stop-Holds : (w : Drive F W) (r : Result (Unit {0})) → Holds w → HoldsAnd (and_stop k (r, w))
  and_stop-Holds w (err e) h = h
  and_stop-Holds w (ok u) h = output-Holds stop_command w h

  install-Holds :
      (w : Drive F W) (stop : StopPose F) (r : Result W)
      → is_driving (state w.vehicle) ≡ true
      → Holds w
      → HoldsAnd (install k w stop r)
  install-Holds w stop (err e) s h = h
  install-Holds w stop (ok f) s h = kept.entered w.vehicle following_route refl s h

  commit-Holds :
      (w : Drive F W) (r : Result (Option (Route F × StopPose F)))
      → is_driving (state w.vehicle) ≡ true
      → Holds w
      → HoldsAnd (commit k w r)
  commit-Holds w (err e) s h = h
  commit-Holds w (ok none) s h = h
  commit-Holds w (ok (some (r, stop))) s h =
      install-Holds w stop (k.follower.set_route w.route r) s h

  plan_with-Holds :
      (w : Drive F W) (o : Option (ActiveMission F)) (p : Option (LocalizationPose F))
      → (snapshot k w).mission ≡ o
      → state w.vehicle ≡ planning
      → Holds w
      → HoldsAnd (and_stop k (plan_with k w o p))
  unfolding output
  plan_with-Holds w none p e s h = kept.given_up w.vehicle e s h
  plan_with-Holds w (some mi) none e s h = and_stop-Holds w (ok tt) h
  plan_with-Holds w (some mi) (some p) e s h = and_stop-Holds _ _ (
      if-both HoldsAnd (snapshot k w).pose_stale h
        (commit-Holds w (planned k mi p) (ap is_driving s) h))

  tick_planning-Holds :
      (w : Drive F W) → state w.vehicle ≡ planning → Holds w → HoldsAnd (tick_planning k w)
  unfolding tick_planning
  tick_planning-Holds w s h = plan_with-Holds w (snapshot k w).mission (snapshot k w).pose refl s h

  arrive_if-Holds : (sent : F) (b : Bool) (w : Drive F W) → Holds w → Holds (arrive_if k sent b w)
  arrive_if-Holds sent true w h = kept.at_goal w.vehicle sent h
  arrive_if-Holds sent false w h = h

  judged-Holds :
      (now sent : F) (p : LocalizationPose F) (t : F) (w : Drive F W)
      (r : Result (Option (LaneMatch F)))
      → Holds w
      → HoldsAnd (judged k now sent p t w r)
  judged-Holds now sent p t w (err e) h = h
  judged-Holds now sent p t w (ok m) h = arrive_if-Holds sent _ _ h

  checked-Holds :
      (now sent : F) (p : LocalizationPose F) (r : Result (ControlCommand F)) (w : Drive F W)
      → Holds w
      → HoldsAnd (checked k now sent p (r, w))
  checked-Holds now sent p (err e) w h = h
  checked-Holds now sent p (ok c) w h = judged-Holds now sent p c.throttle w (matched k p) h

  approach_if-Holds :
      (b : Bool) (w : Drive F W)
      → is_driving (state w.vehicle) ≡ true
      → Holds w
      → Holds (approach_if k b w)
  approach_if-Holds true w s h = kept.entered w.vehicle approaching_destination refl s h
  approach_if-Holds false w s h = h

  steer-Holds :
      (now sent : F) (corr : Option F) (p : LocalizationPose F) (w : Drive F W)
      (r : Result ((ControlCommand F × F) × W))
      → is_driving (state w.vehicle) ≡ true
      → Holds w
      → HoldsAnd (steer k now sent corr p w r)
  unfolding steer
  steer-Holds now sent corr p w (err e) s h = h
  steer-Holds now sent corr p w (ok ((c, remaining), f)) s h =
      checked-Holds now sent p _ _
        (output-Holds _ _ (approach_if-Holds _ (record w { route = f }) s h))

  see_stale-Holds :
      (now : F) (p : Option (LocalizationPose F)) (out : Result (Unit {0}) × Drive F W)
      → HoldsAnd out
      → HoldsAnd (see_stale k now p out)
  see_stale-Holds now none out h = h
  see_stale-Holds now (some p) (err e, w) h = h
  see_stale-Holds now (some p) (ok u, w) h = h

  drive_with-Holds :
      (now sent : F) (corr : Option F) (p : Option (LocalizationPose F)) (w : Drive F W)
      → is_driving (state w.vehicle) ≡ true
      → Holds w
      → HoldsAnd (drive_with k now sent corr p w)
  drive_with-Holds now sent corr none w s h =
      see_stale-Holds now none (and_stop k (ok tt, w)) (and_stop-Holds w (ok tt) h)
  drive_with-Holds now sent corr (some p) w s h =
      if-both HoldsAnd (snapshot k w).pose_stale
        (see_stale-Holds now (some p) (and_stop k (ok tt, w)) (and_stop-Holds w (ok tt) h))
        (if-both HoldsAnd (not (k.follower.has_route w.route))
          (kept.entered w.vehicle planning refl s h) (steer-Holds now sent corr p w _ s h))

  tick_idle-Holds : (w : Drive F W) → Holds w → HoldsAnd (tick_idle k w)
  unfolding tick_idle
  tick_idle-Holds w h = and_stop-Holds _ (ok tt) (
      if-both Holds (not (is_some (snapshot k w).mission) && k.follower.has_route w.route)
        {x = cleared k w} {y = w} h h)

  tick_driving-Holds :
      (now sent : F) (corr : Option F) (w : Drive F W)
      → is_driving (state w.vehicle) ≡ true
      → Holds w
      → HoldsAnd (tick_driving k now sent corr w)
  unfolding tick_driving
  tick_driving-Holds now sent corr w s h = drive_with-Holds now sent corr (snapshot k w).pose w s h

  pub tick_in-Holds :
      (now sent : F) (corr : Option F) (s : DrivingState) (w : Drive F W)
      → state w.vehicle ≡ s
      → Holds w
      → HoldsAnd (tick_in k now sent corr s w)
  tick_in-Holds now sent corr boot w e h = tick_idle-Holds w h
  tick_in-Holds now sent corr waiting w e h = tick_idle-Holds w h
  tick_in-Holds now sent corr planning w e h = tick_planning-Holds w e h
  tick_in-Holds now sent corr following_route w e h =
      tick_driving-Holds now sent corr w (ap is_driving e) h
  tick_in-Holds now sent corr approaching_destination w e h =
      tick_driving-Holds now sent corr w (ap is_driving e) h
  tick_in-Holds now sent corr arrived w e h = tick_idle-Holds w h
  tick_in-Holds now sent corr error w e h = tick_idle-Holds w h
  tick_in-Holds now sent corr approaching_stop_line w e h = tick_idle-Holds w h
  tick_in-Holds now sent corr stopped_at_line w e h = tick_idle-Holds w h
  tick_in-Holds now sent corr crossing_intersection w e h = tick_idle-Holds w h
  tick_in-Holds now sent corr obstacle_wait w e h = tick_idle-Holds w h

  pub tick-Holds :
      (now sent : F) (corr : Option F) (w : Drive F W) → Holds w → HoldsAnd (tick k now sent corr w)
  unfolding tick
  tick-Holds now sent corr w h = tick_in-Holds now sent corr (snapshot k w).driving_state w refl h
