-- ===== src/Localization/Service/Stopped.antt =====
-- While the position is lost (rc_car/localization/localization_service.py), the supervisor stops.
use autonomous_rc_taxi.Prelude.{
  if◌then◌else◌, Bool, true, false, ◌≡◌, refl, sym, ap, ◌∙◌, inl, inr, arith,
}
use autonomous_rc_taxi.Floats.{Double, nought}
use autonomous_rc_taxi.Floats.Laws.{IsOrdered}
use autonomous_rc_taxi.Result.{ok, err, zero_division}
use autonomous_rc_taxi.Core.Models.{ControlCommand, LocalizationPose, VehicleSnapshot, stop_command}
use autonomous_rc_taxi.Core.Store.{set_driving_state, mark_pose_stale, set_estimated_speed}
use autonomous_rc_taxi.Safety.Supervisor.{Limits, apply, force_stop}
use autonomous_rc_taxi.Safety.Supervisor.Gate.{apply_blocked}
use autonomous_rc_taxi.Network.Policy.{Vehicle, on_gps_lost, enter_error}
use autonomous_rc_taxi.Localization.Service.{
  ServiceSetup, LocalizationService, snapshot, with_snapshot, taken, recovered_if, declared, fed_if,
}
use autonomous_rc_taxi.Localization.Service.Kept.{IsKept}
use autonomous_rc_taxi.Localization.Service.Steps.{Runs, Runs-Holds}

module _ {F : Type 0} where
  -- the loss is declared behind a first pose only, and the pose is then stale
  abbrev IsSound : LocalizationService F → Type 0
  IsSound s = s.lost ≡ true → (s.had_pose ≡ true) × ((snapshot s).pose_stale ≡ true)

  not_lost-IsSound : (s : LocalizationService F) → s.lost ≡ false → IsSound s
  not_lost-IsSound s h lost = absurd (ground (arith, h, lost))

  -- what leaves the freshness of the pose alone
  abbrev pub KeepsStale : Vehicle F → Vehicle F → Type 0
  KeepsStale v w = w.plant.store.pose_stale ≡ v.plant.store.pose_stale

  others-IsSound :
      (s : LocalizationService F) (v : Vehicle F)
      → KeepsStale s.vehicle v
      → IsSound s
      → IsSound (record s { vehicle = v })
  others-IsSound s v e h lost = ((h lost).0, e ∙ (h lost).1)

module _ {F : Type 0} ⦃d : Double F⦄ where
  -- the policy's hook
  pub on_gps_lost-quiet :
      (now : F) (v : Vehicle F)
      → (on_gps_lost now v).plant.store.pose_stale ≡ v.plant.store.pose_stale
  unfolding on_gps_lost enter_error set_driving_state force_stop
  on_gps_lost-quiet now v = ground arith

module _ {F : Type 0} ⦃d : Double F⦄ (k : ServiceSetup F)
    (quiet : (v : Vehicle F)
      → (k.on_lost v).plant.store.pose_stale ≡ v.plant.store.pose_stale) where
  recovered_if-not_lost :
      (b : Bool) (s : LocalizationService F) → s.lost ≡ b → (recovered_if b k s).lost ≡ false
  recovered_if-not_lost true s h = refl
  recovered_if-not_lost false s h = h

  taken-not_lost :
      (s : LocalizationService F) (pose : LocalizationPose F) (snap : VehicleSnapshot F)
      → (taken k s pose snap).lost ≡ false
  unfolding taken
  taken-not_lost s pose snap = recovered_if-not_lost s.lost _ refl

  staled-IsSound :
      (s : LocalizationService F)
      → IsSound s
      → IsSound (with_snapshot s (mark_pose_stale (snapshot s)))
  unfolding mark_pose_stale
  staled-IsSound s h lost = ((h lost).0, refl)

  declared-IsSound : (s : LocalizationService F) → s.had_pose ≡ true → IsSound (declared k s)
  unfolding declared mark_pose_stale set_estimated_speed
  declared-IsSound s had lost = (had, quiet _)

  service-IsSound : IsKept IsSound k
  service-IsSound = record {
    same = λ s t l had e h lost.
        let (h1, h2) = h (sym l ∙ lost) in (had ∙ h1, ap (λ v. v.plant.store.pose_stale) e ∙ h2);
    taken = λ s pose snap e h. not_lost-IsSound (taken k s pose snap) (taken-not_lost s pose snap);
    staled = staled-IsSound;
    declared = λ s l had h. declared-IsSound s had;
    fed = λ s pose snap l e h. not_lost-IsSound (fed_if s pose (snap, true)).1 l;
  }

  -- Start a service that has not declared a loss, and let it receive any texts, lose its server, be
  -- ticked at any times, while other parts change the vehicle without touching the freshness of the
  -- pose. If it has then declared a loss, it had received a pose before, the store's pose is stale,
  -- and the supervisor turns every command into the stop command, or raises behind the motor's rest
  -- if the steering ratio is 0. The hook for a loss leaves the freshness of the pose alone.
  pub lost_stops :
      (laws : IsOrdered F) (s t : LocalizationService F)
      → s.lost ≡ false
      → Runs k KeepsStale s t
      → t.lost ≡ true
      → (limits : Limits F) (c : ControlCommand F)
      → (t.had_pose ≡ true)
        × ((snapshot t).pose_stale ≡ true)
        × ((apply limits t.vehicle.plant c).0 ≡ (
            if d.eq t.vehicle.plant.steering.ratio nought
            then err zero_division
            else ok stop_command))
        × ((apply limits t.vehicle.plant c).1.motor.throttle ≡ nought)
  lost_stops laws s t fresh runs lost limits c =
      let (had, stale) =
        Runs-Holds IsSound k KeepsStale service-IsSound others-IsSound s t runs
          (not_lost-IsSound s fresh) lost in
      let (sent, still, kept, latched) =
        apply_blocked laws limits t.vehicle.plant c (inr (inl stale)) in
      (had, stale, sent, still)
