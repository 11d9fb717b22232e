-- ===== src/Localization/Service/Written.antt =====
-- What rc_car/localization/localization_service.py may do to the vehicle: it writes the pose, its
-- freshness and the speed, and calls its two hooks.
use autonomous_rc_taxi.Prelude.{Bool, true, false, ◌≡◌, sym, subst}
use autonomous_rc_taxi.Floats.{Double}
use autonomous_rc_taxi.Core.Models.{LocalizationPose, VehicleSnapshot}
use autonomous_rc_taxi.Core.Store.{update_pose, mark_pose_stale, set_estimated_speed}
use autonomous_rc_taxi.Network.Policy.{Vehicle, with_store}
use autonomous_rc_taxi.Localization.Service.{
  ServiceSetup, LocalizationService, snapshot, taken, recovered_if, declared,
}
use autonomous_rc_taxi.Localization.Service.Kept.{IsKept}

module _ {F : Type 0} ⦃d : Double F⦄ where
  -- a property of the vehicle that the service's writes and hooks keep
  pub record IsKeptByWrites (P : Vehicle F → Type 0) (k : ServiceSetup F) : Type 0 where
    pub moved :
        (v : Vehicle F) (pose : LocalizationPose F)
        → P v
        → P (with_store v (update_pose v.plant.store pose).0)
    pub staled : (v : Vehicle F) → P v → P (with_store v (mark_pose_stale v.plant.store))
    pub sped :
        (v : Vehicle F) (x : F) → P v → P (with_store v (set_estimated_speed v.plant.store x))
    pub on_lost : (v : Vehicle F) → P v → P (k.on_lost v)
    pub on_recovered : (v : Vehicle F) → P v → P (k.on_recovered v)

module _ {F : Type 0} ⦃d : Double F⦄ (P : Vehicle F → Type 0) (k : ServiceSetup F)
    (kept : IsKeptByWrites P k) where
  abbrev Holds : LocalizationService F → Type 0
  Holds s = P s.vehicle

  -- the pose and the speed together
  moved_sped :
      (v : Vehicle F) (pose : LocalizationPose F) (snap : VehicleSnapshot F) (b : Bool) (x : F)
      → update_pose v.plant.store pose ≡ (snap, b)
      → P v
      → P (with_store v (set_estimated_speed snap x))
  moved_sped v pose snap b x e h =
      let h' : P (with_store v snap) = subst (λ r. P (with_store v r.0)) e (kept.moved v pose h) in
      kept.sped (with_store v snap) x h'

  recovered_if-Holds : (b : Bool) (s : LocalizationService F) → Holds s → Holds (recovered_if b k s)
  recovered_if-Holds true s h = kept.on_recovered s.vehicle h
  recovered_if-Holds false s h = h

  taken-Holds :
      (s : LocalizationService F) (pose : LocalizationPose F) (snap : VehicleSnapshot F)
      → update_pose (snapshot s) pose ≡ (snap, true)
      → Holds s
      → Holds (taken k s pose snap)
  unfolding taken
  taken-Holds s pose snap e h =
      recovered_if-Holds s.lost _ (moved_sped s.vehicle pose snap true _ e h)

  declared-Holds : (s : LocalizationService F) → Holds s → Holds (declared k s)
  unfolding declared
  declared-Holds s h =
      let stale = kept.staled s.vehicle h in
      kept.on_lost _ (kept.sped (with_store s.vehicle (mark_pose_stale (snapshot s))) _ stale)

  -- then every handler of the service keeps it
  pub service-IsKept : IsKept (λ s. P s.vehicle) k
  service-IsKept = record {
    same = λ s t l had e h. subst P (sym e) h;
    taken = taken-Holds;
    staled = λ s h. kept.staled s.vehicle h;
    declared = λ s l had h. declared-Holds s h;
    fed = λ s pose snap l e h. moved_sped s.vehicle pose snap true _ e h;
  }
