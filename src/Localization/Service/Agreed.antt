-- ===== src/Localization/Service/Agreed.antt =====
-- The localization service (rc_car/localization/localization_service.py) and the policy's reason
-- for an error (rc_car/network/command_policy.py).
use autonomous_rc_taxi.Prelude.{Bool, true, false, ◌≡◌, refl, sym, ap, ◌∙◌, arith}
use autonomous_rc_taxi.Floats.{Double}
use autonomous_rc_taxi.Core.Models.{LocalizationPose, VehicleSnapshot}
use autonomous_rc_taxi.Network.Policy.{Vehicle, on_gps_lost, on_gps_recovered, enter_error}
use autonomous_rc_taxi.Localization.Service.{
  ServiceSetup, LocalizationService, taken, recovered_if, declared,
}
use autonomous_rc_taxi.Localization.Service.Kept.{IsKept}
use autonomous_rc_taxi.Localization.Service.Steps.{Runs, Runs-Holds}

module _ {F : Type 0} where
  -- the service has declared a loss exactly while the policy has the reason
  abbrev pub IsAgreed : LocalizationService F → Type 0
  IsAgreed s = s.lost ≡ s.vehicle.reasons.gps_lost

  -- what leaves the reason alone
  abbrev pub KeepsReason : Vehicle F → Vehicle F → Type 0
  KeepsReason v w = w.reasons.gps_lost ≡ v.reasons.gps_lost

module _ {F : Type 0} ⦃d : Double F⦄ where
  -- the policy's hooks
  pub on_gps_lost-raises : (now : F) (v : Vehicle F) → (on_gps_lost now v).reasons.gps_lost ≡ true
  unfolding on_gps_lost enter_error
  on_gps_lost-raises now v = ground arith

  pub on_gps_recovered-clears :
      (now : F) (v : Vehicle F) → (on_gps_recovered now v).reasons.gps_lost ≡ false
  unfolding on_gps_recovered
  on_gps_recovered-clears now v = ground arith

module _ {F : Type 0} ⦃d : Double F⦄ (k : ServiceSetup F)
    (raises : (v : Vehicle F) → (k.on_lost v).reasons.gps_lost ≡ true)
    (clears : (v : Vehicle F) → (k.on_recovered v).reasons.gps_lost ≡ false) where
  recovered_if-IsAgreed :
      (b : Bool) (s : LocalizationService F)
      → b ≡ s.vehicle.reasons.gps_lost
      → s.lost ≡ b
      → IsAgreed (recovered_if b k s)
  recovered_if-IsAgreed true s agreed e = sym (clears s.vehicle)
  recovered_if-IsAgreed false s agreed e = e ∙ agreed

  taken-IsAgreed :
      (s : LocalizationService F) (pose : LocalizationPose F) (snap : VehicleSnapshot F)
      → IsAgreed s
      → IsAgreed (taken k s pose snap)
  unfolding taken
  taken-IsAgreed s pose snap agreed = recovered_if-IsAgreed s.lost _ agreed refl

  declared-IsAgreed : (s : LocalizationService F) → IsAgreed (declared k s)
  unfolding declared
  declared-IsAgreed s = sym (raises _)

  service-IsAgreed : IsKept IsAgreed k
  service-IsAgreed = record {
    same = λ s t l had e h. l ∙ (h ∙ sym (ap (λ v. v.reasons.gps_lost) e));
    taken = λ s pose snap e h. taken-IsAgreed s pose snap h;
    staled = λ s h. h;
    declared = λ s l had h. declared-IsAgreed s;
    fed = λ s pose snap l e h. h;
  }

  -- Start a service whose mark for a declared loss equals the policy's reason for one, and let it
  -- receive any texts, lose its server, be ticked at any times, while other parts change the
  -- vehicle without touching that reason. The mark and the reason are then equal still. The hook
  -- for a loss raises the reason, the hook for a recovery clears it.
  pub lost_agrees :
      (s t : LocalizationService F)
      → s.lost ≡ s.vehicle.reasons.gps_lost
      → Runs k KeepsReason s t
      → t.lost ≡ t.vehicle.reasons.gps_lost
  lost_agrees s t agreed runs =
      Runs-Holds IsAgreed k KeepsReason service-IsAgreed (λ s v o h. h ∙ sym o) s t runs agreed
