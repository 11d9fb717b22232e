-- ===== src/Localization/Validator/Accepted.antt =====
-- What is known of an accepted pose, and of what a message raises.
use autonomous_rc_taxi.Prelude.{Bool, true, false, ◌≡◌, ◌⊎◌, inl, inr, Option, some}
use autonomous_rc_taxi.Floats.{Double, nought}
use autonomous_rc_taxi.Floats.Laws.{◌≼◌}
use autonomous_rc_taxi.Result.{Result, Error, ok, err, type_error, overflow_error, zero_division}
use autonomous_rc_taxi.Core.Models.{LocalizationPose}
use autonomous_rc_taxi.Network.Messages.{Json, Fields, obj, get}
use autonomous_rc_taxi.Localization.Validator.{
  PoseValidator, PoseResult, accepted, rejected, Reason, Cube, Sighting, marker_of, pose_of,
  is_late, jumps, same_face,
}

module _ {F : Type 0} ⦃d : Double F⦄ where
  -- what an accepted pose and the state it leaves satisfy
  pub record IsSound (v w : PoseValidator F) (m : F) (pose : LocalizationPose F) : Type 0 where
    pub kept : w.prev ≡ some pose
    pub in_x : (nought ≼ pose.x) × (pose.x ≼ v.map_x)
    pub in_y : (nought ≼ pose.y) × (pose.y ≼ v.map_y)
    pub newer : is_late v.prev pose ≡ false
    pub near :
        (prev : LocalizationPose F)
        → v.prev ≡ some prev
        → same_face v m ≡ true
        → jumps v prev pose ≡ false

  -- the message bears our marker, and this is its number and yaw offset
  abbrev pub Bears : PoseValidator F → Option (Json F) → F → F → Type 0
  Bears v text m o =
      (msg : Fields F) × (text ≡ some (obj msg))
      × (marker_of v (get "marker_id" msg) ≡ ok (some (m, o)))

  -- what may be raised, and when
  abbrev pub Raises : PoseValidator F → Error → Type 0
  Raises v e =
      (e ≡ overflow_error)
      ⊎ ((d.eq v.nominal_dt nought ≡ true) × (e ≡ zero_division))
      ⊎ ((c : Cube F) × (v.cube ≡ some c) × (e ≡ type_error))

  abbrev pub Outcome :
      PoseValidator F → F → Option (Json F) → Result (PoseResult F × PoseValidator F) → Type 0
  Outcome v now text out =
      ((g : Sighting F) × (w : PoseValidator F) × (out ≡ ok (accepted (pose_of v g now), w))
        × Bears v text g.marker g.offset
        × IsSound v w g.marker (pose_of v g now))
      ⊎ ((why : Reason) × (out ≡ ok (rejected why, v)))
      ⊎ ((e : Error) × (out ≡ err e) × Raises v e)

  -- what the form checks answer for a text
  abbrev Sighted : PoseValidator F → Option (Json F) → Result (Sighting F ⊎ Reason) → Type 0
  Sighted v text (err e) = Raises v e
  Sighted v text (ok (inr why)) = Unit
  Sighted v text (ok (inl g)) = Bears v text g.marker g.offset

  -- what the comparison with the pose before answers
  abbrev Compared :
      PoseValidator F → F → LocalizationPose F → Option (LocalizationPose F) → Result Bool → Type 0
  Compared v m pose before r =
      ((r ≡ ok false)
        × ((prev : LocalizationPose F)
            → before ≡ some prev
            → same_face v m ≡ true
            → jumps v prev pose ≡ false))
      ⊎ (r ≡ ok true)
      ⊎ ((d.eq v.nominal_dt nought ≡ true) × (r ≡ err zero_division))
