-- ===== src/Localization/Service/Kept.antt =====
-- What every handler of rc_car/localization/localization_service.py keeps, from what its writes do.
use autonomous_rc_taxi.Prelude.{
  Bool, true, false, not, ◌≡◌, refl, String, Option, none, some, if-both, ◌||◌, ◌&&◌, inl, inr,
  arith, Bool-cases,
}
use autonomous_rc_taxi.Floats.{Double}
use autonomous_rc_taxi.Result.{Lands, Lands-ok, Lands-bind, Lands-any}
use autonomous_rc_taxi.Core.Models.{LocalizationPose, VehicleSnapshot}
use autonomous_rc_taxi.Core.Store.{update_pose, mark_pose_stale}
use autonomous_rc_taxi.Localization.Validator.{
  PoseResult, accepted, rejected, validate, parse, other_marker, not_found, malformed, out_of_order,
  out_of_map, jump,
}
use autonomous_rc_taxi.Localization.Heading.{HeadingEstimator, update}
use autonomous_rc_taxi.Localization.Reckoner.{
  DeadReckoner, Prediction, propagate, predict, within_budget, deviation_m,
}
use autonomous_rc_taxi.Localization.Service.{
  ServiceSetup, LocalizationService, snapshot, with_snapshot, suspect, suspect_by, deviates,
  may_suspect, estimate_heading, taken, taken_if, unless_suspect, accept, declared, declare_lost,
  received, on_raw, tunnel_feed, feed, feed_by, feed_from, fed_if, pose_at, in_zone,
  in_tunnel_state, unless_fed, watched, tick,
}

module _ {F : Type 0} ⦃d : Double F⦄ where
  -- a property of the service that its writes keep
  pub record IsKept (P : LocalizationService F → Type 0) (k : ServiceSetup F) : Type 0 where
    -- the service's helpers change its other fields
    pub same :
        (s t : LocalizationService F)
        → t.lost ≡ s.lost
        → t.had_pose ≡ s.had_pose
        → t.vehicle ≡ s.vehicle
        → P s
        → P t
    pub taken :
        (s : LocalizationService F) (pose : LocalizationPose F) (snap : VehicleSnapshot F)
        → update_pose (snapshot s) pose ≡ (snap, true)
        → P s
        → P (taken k s pose snap)
    pub staled :
        (s : LocalizationService F) → P s → P (with_snapshot s (mark_pose_stale (snapshot s)))
    pub declared :
        (s : LocalizationService F) → s.lost ≡ false → s.had_pose ≡ true → P s → P (declared k s)
    -- a pose of the tunnel mode
    pub fed :
        (s : LocalizationService F) (pose : LocalizationPose F) (snap : VehicleSnapshot F)
        → s.lost ≡ false
        → update_pose (snapshot s) pose ≡ (snap, true)
        → P s
        → P (fed_if s pose (snap, true)).1

module _ {F : Type 0} ⦃d : Double F⦄ (P : LocalizationService F → Type 0) (k : ServiceSetup F)
    (kept : IsKept P k) where
  abbrev HoldsAnd : {A : Type 0} → A × LocalizationService F → Type 0
  HoldsAnd r = P r.1

  deviates-Holds :
      (s : LocalizationService F) (r : DeadReckoner F) (pose : LocalizationPose F)
      → P s
      → Lands HoldsAnd (deviates k s r pose)
  unfolding deviates
  deviates-Holds s r pose h =
      let cmd = (snapshot s).control_command in
      let there =
        propagate k.rounds r cmd.throttle cmd.steering_wheel_deg pose.received_monotonic_s in
      Lands-bind (λ x. Unit {0}) HoldsAnd there _ (Lands-any there)
        (λ r' u.
          let dev = deviation_m r' pose.x pose.y in
          Lands-bind (λ x. Unit {0}) HoldsAnd dev _ (Lands-any dev)
            (λ x v. Lands-ok HoldsAnd _ (kept.same s _ refl refl refl h)))

  suspect_by-Holds :
      (s : LocalizationService F) (r : Option (DeadReckoner F)) (pose : LocalizationPose F)
      → P s
      → Lands HoldsAnd (suspect_by k s r pose)
  unfolding suspect_by
  suspect_by-Holds s none pose h = Lands-ok HoldsAnd (false, s) h
  suspect_by-Holds s (some r) pose h =
      if-both (Lands HoldsAnd) (may_suspect k s r pose) (deviates-Holds s r pose h)
        (Lands-ok HoldsAnd (false, s) h)

  estimate_heading-Holds :
      (s : LocalizationService F) (e : Option (HeadingEstimator F)) (pose : LocalizationPose F)
      → P s
      → Lands HoldsAnd (estimate_heading k s e pose)
  unfolding estimate_heading
  estimate_heading-Holds s none pose h = Lands-ok HoldsAnd (pose, s) h
  estimate_heading-Holds s (some e) pose h =
      let cmd = (snapshot s).control_command in
      let est =
        update k.rounds e pose.x pose.y pose.heading_deg cmd.throttle cmd.steering_wheel_deg
          pose.received_monotonic_s in
      Lands-bind (λ x. Unit {0}) HoldsAnd est _ (Lands-any est)
        (λ x u. Lands-ok HoldsAnd _ (kept.same s _ refl refl refl h))

  taken_if-Holds :
      (s : LocalizationService F) (pose : LocalizationPose F) (r : VehicleSnapshot F × Bool)
      → update_pose (snapshot s) pose ≡ r
      → P s
      → P (taken_if k s pose r)
  taken_if-Holds s pose (snap, true) e h = kept.taken s pose snap e h
  taken_if-Holds s pose (snap, false) e h = h

  unless_suspect-Holds :
      (pose : LocalizationPose F) (r : Bool × LocalizationService F)
      → P r.1
      → Lands P (unless_suspect k pose r)
  unless_suspect-Holds pose (true, s) h = Lands-ok P s h
  unless_suspect-Holds pose (false, s) h =
      Lands-bind HoldsAnd P (estimate_heading k s s.heading_est pose) _
        (estimate_heading-Holds s s.heading_est pose h)
        (λ (pose', s') h'.
          Lands-ok P _ (taken_if-Holds s' pose' (update_pose (snapshot s') pose') refl h'))

  accept-Holds :
      (s : LocalizationService F) (pose : LocalizationPose F) → P s → Lands P (accept k s pose)
  unfolding accept suspect
  accept-Holds s pose h =
      Lands-bind HoldsAnd P (suspect_by k s s.reckoner pose) _
        (suspect_by-Holds s s.reckoner pose h) (λ r h'. unless_suspect-Holds pose r h')

  received-Holds : (s : LocalizationService F) (r : PoseResult F) → P s → Lands P (received k s r)
  received-Holds s (accepted pose) h = accept-Holds s pose h
  received-Holds s (rejected not_found) h = Lands-ok P _ (kept.staled s h)
  received-Holds s (rejected parse) h = Lands-ok P s h
  received-Holds s (rejected other_marker) h = Lands-ok P s h
  received-Holds s (rejected malformed) h = Lands-ok P s h
  received-Holds s (rejected out_of_order) h = Lands-ok P s h
  received-Holds s (rejected out_of_map) h = Lands-ok P s h
  received-Holds s (rejected jump) h = Lands-ok P s h

  pub on_raw-Holds :
      (raw : String) (now : F) (s : LocalizationService F) → P s → Lands P (on_raw k raw now s)
  unfolding on_raw
  on_raw-Holds raw now s h =
      Lands-bind (λ x. Unit {0}) P (validate k.read s.validator raw now) _
        (Lands-any (validate k.read s.validator raw now))
        (λ (result, v) u.
          received-Holds (record s { validator = v }) result (kept.same s _ refl refl refl h))

  pub declare_lost-Holds : (s : LocalizationService F) → P s → P (declare_lost k s)
  unfolding declare_lost
  declare_lost-Holds s h = elim (Bool-cases (s.lost || not s.had_pose)) [
    | inl e ↦ rw e h
    | inr n ↦ rw n (kept.declared s (ground (arith, n)) (ground (arith, n)) h)
  ]

  fed_if-Holds :
      (s : LocalizationService F) (pose : LocalizationPose F) (r : VehicleSnapshot F × Bool)
      → s.lost ≡ false
      → update_pose (snapshot s) pose ≡ r
      → P s
      → HoldsAnd (fed_if s pose r)
  fed_if-Holds s pose (snap, true) l e h = kept.fed s pose snap l e h
  fed_if-Holds s pose (snap, false) l e h = h

  feed-Holds :
      (s : LocalizationService F) (r : DeadReckoner F) (now : F) (p : Prediction F)
      → s.lost ≡ false
      → P s
      → HoldsAnd (feed k s r now p)
  unfolding feed
  feed-Holds s r now p l h =
      let pose = pose_at now p in
      if-both HoldsAnd (not (in_zone k.zones p.x p.y)) {x = (false, s)} h (
        if-both HoldsAnd (not (within_budget r)) {x = (false, record s { dr_feeding = false })}
          {y = fed_if s pose (update_pose (snapshot s) pose)} (kept.same s _ refl refl refl h)
          (fed_if-Holds s pose (update_pose (snapshot s) pose) l refl h))

  feed_from-Holds :
      (s : LocalizationService F) (r : DeadReckoner F) (now : F)
      → s.lost ≡ false
      → P s
      → Lands HoldsAnd (feed_from k s r now)
  unfolding feed_from
  feed_from-Holds s r now l h =
      let cmd = (snapshot s).control_command in
      let there = propagate k.rounds r cmd.throttle cmd.steering_wheel_deg now in
      Lands-bind (λ x. Unit {0}) HoldsAnd there _ (Lands-any there)
        (λ r' u.
          Lands-bind (λ x. Unit {0}) HoldsAnd (predict r') _ (Lands-any (predict r'))
            (λ p v. Lands-ok HoldsAnd _ (
              feed-Holds (record s { reckoner = some r' }) r' now p l
                (kept.same s _ refl refl refl h))))

  feed_by-Holds :
      (s : LocalizationService F) (r : Option (DeadReckoner F)) (now : F)
      → s.lost ≡ false
      → P s
      → Lands HoldsAnd (feed_by k s r now)
  unfolding feed_by
  feed_by-Holds s none now l h = Lands-ok HoldsAnd (false, s) h
  feed_by-Holds s (some r) now l h =
      if-both (Lands HoldsAnd) (r.anchored && in_tunnel_state (snapshot s).driving_state)
        (feed_from-Holds s r now l h) (Lands-ok HoldsAnd (false, s) h)

  unless_fed-Holds :
      (late : Bool) (r : Bool × LocalizationService F) → HoldsAnd r → P (unless_fed k late r)
  unless_fed-Holds late (true, s) h = h
  unless_fed-Holds false (false, s) h = h
  unless_fed-Holds true (false, s) h = declare_lost-Holds s h

  watched-Holds :
      (due late : Bool) (now : F) (s : LocalizationService F)
      → s.lost ≡ false
      → P s
      → Lands P (watched k due late now s)
  unfolding tunnel_feed
  watched-Holds false late now s l h = Lands-ok P s h
  watched-Holds true late now s l h =
      Lands-bind HoldsAnd P (feed_by k s s.reckoner now) _ (feed_by-Holds s s.reckoner now l h)
        (λ fed h'. Lands-ok P _ (unless_fed-Holds late fed h'))

  pub tick-Holds : (now : F) (s : LocalizationService F) → P s → Lands P (tick k now s)
  unfolding tick
  tick-Holds now s h = elim (Bool-cases (s.lost || not s.had_pose)) [
    | inl e ↦ rw e (Lands-ok P s h)
    | inr n ↦ rw n (watched-Holds _ _ now s (ground (arith, n)) h)
  ]
