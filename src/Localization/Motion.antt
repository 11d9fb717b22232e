-- ===== src/Localization/Motion.antt =====
-- rc_car/localization/motion_estimator.py. The `deque` is its list, the oldest sample first.
use Prim.Native.Nat.{◌-◌ as minus}
use autonomous_rc_taxi.Prelude.{
  ℕ, ◌||◌, Option, none, some, List, [], ◌∷◌, ◌++◌, length, ltb, if◌then◌else◌,
}
use autonomous_rc_taxi.Floats.{Double, ◌+◌, ◌-◌, ◌/◌, nought, le, lt}
use autonomous_rc_taxi.Result.{Result, ok, err, value_error}
use autonomous_rc_taxi.Core.Models.{LocalizationPose}

pub record MotionEstimator (F : Type 0) : Type 0 where
  pub max_gap : F
  pub window : ℕ
  pub samples : List F
  pub prev : Option (LocalizationPose F)

module _ {F : Type 0} where
  unfoldable pub new_estimator : ℕ → F → Result (MotionEstimator F)
  new_estimator window_poses max_gap_sec =
      if ltb window_poses 2
      then err value_error
      else ok (record {
        max_gap = max_gap_sec;
        window = minus window_poses 1;
        samples = [];
        prev = none;
      })

  unfoldable pub reset : MotionEstimator F → MotionEstimator F
  reset e = record e { samples = []; prev = none }

  abbrev pub drop_oldest : List F → List F
  drop_oldest [] = []
  drop_oldest (a ∷ rest) = rest

  -- `append` on a `deque` with `maxlen`
  unfoldable pub append : ℕ → List F → F → List F
  append window samples x =
      if ltb (length samples) window then samples ++ (x ∷ []) else drop_oldest samples ++ (x ∷ [])

module _ {F : Type 0} ⦃d : Double F⦄ where
  abbrev pub sum_from : F → List F → F
  sum_from acc [] = acc
  sum_from acc (a ∷ rest) = sum_from (acc + a) rest

  unfoldable pub speed_mps : List F → F
  speed_mps [] = nought
  speed_mps (a ∷ rest) = sum_from nought (a ∷ rest) / d.of_nat (length (a ∷ rest))

  -- what a second pose does to the samples
  pub sampled : MotionEstimator F → LocalizationPose F → LocalizationPose F → List F
  unfolding append
  sampled e prev pose =
      let dt = pose.source_timestamp_s - prev.source_timestamp_s in
      if le dt nought || lt e.max_gap dt
      then []
      else append e.window e.samples (d.hypot (pose.x - prev.x) (pose.y - prev.y) / dt)

  abbrev pub after : MotionEstimator F → LocalizationPose F → List F
  after e pose = elim e.prev [ none ↦ e.samples | some prev ↦ sampled e prev pose ]

  -- the estimator, and the speed in m/s
  unfoldable pub update : MotionEstimator F → LocalizationPose F → MotionEstimator F × F
  unfolding sampled speed_mps
  update e pose = let s = after e pose in (record e { samples = s; prev = some pose }, speed_mps s)
