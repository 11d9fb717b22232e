-- ===== src/Control/Aim/Points.antt =====
-- The points that a leg of rc_car/control/lane_follower.py aims at are points of the leg.
use Prim.Native.Nat.{◌+◌ as plus}
use autonomous_rc_taxi.Prelude.{ℕ, zero, suc, ◌≤◌, ◌≡◌, refl, List, [], ◌∷◌, arith, length}
use autonomous_rc_taxi.Floats.{Double}
use autonomous_rc_taxi.Result.{ok}
use autonomous_rc_taxi.Mapping.Geometry.{Point}
use autonomous_rc_taxi.Control.Aim.{points_from, near_points, targets_of, min_ℕ}

module _ {F : Type 0} where
  points_from-total :
      (a : Point F) (rest : List (Point F)) (i : ℕ)
      → i ≤ length rest
      → (r : Point F × List (Point F)) × (points_from (a ∷ rest) i ≡ ok r)
        × (plus i (length r.1) ≡ length rest)
  unfolding points_from
  points_from-total a rest zero h = ((a, rest), refl, omega arith)
  points_from-total a [] (suc i) h = absurd (omega (arith, h))
  points_from-total a (b ∷ rest) (suc i) h =
      let (r, e, n) = points_from-total b rest i (omega (arith, h)) in (r, e, omega (arith, n))

module _ {F : Type 0} ⦃d : Double F⦄ where
  near_points_le :
      (look : F) (p a : Point F) (rest : List (Point F))
      → near_points look p (a ∷ rest) ≤ length rest
  unfolding near_points
  near_points_le look p a [] = omega arith
  near_points_le look p a (b ∷ rest) = ground (arith, near_points_le look p b rest)

  pub targets_of-total :
      (look : F) (a : Point F) (rest : List (Point F)) (pt : ℕ) (p : Point F)
      → (i : ℕ) × (targets : Point F × List (Point F)) × (targets_of look (a ∷ rest) pt p
          ≡ ok (i, targets))
        × (i ≤ length rest)
  unfolding targets_of
  targets_of-total look a rest pt p =
      let first = min_ℕ pt (length rest) in
      let (r, e, n) = points_from-total a rest first (ground arith) in
      let more = near_points look p (r.0 ∷ r.1) in
      let le_rest : plus first more ≤ length rest =
        omega (arith, n, near_points_le look p r.0 r.1) in
      let (r', e', n') = points_from-total a rest (plus first more) le_rest in
      (plus first more, r', rw (e, e') refl, le_rest)
