-- ===== src/Mapping/Geometry.antt =====
-- rc_car/mapping/geometry.py: operations on polylines. An index into an empty polyline raises
-- IndexError.
use autonomous_rc_taxi.Prelude.{
  ℕ, zero, suc, Bool, ◌&&◌, ◌||◌, Option, none, some, List, [], ◌∷◌, if◌then◌else◌,
}
use autonomous_rc_taxi.Floats.{Double, ◌+◌, ◌-◌, ◌*◌, ◌/◌, ◌%◌, lit, nought, le, lt, min, max}
use autonomous_rc_taxi.Result.{Result, ok, err, index_error, assertion_error, ◌>>=◌, ◌>>◌, guard}
use autonomous_rc_taxi.Best.{best}

pub record Point (F : Type 0) : Type 0 where
  pub x : F
  pub y : F

-- (s, distance, foot) of `project_point`
pub record Projection (F : Type 0) : Type 0 where
  pub s : F
  pub dist : F
  pub foot : Point F

module _ {F : Type 0} where
  -- `pts[-1]` of a polyline that begins with `a`
  abbrev pub last : Point F → List (Point F) → Point F
  last a [] = a
  last a (b ∷ rest) = last b rest

module _ {F : Type 0} ⦃d : Double F⦄ where
  abbrev pub distance : Point F → Point F → F
  distance a b = d.hypot (b.x - a.x) (b.y - a.y)

  -- the sum over `zip(pts, pts[1:])`, from an accumulator
  unfoldable pub length_from : F → Point F → List (Point F) → F
  length_from acc a [] = acc
  length_from acc a (b ∷ rest) = length_from (acc + distance a b) b rest

  unfoldable pub polyline_length : List (Point F) → F
  unfolding length_from
  polyline_length [] = nought
  polyline_length (a ∷ rest) = length_from nought a rest

  -- the clamped foot of `p` on the segment from `a` to `b`, which begins at `acc`
  foot_on : Point F → F → Point F → Point F → Projection F
  foot_on p acc a b =
      let sx = b.x - a.x in
      let sy = b.y - a.y in
      let seg_len = d.hypot sx sy in
      let t' = ((p.x - a.x) * sx + (p.y - a.y) * sy) / (seg_len * seg_len) in
      let t = min (lit 1 0) (max nought t') in
      let q : Point F = record { x = a.x + sx * t; y = a.y + sy * t } in
      record { s = acc + seg_len * t; dist = d.hypot (p.x - q.x) (p.y - q.y); foot = q }

  -- the candidates of the loop; a segment of no length is skipped
  feet : Point F → F → Point F → List (Point F) → List (Projection F)
  unfolding foot_on
  feet p acc a [] = []
  feet p acc a (b ∷ rest) =
      let seg_len = distance a b in
      let here = feet p acc b rest in
      let onward = feet p (acc + seg_len) b rest in
      if le seg_len nought then here else foot_on p acc a b ∷ onward

  abbrev or_first : Point F → Point F → Option (Projection F) → Projection F
  or_first p a none = record { s = nought; dist = d.hypot (p.x - a.x) (p.y - a.y); foot = a }
  or_first p a (some r) = r

  unfoldable pub project_point : List (Point F) → Point F → Result (Projection F)
  unfolding feet
  project_point [] p = err index_error
  project_point (a ∷ rest) p = ok (or_first p a (best (λ r. r.dist) none (feet p nought a rest)))

  -- the loop of `point_at`, behind its first test
  point_from : F → F → Point F → List (Point F) → Point F
  point_from s acc a [] = a
  point_from s acc a (b ∷ rest) =
      let seg_len = distance a b in
      let t = (s - acc) / seg_len in
      let onward = point_from s (acc + seg_len) b rest in
      if le s (acc + seg_len) && lt nought seg_len
      then record { x = a.x + (b.x - a.x) * t; y = a.y + (b.y - a.y) * t }
      else onward

  unfoldable pub point_at : List (Point F) → F → Result (Point F)
  unfolding point_from
  point_at [] s = err index_error
  point_at (a ∷ rest) s = ok (if le s nought then a else point_from s nought a rest)

  -- (a, b) == (pts[-2], pts[-1]), by the values of the coordinates
  abbrev same : Point F → Point F → Bool
  same a b = d.eq a.x b.x && d.eq a.y b.y

  abbrev last_two : Point F → Point F → List (Point F) → Point F × Point F
  last_two a b [] = (a, b)
  last_two a b (c ∷ rest) = last_two b c rest

  heading_from : F → Point F × Point F → F → Point F → List (Point F) → F
  heading_from s ends acc a [] = nought
  heading_from s ends acc a (b ∷ rest) =
      let seg_len = distance a b in
      let onward = heading_from s ends (acc + seg_len) b rest in
      if (le s (acc + seg_len) || (same a ends.0 && same b ends.1)) && lt nought seg_len
      then d.degrees (d.atan2 (b.y - a.y) (b.x - a.x)) % lit 360 0
      else onward

  unfoldable pub heading_at : List (Point F) → F → F
  unfolding heading_from
  heading_at [] s = nought
  heading_at (a ∷ []) s = nought
  heading_at (a ∷ b ∷ rest) s = heading_from s (last_two a b rest) nought a (b ∷ rest)

  -- `out` of `trim`, newest point first; its last point is `top`
  inner_points : F → F → F → Point F → List (Point F) → Point F → List (Point F) → List (Point F)
  inner_points s0 s1 acc a [] top below = top ∷ below
  inner_points s0 s1 acc a (b ∷ rest) top below =
      let seg_len = distance a b in
      let kept = inner_points s0 s1 (acc + seg_len) b rest a (top ∷ below) in
      let skipped = inner_points s0 s1 (acc + seg_len) b rest top below in
      if (lt s0 acc && lt acc s1) && lt (lit 1 9) (d.hypot (a.x - top.x) (a.y - top.y))
      then kept
      else skipped

  -- the end point joins `out`, or replaces its last point
  close_trim : Point F → Point F → List (Point F) → List (Point F)
  close_trim p0 p1 [] = p0 ∷ p1 ∷ []
  close_trim p0 p1 (top ∷ below) =
      if lt (lit 1 9) (d.hypot (p1.x - top.x) (p1.y - top.y)) then p1 ∷ top ∷ below else p1 ∷ below

  abbrev two_or_more : Point F → Point F → List (Point F) → List (Point F)
  two_or_more p0 p1 [] = p0 ∷ p1 ∷ []
  two_or_more p0 p1 (a ∷ []) = p0 ∷ p1 ∷ []
  two_or_more p0 p1 (a ∷ b ∷ rest) = a ∷ b ∷ rest

  abbrev reversed : List (Point F) → List (Point F) → List (Point F)
  reversed out [] = out
  reversed out (a ∷ rest) = reversed (a ∷ out) rest

  trim_from : Point F → List (Point F) → F → F → Point F → Point F → List (Point F)
  unfolding inner_points close_trim
  trim_from a rest s0 s1 p0 p1 =
      if le (s1 - s0) (lit 1 9)
      then p0 ∷ []
      else two_or_more p0 p1
          (reversed [] (close_trim p0 p1 (inner_points s0 s1 nought a rest p0 [])))

  unfoldable pub trim : List (Point F) → F → F → Result (List (Point F))
  unfolding trim_from point_at
  trim pts s0 s1 = do
    guard (le s0 (s1 + lit 1 9)) assertion_error
    p0 ← point_at pts s0
    p1 ← point_at pts s1
    elim pts [ [] ↦ err index_error | a ∷ rest ↦ ok (trim_from a rest s0 s1 p0 p1) ]

  unfoldable pub heading_diff_deg : F → F → F
  heading_diff_deg a b = (a - b + lit 180 0) % lit 360 0 - lit 180 0

-- `max(1, n)`
abbrev at_least_one : ℕ → ℕ
at_least_one zero = 1
at_least_one (suc n) = suc n

module _ {F : Type 0} ⦃d : Double F⦄ where
  -- the points at `total * i / n` for the next `count` values of `i`
  points_at : List (Point F) → F → ℕ → ℕ → ℕ → Result (List (Point F))
  points_at pts total n i zero = ok []
  points_at pts total n i (suc count) = do
    p ← point_at pts (total * d.of_nat i / d.of_nat n)
    rest ← points_at pts total n (suc i) count
    ok (p ∷ rest)

  abbrev ends : List (Point F) → List (Point F)
  ends [] = []
  ends (a ∷ []) = a ∷ []
  ends (a ∷ b ∷ rest) = a ∷ last b rest ∷ []

  unfoldable pub resample : List (Point F) → F → Result (List (Point F))
  unfolding points_at
  resample pts spacing =
      let total = polyline_length pts in
      let n = at_least_one (d.ceil (total / spacing)) in
      if le total nought || le spacing nought
      then ok (ends pts)
      else points_at pts total n 0 (suc n)
