-- ===== src/Mapping/Matcher.antt =====
-- rc_car/mapping/map_matcher.py, without the rate-limited warnings.
pub mod Score
use autonomous_rc_taxi.Prelude.{
  Bool, true, false, ◌&&◌, ◌||◌, String, Option, none, some, List, [], ◌∷◌, ◌++◌, if◌then◌else◌,
}
use autonomous_rc_taxi.Floats.{Double, ◌+◌, ◌*◌, le, lt, min, max}
use autonomous_rc_taxi.Best.{best}
use autonomous_rc_taxi.Result.{Result, ok, err, value_error, ◌>>=◌}
use autonomous_rc_taxi.Mapping.Geometry.{
  Point, Projection, project_point, heading_at, heading_diff_deg,
}
use autonomous_rc_taxi.Mapping.LaneMap.{LaneMap, LaneSegment, Connector, Block}

pub data SegmentKind : Type 0 where
  lane connector : SegmentKind

pub record LaneMatch (F : Type 0) : Type 0 where
  pub segment_id : String
  pub kind : SegmentKind
  pub distance_m : F
  pub heading_error_deg : F
  pub progress_s : F
  pub score : F

pub record MatchConfig (F : Type 0) : Type 0 where
  pub w_dist : F
  pub w_head : F
  pub max_dist : F
  pub max_head : F

pub record Candidate (F : Type 0) : Type 0 where
  pub id : String
  pub kind : SegmentKind
  pub centerline : List (Point F)

module _ {F : Type 0} where
  lane_candidates : List (String × LaneSegment F) → List (Candidate F)
  lane_candidates [] = []
  lane_candidates ((lid, l) ∷ rest) =
      record { id = lid; kind = lane; centerline = l.centerline } ∷ lane_candidates rest

  connector_candidates : List (String × Connector F) → List (Candidate F)
  connector_candidates [] = []
  connector_candidates ((cid, c) ∷ rest) =
      record { id = cid; kind = connector; centerline = c.centerline } ∷ connector_candidates rest

  unfoldable pub candidates : LaneMap F → List (Candidate F)
  unfolding lane_candidates connector_candidates
  candidates m = lane_candidates m.lanes ++ connector_candidates m.connectors

module _ {F : Type 0} ⦃d : Double F⦄ where
  -- `min` and `max` of a list; the lists of one coordinate have the polygon's points
  abbrev least : (Point F → F) → F → List (Point F) → F
  least f a [] = a
  least f a (p ∷ ps) = least f (min a (f p)) ps

  abbrev greatest : (Point F → F) → F → List (Point F) → F
  greatest f a [] = a
  greatest f a (p ∷ ps) = greatest f (max a (f p)) ps

  -- the bounding box of a polygon; `min([])` raises ValueError
  inside_polygon : List (Point F) → F → F → Result Bool
  inside_polygon [] x y = err value_error
  inside_polygon (p ∷ ps) x y = ok (
      (le (least (λ q. q.x) p.x ps) x && le x (greatest (λ q. q.x) p.x ps))
      && (le (least (λ q. q.y) p.y ps) y && le y (greatest (λ q. q.y) p.y ps)))

  unfoldable pub inside_block : List (String × Block F) → F → F → Result Bool
  unfolding inside_polygon
  inside_block [] x y = ok false
  inside_block ((bid, b) ∷ rest) x y = do
    here ← inside_polygon b.polygon x y
    let onward = inside_block rest x y
    if here then ok true else onward

  -- the score of a projection; `none` is a `continue` at one of the cuts
  abbrev scored : MatchConfig F → F → Candidate F → Projection F → Option (LaneMatch F)
  scored k heading_deg c p =
      let herr = heading_diff_deg heading_deg (heading_at c.centerline p.s) in
      if lt k.max_dist p.dist
      then none
      else if lt k.max_head (d.abs herr)
      then none
      else some (record {
        segment_id = c.id;
        kind = c.kind;
        distance_m = p.dist;
        heading_error_deg = herr;
        progress_s = p.s;
        score = k.w_dist * p.dist + k.w_head * d.abs herr;
      })

  unfoldable pub judge : MatchConfig F → Point F → F → Candidate F → Result (Option (LaneMatch F))
  judge k at heading_deg c = do p ← project_point c.centerline at; ok (scored k heading_deg c p)

  abbrev prepend : Option (LaneMatch F) → List (LaneMatch F) → List (LaneMatch F)
  prepend none ms = ms
  prepend (some m) ms = m ∷ ms

  -- the candidates that pass the cuts, in order
  unfoldable pub passing :
      MatchConfig F → Point F → F → List (Candidate F) → Result (List (LaneMatch F))
  passing k at heading_deg [] = ok []
  passing k at heading_deg (c ∷ cs) = do
    m ← judge k at heading_deg c
    ms ← passing k at heading_deg cs
    ok (prepend m ms)

  unfoldable pub best_passing :
      MatchConfig F → Point F → F → List (Candidate F) → Result (Option (LaneMatch F))
  best_passing k at heading_deg cs = do
    ms ← passing k at heading_deg cs
    ok (best (λ (r : LaneMatch F). r.score) none ms)

  unfoldable pub match : MatchConfig F → LaneMap F → F → F → F → Result (Option (LaneMatch F))
  match k m x y heading_deg = do
    blocked ← inside_block m.blocks x y
    let found = best_passing k (record { x = x; y = y }) heading_deg (candidates m)
    if blocked then ok none else found
