-- ===== src/Tests/Maps.antt =====
-- Runs: the lane map, the matcher, the planners and the lane routes.
use autonomous_rc_taxi.Mapping.Geometry.{project_point}
use autonomous_rc_taxi.Navigation.Resolver.Nearest.{Drawn}
use autonomous_rc_taxi.Navigation.Resolver.{DestinationResolver, allowed}
use mathlib.Core.List.{Memᴰ}
use autonomous_rc_taxi.Prelude.{
  suc, true, false, ◌≡◌, ◌↔◌, ◌⊎◌, refl, String, none, some, List, [], ◌∷◌, length, All,
}
use autonomous_rc_taxi.Floats.{lit, nought}
use autonomous_rc_taxi.Floats.Micro.{Micro, micro_double, Micro-IsOrdered}
use autonomous_rc_taxi.Result.{ok}
use autonomous_rc_taxi.Keys.{member}
use autonomous_rc_taxi.Worklist.Correct.{Reach}
use autonomous_rc_taxi.Mapping.LaneMap.{
  next_lanes, reachable_lanes, arrival_lane_candidates, follow, straight,
}
use autonomous_rc_taxi.Mapping.LaneMap.Connected.{circuits_connected, reachable_lanes_iff}
use autonomous_rc_taxi.Mapping.LaneMap.Arrival.{EntersBy, arrival_lane_candidates_iff}
use autonomous_rc_taxi.Mapping.Matcher.{
  MatchConfig, LaneMatch, Candidate, candidates, inside_block, judge, lane, connector,
}
use autonomous_rc_taxi.Mapping.Matcher.Score.{Concedes, match_best}
use autonomous_rc_taxi.Navigation.Planner.{Route, on_lane, on_connector}
use autonomous_rc_taxi.Navigation.Planner.Connected.{segment_ids, ids}
use autonomous_rc_taxi.Navigation.Forced.{lane_ids}
use autonomous_rc_taxi.Navigation.Forced.Connected.{Passes, plan_via_numbers-Passes}
use autonomous_rc_taxi.Navigation.Numbers.{num2id, id2num, symmetric_num}
use autonomous_rc_taxi.Navigation.Numbers.Tables.{num2id_iff, symmetric_num_involution}
use autonomous_rc_taxi.Navigation.LaneRoute.{LaneRoute, from_route}
use autonomous_rc_taxi.Navigation.LaneRoute.Numbered.Designed.{Drives, from_lane_numbers-Drives}
use autonomous_rc_taxi.Navigation.LaneRoute.Folded.{Alternates, leg_ids, turn_ids, from_route_legs}
use autonomous_rc_taxi.Tests.Samples.{metres, at, lane_a, lane_b, road_ab, loop}

circuits_connected_example : Reach (next_lanes loop) "mid_wb1_w" "mid_wb1_e"
unfolding autonomous_rc_taxi.Mapping.LaneMap.Validate.validate_circuits reachable_lanes
    autonomous_rc_taxi.Worklist.explore autonomous_rc_taxi.Worklist.offer next_lanes
    autonomous_rc_taxi.Mapping.LaneMap.pred_of autonomous_rc_taxi.Keys.find
    autonomous_rc_taxi.Keys.keys
circuits_connected_example = circuits_connected loop "mid_wb1_w" "mid_wb1_e" refl refl refl

reachable_lanes_iff_example :
    (r : List String) × (reachable_lanes loop "mid_wb1_e" ≡ ok r)
    × ((x : String) → (member x r ≡ true) ↔ Reach (next_lanes loop) "mid_wb1_e" x)
unfolding autonomous_rc_taxi.Mapping.LaneMap.Validate.validate_references
    autonomous_rc_taxi.Keys.keys
reachable_lanes_iff_example = reachable_lanes_iff loop "mid_wb1_e" refl refl

arrival_lane_candidates_iff_example :
    (member "mid_wb1_e" (arrival_lane_candidates loop "ab") ≡ true)
    ↔ ((road_ab.successor ≡ "mid_wb1_e") ⊎ EntersBy loop.lanes "ab" "mid_wb1_e")
unfolding autonomous_rc_taxi.Keys.find
arrival_lane_candidates_iff_example =
    arrival_lane_candidates_iff loop "ab" "mid_wb1_e" road_ab refl refl

abbrev pub matching : MatchConfig Micro
matching = record { w_dist = metres 1; w_head = lit 1 2; max_dist = lit 3 1; max_head = metres 45 }

abbrev found : LaneMatch Micro
found = record {
  segment_id = "mid_wb1_e";
  kind = lane;
  distance_m = nought;
  heading_error_deg = nought;
  progress_s = metres 1;
  score = nought;
}

match_best_example :
    (inside_block loop.blocks (metres 1) nought ≡ ok false)
    × ((c : Candidate Micro) × Memᴰ c (candidates loop)
        × (judge matching (at 1 0) nought c ≡ ok (some found)))
    × All (Concedes matching (at 1 0) nought found) (candidates loop)
unfolding autonomous_rc_taxi.Mapping.Matcher.match inside_block
    autonomous_rc_taxi.Mapping.Matcher.best_passing autonomous_rc_taxi.Mapping.Matcher.passing
    candidates judge autonomous_rc_taxi.Mapping.Geometry.project_point autonomous_rc_taxi.Best.best
    autonomous_rc_taxi.Mapping.Geometry.heading_diff_deg
    autonomous_rc_taxi.Mapping.Geometry.heading_at
match_best_example = match_best matching loop (metres 1) nought nought Micro-IsOrdered refl

abbrev pub planned : Route Micro
planned = record {
  start_lane_id = "mid_wb1_e";
  destination_lane_id = "mid_wb1_w";
  segments =
      on_lane "mid_wb1_e" lane_a (at 1 0 ∷ at 4 0 ∷ []) (metres 3)
      ∷ on_connector "ab" road_ab
      ∷ on_lane "mid_wb1_w" lane_b (at 6 0 ∷ at 8 0 ∷ []) (metres 2)
      ∷ [];
  total_length_m = metres 7;
}

plan_via_numbers-Passes_example :
    (start : String) × (rest : List String) × (chain : List (String × String)) × (lane_ids
        (5 ∷ 6 ∷ [])
      ≡ ok (start ∷ rest))
    × Passes loop start rest chain
    × (segment_ids planned.segments ≡ start ∷ ids chain)
unfolding autonomous_rc_taxi.Navigation.Forced.plan_via_numbers num2id autonomous_rc_taxi.Keys.find
    autonomous_rc_taxi.Mapping.Geometry.trim
plan_via_numbers-Passes_example =
    plan_via_numbers-Passes loop (5 ∷ 6 ∷ []) (metres 1) (metres 2) refl

from_route_legs_example :
    (f : LaneRoute Micro) × (from_route planned ≡ ok f)
    × (leg_ids f.legs ≡ "mid_wb1_e" ∷ "mid_wb1_w" ∷ [])
    × (turn_ids f.turns ≡ "ab" ∷ [])
    × (suc (length f.turns) ≡ length f.legs)
from_route_legs_example =
    from_route_legs planned
      (Alternates.lane_and_turn _ _ _ _ _ refl refl refl (Alternates.last_lane _ _ _ refl refl))

num2id_iff_example : (num2id 5 ≡ some "mid_wb1_e") ↔ (id2num "mid_wb1_e" ≡ some 5)
num2id_iff_example = num2id_iff 5 "mid_wb1_e"

symmetric_num_involution_example : symmetric_num (some 11) ≡ some 5
unfolding symmetric_num
symmetric_num_involution_example = symmetric_num_involution 5 11 refl

abbrev legged : LaneRoute Micro
legged = record {
  legs =
      record {
        lane_id = "mid_wb1_e";
        lane_num = some 5;
        points = lane_a.centerline;
        speed_limit_mps = lane_a.speed_limit_mps;
        length_m = metres 4;
      }
      ∷ record {
        lane_id = "mid_wb1_w";
        lane_num = some 6;
        points = lane_b.centerline;
        speed_limit_mps = lane_b.speed_limit_mps;
        length_m = metres 3;
      }
      ∷ [];
  turns =
      record {
        connector_id = "ab";
        maneuver = straight;
        from_num = some 5;
        to_num = some 6;
        to_lane_id = "mid_wb1_w";
        radius_m = none;
        length_m = metres 2;
        entry_point = at 4 0;
        exit_point = at 6 0;
      }
      ∷ [];
  total_length_m = metres 9;
}

from_lane_numbers-Drives_example : Drives loop (5 ∷ 6 ∷ []) legged.legs legged.turns
unfolding autonomous_rc_taxi.Navigation.LaneRoute.Numbered.from_lane_numbers
    autonomous_rc_taxi.Navigation.Forced.joining autonomous_rc_taxi.Navigation.LaneRoute.new_route
    num2id autonomous_rc_taxi.Keys.find
from_lane_numbers-Drives_example = from_lane_numbers-Drives loop (5 ∷ 6 ∷ []) {r = legged} refl

abbrev stops : DestinationResolver Micro
stops = record { lanes = loop.lanes }

abbrev both_drawn : All Drawn (allowed loop.lanes)
both_drawn = ((at 0 0, at 4 0 ∷ [], refl), ((at 6 0, at 9 0 ∷ [], refl), tt))
