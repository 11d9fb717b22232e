-- ===== src/Lib.antt =====
-- The control program of an autonomous RC taxi (rc_car/), which drives a small car over a track for
-- a control server. A position server reports where the car is; rc_car/localization checks its
-- messages and rc_car/core keeps the newest pose, the driving state and the mission in one store.
-- The control server's commands reach rc_car/network, whose policy moves the driving state; the
-- worker of rc_car/behavior plans a route over the lanes of rc_car/mapping with rc_car/navigation,
-- follows it and sends every command to the drivers of rc_car/hardware through the supervisor of
-- rc_car/safety, which alone decides what the motor and the servo get.
--
-- Files and what they model:
--   Core, Hardware, Safety       the store, the drivers, the supervisor and the watchdog. A method of
--                                a class is a function on a record of the object's fields; a lock
--                                makes a method one step.
--   Network                      messages.py (parse_command), report_manager.py, command_policy.py;
--                                `Vehicle` is what the policy's handlers change.
--   Mapping                      geometry.py, lane_map.py and map_matcher.py.
--   Navigation                   arrival_checker.py, destination_resolver.py, route_planner.py
--                                (Planner and Forced), lane_route.py (Numbers and LaneRoute) and
--                                turn_table.py (TurnTable).
--   Localization                 pose_validator.py (Validator), motion_estimator.py (Motion),
--                                dead_reckoner.py (Reckoner) and heading_estimator.py (Heading), over
--                                the motion model that both share (Bicycle); localization_service.py
--                                (Service).
--   Perception                   seg_adapter.py (Seg) and vision_marks.py (Marks).
--   Control                      lane_follower.py: Follower its state, Path the tracks of positions,
--                                Aim what a leg aims at, Steer the heading and the wheel, Corner the
--                                turns, Compute the calls; Compute/Machine the machine of its
--                                states that the calls are compared with. Legacy is
--                                rc_car/control/legacy/waypoint_follower.py.
--   Behavior                     driving_worker.py; the lane follower is an interface record.
--   Runtime                      rc_car/app/runtime.py and rc_car/workers/periodic_worker.py: the
--                                parts as initialize wires them, and the whole program as steps, in
--                                any order, of its clients' callbacks and its workers' rounds.
--   Prelude, Result, Floats,     shared: Boolean tests, exceptions as values, Python's floats with
--   Keys, Best, Worklist         the laws the theorems use, dictionaries, minimum loops, searches.
--   Tests                        the theorems at concrete inputs.
--
-- Bounds and fuel: the search for reachable lanes gets one round for each lane, which is proved
-- enough. The planner's search takes its rounds as an argument; twice as many as the lanes have
-- connectors, and one more, are proved enough, and so is the walk back over its result with one round
-- more than there are entries. The motion model's integration takes its rounds as an argument. A run
-- out of rounds is an error of its own. The lane follower's method for a leg calls itself on later
-- legs; it gets one call for each leg, which is proved enough.
--
-- Not modelled: the camera's models, the network clients' connections, the telemetry, reading YAML
-- files, the choice of drivers and logging. What two threads do at once inside one callback, tick or
-- output is not modelled: each is one step, though the source holds no lock over a tick of the
-- driving worker or an output of the supervisor. A round of the driving worker is two steps, the test
-- of the stop event and the tick, between which any other step may come. `json.loads` and `heapq` are
-- parameters; an error of `json.loads` that is not caught (RecursionError) and detections or axes of
-- the wrong type are left out. Floats are a parameter with the documented behaviour of comparisons.
pub mod Prelude
pub mod Floats
pub mod Core
pub mod Result
pub mod Hardware
pub mod Safety
pub mod Network
pub mod Best
pub mod Keys
pub mod Worklist
pub mod Mapping
pub mod Navigation
pub mod Localization
pub mod Perception
pub mod Control
pub mod Behavior
pub mod Runtime
pub mod Tests
