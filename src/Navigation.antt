-- ===== src/Navigation.antt =====
-- rc_car/navigation: lane routes, the planner, the arrival check and the destination.
pub mod Arrival
pub mod Resolver
pub mod Planner
pub mod Numbers
pub mod LaneRoute
pub mod Forced
pub mod TurnTable
