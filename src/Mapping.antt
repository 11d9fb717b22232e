-- ===== src/Mapping.antt =====
-- rc_car/mapping: polyline geometry, the lane graph and the map matcher.
pub mod Geometry
pub mod LaneMap
pub mod Matcher
