-- ===== src/Control.antt =====
-- rc_car/control/lane_follower.py: driving a route of lanes; Legacy is the follower of rc_car/control/
-- legacy. Their logs are left out, and with them the fields that only the logs read; so is the
-- environment variable that selects the legacy follower.
pub mod Follower
pub mod Path
pub mod Aim
pub mod Steer
pub mod Corner
pub mod Compute
pub mod Legacy
