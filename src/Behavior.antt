-- ===== src/Behavior.antt =====
-- rc_car/behavior: the worker that drives.
pub mod Driving
