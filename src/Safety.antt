-- ===== src/Safety.antt =====
-- rc_car/safety: the single gate of every motor output, and the watchdog of the workers.
pub mod Supervisor
pub mod Watchdog
