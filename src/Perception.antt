-- ===== src/Perception.antt =====
-- rc_car/perception: what the car makes of the camera's results.
pub mod Seg
pub mod Marks
