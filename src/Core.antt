-- ===== src/Core.antt =====
-- rc_car/core: the state enums, the immutable models, and the state store.
pub mod Enums
pub mod Models
pub mod Store
