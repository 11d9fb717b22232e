-- ===== src/Localization.antt =====
-- rc_car/localization: what is made of the messages of the position server.
pub mod Motion
pub mod Validator
pub mod Bicycle
pub mod Reckoner
pub mod Heading
pub mod Service
