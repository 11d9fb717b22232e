-- ===== src/Network.antt =====
-- rc_car/network: messages of the control server, reports, and the policy of state transitions.
pub mod Messages
pub mod Reports
pub mod Policy
