-- ===== src/System.antt =====
-- The parts of the program together: what one part sends is what another one receives.
pub mod Delivery
pub mod Arriving
pub mod Quota
