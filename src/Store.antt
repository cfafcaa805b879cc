-- ===== src/Store.antt =====
-- The event store: store/util.go and store/event.go.
pub mod Bits
pub mod Base64
pub mod ReadStates
pub mod Events
pub mod Queries
