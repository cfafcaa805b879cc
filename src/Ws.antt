-- ===== src/Ws.antt =====
-- The websocket side of a node: ws/*.go.
pub mod Api
pub mod Handler
pub mod Hub
pub mod Auth
