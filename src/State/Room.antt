-- ===== src/State/Room.antt =====
-- Laws of a single room of syncpond-server/src/state.rs.
pub mod Consistent
pub mod Draining
pub mod CatchUp
pub mod Bodies
