-- ===== src/Calls.antt =====
-- internal/calls: the live calls of the backend (signaling, rooms, media routing, history).
pub mod Errors
pub mod Types
pub mod Protocol
pub mod Tracks
pub mod Room
pub mod Routes
pub mod Hub
pub mod Session
pub mod History
mod Tests
