-- ===== src/Director.antt =====
-- bridge/engine/EngineStreamDirector.h: which video packets are kept and to whom they are sent.
pub mod Streams
pub mod State
pub mod Participants
pub mod Pins
pub mod Quality
pub mod Forwarding
mod Tests
