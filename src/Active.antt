-- ===== src/Active.antt =====
-- bridge/engine/ActiveMediaList.cpp: who speaks and who is seen, and the SSRCs on which they are sent.
mod Tests
pub mod Entries
pub mod Listed
pub mod State
pub mod Audio
pub mod Video
pub mod Process
