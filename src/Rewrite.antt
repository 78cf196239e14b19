-- ===== src/Rewrite.antt =====
-- bridge/engine/SsrcOutboundContext: the rewriting of forwarded RTP packets, so that a receiver
-- sees one continuous stream while the senders behind it change.
pub mod State
pub mod Audio
pub mod Video
mod Tests
