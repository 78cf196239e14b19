-- ===== src/Nack.antt =====
-- Retransmission requests: rtp/RtcpNackBuilder.cpp writes them, rtp/RtcpFeedback.cpp reads them and
-- bridge/engine/VideoNackReceiveJob.cpp answers them from bridge/engine/PacketCache.cpp.
pub mod Bits
pub mod Builder
pub mod Cache
pub mod Response
mod Tests
