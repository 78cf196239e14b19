-- ===== src/Codec.antt =====
-- codec/Vp8Header.h and codec/H264Header.h: what is read from and written to video payloads.
pub mod Vp8
pub mod H264
mod Tests
