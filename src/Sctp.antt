-- ===== src/Sctp.antt =====
-- transport/sctp: the association that carries the data channels of WebRTC. A chunk is a record of
-- its fields; checksums, byte layout and the signatures of cookies are left to their parsers.
pub mod Inbound
pub mod Outbound
pub mod Flow
pub mod Sack
pub mod Acked
pub mod Handshake
mod Tests
use symphony_media_bridge.Common.{ℕ, ◌+◌, ◌-◌, ◌%◌, ◌^◌, Bool, true, false, List, [], sub32}

-- In the order of their values.
pub data State : Type 0 where
  closed : State
  cookie_wait : State
  cookie_echoed : State
  established : State
  shutdown_pending : State
  shutdown_sent : State
  shutdown_received : State
  shutdown_ack_sent : State

-- The comparison with ESTABLISHED.
abbrev pub is_established : State → Bool
is_established closed = false
is_established cookie_wait = false
is_established cookie_echoed = false
is_established _ = true

-- `diff`, a signed word.
abbrev pub diff : ℕ → ℕ → ℕ
diff a b = sub32 b a

pub record DataChunk : Type 0 where
  pub transmission_sequence_number : ℕ
  pub stream_id : ℕ
  pub stream_sequence_number : ℕ
  pub payload_protocol : ℕ
  pub fragment_begin : Bool
  pub fragment_end : Bool
  pub payload : List ℕ
