-- ===== src/Nack/Response.antt =====
-- bridge/engine/VideoNackReceiveJob.cpp: a request for packets answered on the retransmission
-- stream. A cached packet is the fields of its header that the answer touches, and its payload; the
-- rest of the header is copied.
pub mod Numbers
use symphony_media_bridge.Common.{
  ℕ, zero, suc, ◌+◌, ◌*◌, ◌/◌, ◌%◌, Bool, true, false, ◌&&◌, ◌||◌, not, Option, none, some, List,
  [], ◌∷◌, ◌++◌, if◌then◌else◌, ltb, ◌==◌, u16_mod, add16, add32, sub16, sub64, slt16,
}
use symphony_media_bridge.Nack.Cache.{PacketCache, get}

pub record RtpPacket : Type 0 where
  pub ssrc : ℕ
  pub payload_type : ℕ
  pub sequence_number : ℕ
  pub payload : List ℕ

-- The fields of SsrcOutboundContext that answering uses; the counter is `lastSent.sequenceNumber`.
pub record RtxContext : Type 0 where
  pub ssrc : ℕ
  pub payload_type : ℕ
  pub sequence_counter : ℕ
  pub last_key_frame_sequence_number : ℕ
  pub last_responded_nack_pid : ℕ
  pub last_responded_nack_blp : ℕ
  pub last_responded_nack_timestamp : ℕ

pub record Nack : Type 0 where
  pub pid : ℕ
  pub blp : ℕ
  pub timestamp : ℕ
  pub rtt : ℕ

-- The context, and the packets given to the transport, the first first.
pub record Answer : Type 0 where
  pub context : RtxContext
  pub sent : List RtpPacket

unfoldable pub precedes_key_frame : ℕ → ℕ → Bool
precedes_key_frame key_frame sequence_number = slt16 0 (sub16 (key_frame % u16_mod) sequence_number)

-- The original number goes before the payload, in two bytes.
abbrev pub retransmission : RtxContext → RtpPacket → RtpPacket
retransmission c p = record {
  ssrc = c.ssrc;
  payload_type = c.payload_type;
  sequence_number = add32 c.sequence_counter 1 % u16_mod;
  payload = (p.sequence_number / 256 % 256) ∷ (p.sequence_number % 256) ∷ p.payload;
}

-- `allocated` says for which numbers the allocator has a packet left.
unfoldable pub send_if_cached : PacketCache RtpPacket → (ℕ → Bool) → Answer → ℕ → Answer
send_if_cached cache allocated a sequence_number =
    if precedes_key_frame a.context.last_key_frame_sequence_number sequence_number
    then a
    else (elim (get cache sequence_number) [
      | none ↦ a
      | some p ↦ if not (allocated sequence_number) then a else record {
        context = record a.context { sequence_counter = add32 a.context.sequence_counter 1 };
        sent = a.sent ++ (retransmission a.context p ∷ []);
      }
    ])

-- The loop ends when no bit is left: sixteen rounds are enough for a sixteen bit word.
unfoldable pub send_following : PacketCache RtpPacket → (ℕ → Bool) → ℕ → Answer → ℕ → ℕ → Answer
send_following cache allocated zero a sequence_number blp = a
send_following cache allocated (suc fuel) a sequence_number blp =
    let next = add16 sequence_number 1 in
    let a' = if blp % 2 == 1 then send_if_cached cache allocated a next else a in
    let rest = send_following cache allocated fuel a' next (blp / 2) in if blp == 0 then a else rest

abbrev pub is_repeated : RtxContext → Nack → Bool
is_repeated c n =
    n.pid == c.last_responded_nack_pid
    && n.blp == c.last_responded_nack_blp
    && ltb (sub64 n.timestamp c.last_responded_nack_timestamp) n.rtt

unfoldable pub run :
    (connected : Bool) → Option (PacketCache RtpPacket) → (ℕ → Bool) → RtxContext → Nack → Answer
run connected cache allocated c n =
    let unanswered : Answer = record { context = c; sent = [] } in
    let noted : RtxContext = record c {
      last_responded_nack_pid = n.pid;
      last_responded_nack_blp = n.blp;
      last_responded_nack_timestamp = n.timestamp;
    } in
    (elim cache [
      | none ↦ unanswered
      | some packets ↦
          if not connected || is_repeated c n
          then unanswered
          else let first : Answer =
              send_if_cached packets allocated (record { context = noted; sent = [] }) n.pid in
            send_following packets allocated 16 first n.pid n.blp
    ])
