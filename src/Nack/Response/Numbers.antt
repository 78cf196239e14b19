-- ===== src/Nack/Response/Numbers.antt =====
-- Which packets bridge/engine/VideoNackReceiveJob.cpp sends for a request.
use symphony_media_bridge.Common.{
  ℕ, zero, suc, ◌+◌, ◌%◌, Bool, none, some, List, [], ◌∷◌, if◌then◌else◌, u16_mod, add32,
}
use symphony_media_bridge.Nack.Bits.{bit}
use symphony_media_bridge.Nack.Cache.{PacketCache, get}
use symphony_media_bridge.Nack.Response.{
  RtpPacket, RtxContext, Nack, Answer, precedes_key_frame, retransmission, send_if_cached,
}

-- The numbers base + k + 1 of the bits k that are set in blp, from bit i on, of n bits.
abbrev pub following : ℕ → ℕ → ℕ → ℕ → List ℕ
following zero i base blp = []
following (suc n) i base blp =
    if bit i blp
    then ((base + i + 1) % u16_mod) ∷ following n (i + 1) base blp
    else following n (i + 1) base blp

-- The numbers that a request asks for, in the order in which it names them.
abbrev pub requested : ℕ → ℕ → List ℕ
requested pid blp = pid ∷ following 16 0 pid blp

abbrev pub send_all : PacketCache RtpPacket → (ℕ → Bool) → Answer → List ℕ → Answer
send_all cache allocated a [] = a
send_all cache allocated a (x ∷ xs) =
    send_all cache allocated (send_if_cached cache allocated a x) xs

-- The packets of these numbers that can be sent: cached, not older than the last key frame, and
-- with memory for the copy.
abbrev pub answerable : PacketCache RtpPacket → (ℕ → Bool) → ℕ → List ℕ → List RtpPacket
answerable cache allocated key_frame [] = []
answerable cache allocated key_frame (x ∷ xs) =
    let rest = answerable cache allocated key_frame xs in
    if precedes_key_frame key_frame x
    then rest
    else (elim (get cache x) [ none ↦ rest | some p ↦ if allocated x then p ∷ rest else rest ])

-- The retransmissions of packets, numbered one after the other.
abbrev pub numbered : RtxContext → List RtpPacket → List RtpPacket
numbered c [] = []
numbered c (p ∷ ps) =
    retransmission c p ∷ numbered (record c { sequence_counter = add32 c.sequence_counter 1 }) ps

-- What it leaves of the context: one number is used for each.
abbrev pub counted : RtxContext → List RtpPacket → RtxContext
counted c [] = c
counted c (p ∷ ps) = counted (record c { sequence_counter = add32 c.sequence_counter 1 }) ps

-- The context with the request noted as the last one that was answered.
abbrev pub noted : Nack → RtxContext → RtxContext
noted n c = record c {
  last_responded_nack_pid = n.pid;
  last_responded_nack_blp = n.blp;
  last_responded_nack_timestamp = n.timestamp;
}
