-- ===== src/Sctp/Acked/Flight.antt =====
-- The bytes in flight of an association of transport/sctp, `getFlightSize` of SctpAssociationImpl.cpp.
use symphony_media_bridge.Common.{
  ℕ, ◌%◌, ◌^◌, ◌≤◌, ◌≡◌, ◌&&◌, List, ◌∷◌, if◌then◌else◌, ltb, u32_mod, add32, arith,
}
use symphony_media_bridge.Sctp.Outbound.{SentDataChunk}
use symphony_media_bridge.Sctp.Acked.{size_of, get_flight_size}

-- Of the retransmit timeout only the low 32 bits count: a chunk that has just been sent is in flight,
-- with the chunks behind it, exactly if the timeout modulo 2 ^ 32 ns is some time below 2 ^ 31 ns, about
-- 2.1 s. So nothing counts as in flight when the initial 2 s are doubled.
pub get_flight_size_just_sent :
    (timestamp timeout : ℕ) (c : SentDataChunk) (cs : List SentDataChunk)
    → c.transmit_time ≡ timestamp
    → 1 ≤ c.transmit_count
    → get_flight_size timestamp timeout (c ∷ cs) ≡ (
        if ltb 0 (timeout % u32_mod) && ltb (timeout % u32_mod) (2 ^ 31)
        then add32 (size_of c) (get_flight_size timestamp timeout cs)
        else 0)
unfolding get_flight_size
get_flight_size_just_sent timestamp timeout c cs now sent = ground (arith, now, sent)
