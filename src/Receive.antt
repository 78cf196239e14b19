-- ===== src/Receive.antt =====
-- Video that arrives at the bridge: bridge/engine/SsrcInboundContext.h and PliScheduler.h, and the
-- jobs of bridge/engine that receive packets and ask for the missing ones. Decryption is in the hands
-- of the transport, whose answers are arguments.
pub mod Video
pub mod Retransmitted
pub mod Send
pub mod Counters
mod Tests
use symphony_media_bridge.Common.{
  ℕ, zero, suc, ◌+◌, ◌*◌, ◌/◌, ◌%◌, ◌^◌, Bool, true, false, not, ◌&&◌, ◌||◌, Option, none, some,
  List, [], ◌∷◌, if◌then◌else◌, ltb, leb, ◌==◌, u16_mod, u32_mod, add32, sub64, sle64,
}
use symphony_media_bridge.Common.Maps.{Map}
use symphony_media_bridge.Missing.{Entry, ms}
use symphony_media_bridge.Rewrite.State.{RtpMap}

pub record PliScheduler : Type 0 where
  pub key_frame_needed : Bool
  pub pli_send_time : ℕ

abbrev pub new_pli_scheduler : PliScheduler
new_pli_scheduler = record { key_frame_needed = false; pli_send_time = 0 }

abbrev pub on_pli_sent : PliScheduler → ℕ → PliScheduler
on_pli_sent p timestamp = record p { pli_send_time = timestamp }

abbrev pub on_key_frame_received : PliScheduler → PliScheduler
on_key_frame_received p = record { key_frame_needed = false; pli_send_time = 0 }

abbrev pub trigger_pli : PliScheduler → PliScheduler
trigger_pli p = record p { key_frame_needed = true }

unfoldable pub should_send_pli : PliScheduler → ℕ → ℕ → Bool
should_send_pli p timestamp rtt_ms =
    let delay : ℕ = (rtt_ms + 140) % u32_mod * ms in
    p.key_frame_needed && (p.pli_send_time == 0 || sle64 delay (sub64 timestamp p.pli_send_time))

-- The variables of the transport's thread, and the scheduler.
pub record Inbound : Type 0 where
  pub ssrc : ℕ
  pub rtp_map : RtpMap
  pub last_received_extended_sequence_number : ℕ
  pub has_decrypted_packets : Bool
  pub last_unprotected_extended_sequence_number : ℕ
  pub roc_offset : ℕ
  pub tracker : Option (Map Entry)
  pub pli_scheduler : PliScheduler

abbrev pub new_inbound : ℕ → RtpMap → Inbound
new_inbound ssrc rtp_map = record {
  ssrc = ssrc;
  rtp_map = rtp_map;
  last_received_extended_sequence_number = 0;
  has_decrypted_packets = false;
  last_unprotected_extended_sequence_number = 0;
  roc_offset = 0;
  tracker = none;
  pli_scheduler = new_pli_scheduler;
}

-- What the transport answers for one packet: `unprotectFirstRtp` with the offset that it leaves,
-- `setSrtpRemoteRolloverCounter` and `unprotect`.
pub record Srtp : Type 0 where
  pub first_opened : Bool
  pub roc_offset : ℕ
  pub counter_set : Bool
  pub opened : Bool

-- `shouldSetRolloverCounter` of transport/dtls/SrtpClient.cpp.
unfoldable pub should_set_rollover_counter : ℕ → ℕ → Bool
should_set_rollover_counter previous sequence_number =
    if ltb sequence_number u16_mod && ltb previous u16_mod
    then false
    else not (previous / 2 ^ 15 == sequence_number / 2 ^ 15)

-- The context, whether the packet is open, and the rollover counter that the transport was given.
unfoldable pub try_unprotect_rtp_packet : Inbound → ℕ → Srtp → Inbound × Bool × Option ℕ
try_unprotect_rtp_packet c extended srtp =
    if not c.has_decrypted_packets
    then (let d : Inbound = record c { roc_offset = srtp.roc_offset } in
        if srtp.first_opened
        then (
          record d {
            last_unprotected_extended_sequence_number = extended;
            has_decrypted_packets = true;
          },
          true,
          none,
        )
        else (d, false, none))
    else let sets : Bool =
        should_set_rollover_counter c.last_unprotected_extended_sequence_number extended in
      let counter : Option ℕ =
        if sets then some (add32 c.roc_offset (extended / u16_mod)) else none in
      if sets && not srtp.counter_set
      then (c, false, counter)
      else if not srtp.opened
      then (c, false, counter)
      else (record c { last_unprotected_extended_sequence_number = extended }, true, counter)
