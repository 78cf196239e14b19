-- ===== src/Sctp/Handshake.antt =====
-- How an association of transport/sctp is set up: SctpServerPort.cpp and the handshake of
-- SctpAssociationImpl.cpp. A packet is the chunk that it carries, behind the verification tag; ports
-- and checksums are left to the caller. The code of a cookie's signature is a parameter.
pub mod Setup
pub mod Timeouts
use symphony_media_bridge.Common.{
  ℕ, suc, ◌+◌, ◌-◌, ◌*◌, ◌%◌, ◌^◌, Bool, true, false, not, ◌&&◌, ◌||◌, Option, none, some, List, [],
  ◌∷◌, if◌then◌else◌, ltb, leb, ◌==◌, min, u32_mod, u64_mod, sub32, add64, sub64, sle64,
}
use symphony_media_bridge.Missing.{ms}
use symphony_media_bridge.Sctp.{
  State, closed, cookie_wait, cookie_echoed, established, shutdown_ack_sent,
}

-- The values of SctpConfig.h, in bytes and in milliseconds.
abbrev pub receive_window : ℕ
receive_window = 65536

abbrev pub cookie_life_time : ℕ
cookie_life_time = 60000

abbrev pub init_timeout : ℕ
init_timeout = 400

abbrev pub max_retransmits : ℕ
max_retransmits = 8

abbrev pub initial_rto : ℕ
initial_rto = 2000

abbrev pub max_rto : ℕ
max_rto = 10000

-- `TransmissionControlBlock`.
pub record Endpoint : Type 0 where
  pub tag : ℕ
  pub tie_tag : ℕ
  pub tsn : ℕ
  pub advertised_receive_window : ℕ
  pub inbound_stream_count : ℕ
  pub outbound_stream_count : ℕ
  pub cumulative_ack : ℕ

abbrev pub new_endpoint : ℕ → ℕ → ℕ → ℕ → Endpoint
new_endpoint tag window inbound_streams outbound_streams = record {
  tag = tag;
  tie_tag = 0;
  tsn = tag;
  advertised_receive_window = window;
  inbound_stream_count = inbound_streams;
  outbound_stream_count = outbound_streams;
  cumulative_ack = 0;
}

pub record Cookie : Type 0 where
  pub timestamp : ℕ
  pub local_tag : ℕ
  pub peer_tag : ℕ
  pub local_tie_tag : ℕ
  pub peer_tie_tag : ℕ
  pub peer_tsn : ℕ
  pub peer_receive_window : ℕ
  pub inbound_streams : ℕ
  pub outbound_streams : ℕ

pub record SignedCookie : Type 0 where
  pub cookie : Cookie
  pub hmac : ℕ

pub record InitChunk : Type 0 where
  pub init_tag : ℕ
  pub init_tsn : ℕ
  pub advertised_receiver_window : ℕ
  pub inbound_streams : ℕ
  pub outbound_streams : ℕ

-- The first number is the verification tag. An INIT_ACK may have a cookie, with its size in bytes.
pub data Packet : Type 0 where
  init : ℕ → InitChunk → Packet
  init_ack : ℕ → InitChunk → Option (ℕ × SignedCookie) → Packet
  cookie_echo : ℕ → SignedCookie → Packet
  cookie_ack : ℕ → Packet

-- A timer that runs has the time at which it expires. `backoff` is a power of 2.
pub record Association : Type 0 where
  pub state : State
  pub local : Endpoint
  pub peer : Endpoint
  pub retransmit_count : ℕ
  pub init_timer : Option ℕ
  pub cookie_timer : Option ℕ
  pub echoed_cookie : Option SignedCookie
  pub backoff : ℕ

abbrev pub start_ms : ℕ → ℕ → Option ℕ
start_ms timestamp timeout_ms = some (add64 timestamp (min (max_rto * ms) (timeout_ms * ms)))

abbrev pub has_expired : Option ℕ → ℕ → Bool
has_expired none timestamp = false
has_expired (some expires) timestamp = sle64 (sub64 expires timestamp) 0

-- The constructor for the side that connects, with the number that it draws.
unfoldable pub new_association : ℕ → Association
new_association drawn =
    let local = new_endpoint drawn receive_window 1 1 in
    record {
      state = closed;
      local = record local { tag = if drawn == 0 then 1 else drawn };
      peer = record (new_endpoint 0 0 0 0) { cumulative_ack = sub32 drawn 1 };
      retransmit_count = 0;
      init_timer = none;
      cookie_timer = none;
      echoed_cookie = none;
      backoff = 1;
    }

abbrev pub send_init : Association → Packet
send_init a = init 0 (record {
  init_tag = a.local.tag;
  init_tsn = a.local.tsn;
  advertised_receiver_window = receive_window;
  inbound_streams = a.local.inbound_stream_count;
  outbound_streams = a.local.outbound_stream_count;
})

unfoldable pub connect : Association → ℕ → ℕ → ℕ → Association × Packet
connect a inbound_streams outbound_streams timestamp =
    let b : Association = record a {
      local = record (a.local) {
        inbound_stream_count = inbound_streams;
        outbound_stream_count = outbound_streams;
      };
    } in
    (record b { init_timer = start_ms timestamp init_timeout; state = cookie_wait }, send_init b)

abbrev is_state : State → State → Bool
is_state cookie_wait cookie_wait = true
is_state cookie_echoed cookie_echoed = true
is_state _ _ = false

abbrev pub in_cookie_wait : Association → Bool
in_cookie_wait a = is_state cookie_wait a.state

abbrev pub in_cookie_echoed : Association → Bool
in_cookie_echoed a = is_state cookie_echoed a.state

-- The buffer of the echoed cookie has 512 bytes.
unfoldable pub on_init_ack :
    Association → InitChunk → Option (ℕ × SignedCookie) → ℕ → Association × Option Packet
on_init_ack a chunk param timestamp =
    if not (in_cookie_wait a)
    then (a, none)
    else let b : Association = record a {
      peer = record (a.peer) {
        tag = chunk.init_tag;
        tsn = chunk.init_tsn;
        advertised_receive_window = chunk.advertised_receiver_window;
      };
      local = record (a.local) { cumulative_ack = sub32 chunk.init_tsn 1 };
    } in
      (elim param [
        | none ↦ (b, none)
        | some (size, cookie) ↦ if ltb 512 size then (record b { state = closed }, none) else (
          record b {
            echoed_cookie = some cookie;
            retransmit_count = 0;
            init_timer = none;
            cookie_timer = start_ms timestamp init_timeout;
            state = cookie_echoed;
          },
          some (cookie_echo b.peer.tag cookie),
        )
      ])

unfoldable pub on_cookie_ack_received : Association → Association
on_cookie_ack_received a =
    if in_cookie_echoed a then record a { state = established; cookie_timer = none } else a

-- A cookie that is echoed to an association that there is already: cases (B) and (D) of the comments,
-- and the others, which change nothing.
unfoldable pub on_unexpected_cookie_echo :
    Association → ℕ → SignedCookie → Association × Option Packet
on_unexpected_cookie_echo a verification_tag signed =
    let cookie = signed.cookie in
    let own = cookie.local_tag == a.local.tag in
    let theirs = cookie.peer_tag == a.peer.tag in
    if own && verification_tag == a.local.tag && not theirs
    then (
      record a { peer = record (a.peer) { tag = cookie.peer_tag }; state = established },
      some (cookie_ack cookie.peer_tag),
    )
    else if own && theirs && in_cookie_echoed a
    then (record a { state = established }, some (cookie_ack a.peer.tag))
    else (a, none)

-- The two timers of `processTimeout` that the handshake has, and what is sent again.
unfoldable pub process_cookie_timeout : Association → ℕ → Association × Option Packet
process_cookie_timeout a timestamp =
    if not (has_expired a.cookie_timer timestamp)
    then (a, none)
    else if not (in_cookie_echoed a)
    then (record a { cookie_timer = none }, none)
    else if ltb a.retransmit_count max_retransmits
    then (
      record a {
        retransmit_count = a.retransmit_count + 1;
        backoff = a.backoff * 2;
        cookie_timer = start_ms timestamp (a.backoff * 2 * initial_rto);
      },
      elim a.echoed_cookie [ none ↦ none | some cookie ↦ some (cookie_echo a.peer.tag cookie) ],
    )
    else (record a { cookie_timer = none; state = closed }, none)

unfoldable pub process_init_timeout : Association → ℕ → Association × Option Packet
process_init_timeout a timestamp =
    if not (has_expired a.init_timer timestamp)
    then (a, none)
    else if ltb a.retransmit_count max_retransmits && in_cookie_wait a
    then (
      record a {
        retransmit_count = a.retransmit_count + 1;
        backoff = a.backoff * 2;
        init_timer = start_ms timestamp (a.backoff * 2 * initial_rto);
      },
      some (send_init a),
    )
    else (record a { init_timer = none; state = closed }, none)

-- The constructor for a cookie that is echoed, with the answer of `onCookieEcho`.
unfoldable pub accept_cookie_echo : ℕ → SignedCookie → Association × Packet
accept_cookie_echo verification_tag signed =
    let cookie = signed.cookie in
    (
      record {
        state = established;
        local = record (new_endpoint verification_tag receive_window 0 0) {
          inbound_stream_count = cookie.inbound_streams;
          outbound_stream_count = cookie.outbound_streams;
          cumulative_ack = sub32 cookie.peer_tsn 1;
        };
        peer = record (new_endpoint 0 0 0 0) {
          tag = cookie.peer_tag;
          tsn = cookie.peer_tsn;
          advertised_receive_window = cookie.peer_receive_window;
          cumulative_ack = sub32 verification_tag 1;
        };
        retransmit_count = 0;
        init_timer = none;
        cookie_timer = none;
        echoed_cookie = none;
        backoff = 1;
      },
      cookie_ack cookie.peer_tag,
    )

-- The signature of a cookie by a key, for a port.
module _ (hmac : ℕ → Cookie → ℕ → ℕ) where
  -- `onInitReceived` of the port, with the tag that it draws and the numbers of streams that the
  -- listener accepts; 64 bytes are the size of a cookie.
  unfoldable pub on_init_received : ℕ → ℕ → InitChunk → ℕ → ℕ → Option (ℕ × ℕ) → Option Packet
  on_init_received key source_port chunk timestamp local_tag accepted = elim accepted [
    | none ↦ none
    | some (inbound_streams, outbound_streams) ↦
        if inbound_streams == 0 && outbound_streams == 0
        then none
        else let cookie : Cookie = record {
          timestamp = timestamp;
          local_tag = local_tag;
          peer_tag = chunk.init_tag;
          local_tie_tag = 0;
          peer_tie_tag = 0;
          peer_tsn = chunk.init_tsn;
          peer_receive_window = chunk.advertised_receiver_window;
          inbound_streams = inbound_streams;
          outbound_streams = outbound_streams;
        } in
          let signed : SignedCookie = record {
            cookie = cookie;
            hmac = hmac key cookie source_port;
          } in
          some (
            init_ack chunk.init_tag
              (record {
                init_tag = local_tag;
                init_tsn = local_tag;
                advertised_receiver_window = receive_window;
                inbound_streams = inbound_streams;
                outbound_streams = outbound_streams;
              })
              (some (64, signed)))
  ]

  -- `onCookieEchoReceived` of the port: whether the cookie is handed on.
  unfoldable pub on_cookie_echo_received : ℕ → ℕ → ℕ → SignedCookie → ℕ → Bool
  on_cookie_echo_received key1 key2 source_port signed timestamp =
      let cookie = signed.cookie in
      not (ltb (cookie_life_time * ms) (sub64 timestamp cookie.timestamp))
      && (signed.hmac == hmac key1 cookie source_port
          || signed.hmac == hmac key2 cookie source_port)
