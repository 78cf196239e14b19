-- ===== src/Sctp/Handshake/Setup.antt =====
-- The handshake of two associations of transport/sctp.
use symphony_media_bridge.Common.{
  ℕ, ◌+◌, ◌*◌, ◌≤◌, ◌<◌, ◌≡◌, refl, sym, ap, true, false, ◌&&◌, ◌||◌, Option, none, some,
  if◌then◌else◌, ltb, ◌==◌, ==_iff, u64_mod, sub32, sub64, arith, Bool-cases, inl, inr,
}
use symphony_media_bridge.Missing.{ms}
use symphony_media_bridge.Sctp.{established}
use symphony_media_bridge.Sctp.Handshake.{
  Association, Cookie, Packet, init, init_ack, cookie_echo, new_association, connect, on_init_ack,
  on_cookie_ack_received, accept_cookie_echo, on_init_received, on_cookie_echo_received,
  cookie_life_time, receive_window,
}

-- What the two ends draw and the times of their packets: of the INIT, its answer, the receipt of
-- that and the receipt of the cookie.
pub record Course : Type 0 where
  pub drawn : ℕ
  pub peer_drawn : ℕ
  pub source_port : ℕ
  pub connected : ℕ
  pub answered : ℕ
  pub echoed : ℕ
  pub verified : ℕ

module _ (hmac : ℕ → Cookie → ℕ → ℕ) (key key1 key2 : ℕ) (h : Course) where
  -- The receipt of the cookie at the port, and of its answer.
  abbrev pub finish : Association → Option Packet → Option (Association × Association)
  finish a (some (cookie_echo tag signed)) =
      if on_cookie_echo_received hmac key1 key2 h.source_port signed h.verified
      then some (on_cookie_ack_received a, (accept_cookie_echo tag signed).0)
      else none
  finish a _ = none

  abbrev pub answer : Association → Option Packet → Option (Association × Association)
  answer a (some (init_ack tag chunk param)) =
      let (b, echo) = on_init_ack a chunk param h.echoed in finish b echo
  answer a _ = none

  abbrev pub ask : Association → Packet → Option (ℕ × ℕ) → Option (Association × Association)
  ask a (init tag chunk) accepted =
      answer a (on_init_received hmac key h.source_port chunk h.answered h.peer_drawn accepted)
  ask a _ accepted = none

  abbrev pub handshake : ℕ → ℕ → Option (ℕ × ℕ) → Option (Association × Association)
  handshake inbound_streams outbound_streams accepted =
      let (a, packet) =
        connect (new_association h.drawn) inbound_streams outbound_streams h.connected in
      ask a packet accepted

is_known :
    (hmac : ℕ → Cookie → ℕ → ℕ) (key key1 key2 source_port : ℕ) (cookie : Cookie)
    → (key == key1 || key == key2) ≡ true
    → let code = hmac key cookie source_port in
      (code == hmac key1 cookie source_port || code == hmac key2 cookie source_port) ≡ true
is_known hmac key key1 key2 source_port cookie known = elim (Bool-cases (key == key1)) [
  | inl this ↦
      let e : hmac key1 cookie source_port ≡ hmac key cookie source_port =
        ap (λ (k : ℕ). hmac k cookie source_port) (sym ((==_iff key key1).0 this)) in
      rw e (ground arith)
  | inr other ↦
      let this : (key == key2) ≡ true = ground (arith, known, other) in
      let e : hmac key2 cookie source_port ≡ hmac key cookie source_port =
        ap (λ (k : ℕ). hmac k cookie source_port) (sym ((==_iff key key2).0 this)) in
      rw e (ground arith)
]

-- The four packets of the handshake, none of them lost, establish both associations. Each has the tag of
-- the other and expects its first number, and takes the window that the other offers. The listener
-- accepts some streams, the key by which the cookie was signed is one of the two that the port still
-- has, and the cookie comes back within its life time.
pub handshake_establishes :
    (hmac : ℕ → Cookie → ℕ → ℕ) (key key1 key2 : ℕ) (h : Course)
    (inbound_streams outbound_streams accepted_in accepted_out : ℕ)
    → (accepted_in == 0 && accepted_out == 0) ≡ false
    → (key == key1 || key == key2) ≡ true
    → h.answered ≤ h.verified
    → h.verified ≤ h.answered + cookie_life_time * ms
    → h.verified < u64_mod
    → (a : Association) × (b : Association) × (handshake hmac key key1 key2 h inbound_streams
          outbound_streams
          (some (accepted_in, accepted_out))
        ≡ some (a, b))
      × (a.state ≡ established)
      × (b.state ≡ established)
      × (a.peer.tag ≡ b.local.tag)
      × (b.peer.tag ≡ a.local.tag)
      × (a.local.cumulative_ack ≡ sub32 b.local.tsn 1)
      × (b.local.cumulative_ack ≡ sub32 a.local.tsn 1)
      × (a.peer.advertised_receive_window ≡ b.local.advertised_receive_window)
      × (b.peer.advertised_receive_window ≡ a.local.advertised_receive_window)
unfolding new_association connect on_init_received on_init_ack on_cookie_echo_received
    on_cookie_ack_received accept_cookie_echo
handshake_establishes hmac key key1 key2 h inbound_streams outbound_streams accepted_in accepted_out
      some_streams known order fresh word =
    let in_time : ltb (cookie_life_time * ms) (sub64 h.verified h.answered) ≡ false =
      ground (arith, order, fresh, word) in
    let cookie : Cookie = record {
      timestamp = h.answered;
      local_tag = h.peer_drawn;
      peer_tag = if h.drawn == 0 then 1 else h.drawn;
      local_tie_tag = 0;
      peer_tie_tag = 0;
      peer_tsn = h.drawn;
      peer_receive_window = receive_window;
      inbound_streams = accepted_in;
      outbound_streams = accepted_out;
    } in
    let signature = is_known hmac key key1 key2 h.source_port cookie known in
    rw (some_streams, in_time, signature)
      (_, _, refl, refl, refl, refl, refl, refl, refl, refl, refl)
