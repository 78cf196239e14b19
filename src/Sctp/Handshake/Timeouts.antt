-- ===== src/Sctp/Handshake/Timeouts.antt =====
-- An association of transport/sctp whose peer does not answer.
use symphony_media_bridge.Common.{
  ℕ, zero, suc, ◌+◌, ◌*◌, ◌<◌, ◌≡◌, refl, ap, ◌∙◌, true, false, not, ◌&&◌, Option, none, some, List,
  [], ◌∷◌, ltb, length, u64_mod, arith,
}
use symphony_media_bridge.Sctp.{closed, cookie_wait}
use symphony_media_bridge.Sctp.Handshake.{
  Association, Packet, connect, process_init_timeout, in_cookie_wait, has_expired, max_retransmits,
  initial_rto, start_ms, send_init, new_association,
}

-- The timer runs out so many times, and this is what is sent.
unfoldable pub expire : ℕ → Association → Association × List Packet
expire zero a = (a, [])
expire (suc n) a = elim a.init_timer [
  | none ↦ (a, [])
  | some expires ↦
      let (b, packet) = process_init_timeout a expires in
      let (c, packets) = expire n b in (c, elim packet [ none ↦ packets | some p ↦ p ∷ packets ])
]

expire_zero : (a : Association) → expire 0 a ≡ (a, [])
unfolding expire
expire_zero a = refl

expire-some :
    (n e : ℕ) (a b : Association) (packet : Option Packet)
    → a.init_timer ≡ some e
    → process_init_timeout a e ≡ (b, packet)
    → expire (suc n) a
      ≡ ((expire n b).0, elim packet [ none ↦ (expire n b).1 | some p ↦ p ∷ (expire n b).1 ])
unfolding expire
expire-some n e a b packet runs does =
    rw (runs, expire)
      (ap
        (λ (r : Association × Option Packet).
          ((expire n r.0).0, elim r.1 [ none ↦ (expire n r.0).1 | some p ↦ p ∷ (expire n r.0).1 ]))
        does)

abbrev IsTrying : ℕ → Association → Type 0
IsTrying n a =
    (a.state ≡ cookie_wait)
    × (a.retransmit_count ≡ n)
    × (a.cookie_timer ≡ none)
    × (e : ℕ) × (a.init_timer ≡ some e)
    × (e < u64_mod)

expired_now : (e : ℕ) → e < u64_mod → has_expired (some e) e ≡ true
expired_now e word = ground (arith, word)

-- The association that has tried once more.
abbrev tried : Association → ℕ → Association
tried a e = record a {
  retransmit_count = a.retransmit_count + 1;
  backoff = a.backoff * 2;
  init_timer = start_ms e (a.backoff * 2 * initial_rto);
}

process-retry :
    (n e : ℕ) (a : Association)
    → a.state ≡ cookie_wait
    → a.retransmit_count ≡ n
    → a.init_timer ≡ some e
    → e < u64_mod
    → n < max_retransmits
    → process_init_timeout a e ≡ (tried a e, some (send_init a))
unfolding process_init_timeout
process-retry n e a waits count runs word few =
    let now : not (has_expired a.init_timer e) ≡ false =
      ap (λ (t : Option ℕ). not (has_expired t e)) runs ∙ ap not (expired_now e word) in
    let again : (ltb a.retransmit_count max_retransmits && in_cookie_wait a) ≡ true =
      ground (arith, count, few, waits) in
    rw (now, again) refl

process-stop :
    (e : ℕ) (a : Association)
    → a.retransmit_count ≡ max_retransmits
    → a.init_timer ≡ some e
    → e < u64_mod
    → process_init_timeout a e ≡ (record a { init_timer = none; state = closed }, none)
unfolding process_init_timeout
process-stop e a count runs word =
    let now : not (has_expired a.init_timer e) ≡ false =
      ap (λ (t : Option ℕ). not (has_expired t e)) runs ∙ ap not (expired_now e word) in
    let enough : (ltb a.retransmit_count max_retransmits && in_cookie_wait a) ≡ false =
      ground (arith, count) in
    rw (now, enough) refl

gives_up :
    (k n : ℕ) (a : Association)
    → IsTrying n a
    → n + k ≡ max_retransmits
    → let (b, packets) = expire (suc k) a in
      (b.state ≡ closed) × (b.init_timer ≡ none) × (b.cookie_timer ≡ none) × (length packets ≡ k)
gives_up zero n a (waits, count, quiet, e, runs, word) total =
    let stops = process-stop e a (omega (arith, count, total)) runs word in
    let b : Association = record a { init_timer = none; state = closed } in
    let ends = expire_zero b in
    let step = expire-some 0 e a b none runs stops in rw (step, ends) (refl, refl, quiet, refl)
gives_up (suc k) n a (waits, count, quiet, e, runs, word) total =
    let again = process-retry n e a waits count runs word (omega (arith, total)) in
    let step = expire-some (suc k) e a (tried a e) (some (send_init a)) runs again in
    let (closes, stops, silent, sent) =
      gives_up k (suc n) (tried a e) (waits, omega (arith, count), quiet, _, refl, omega arith)
        (omega (arith, total)) in
    rw step (closes, stops, silent, omega (arith, sent))

-- An association whose INIT is never answered sends it 8 times more and then closes, when its timer
-- has run out for the 9th time, and no timer runs any longer. Time counts in words of 64 bits.
pub connect_gives_up :
    (drawn inbound_streams outbound_streams timestamp : ℕ)
    → let (a, packet) =
        connect (new_association drawn) inbound_streams outbound_streams timestamp in
      let (b, packets) = expire 9 a in
      (b.state ≡ closed) × (b.init_timer ≡ none) × (b.cookie_timer ≡ none) × (length packets ≡ 8)
unfolding connect new_association
connect_gives_up drawn inbound_streams outbound_streams timestamp =
    gives_up 8 0 (connect (new_association drawn) inbound_streams outbound_streams timestamp).0
      (refl, refl, refl, _, refl, omega arith) refl
