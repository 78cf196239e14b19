-- ===== src/Nack/Builder/Wire.antt =====
-- A message that rtp/RtcpNackBuilder.cpp has built, read by rtp/RtcpFeedback.cpp.
use symphony_media_bridge.Common.{
  ℕ, zero, suc, ◌+◌, ◌*◌, ◌<◌, ◌≤◌, ◌≡◌, some, List, [], ◌∷◌, length, get_elem?, get_or, arith, ap,
  refl,
}
use symphony_media_bridge.Nack.Builder.{
  Entry, Builder, max_pids, build_entries, message, build, read16, get_num_feedback_control_infos,
  get_feedback_control_info,
}

length-get_elem? : (es : List Entry) (i : ℕ) {e : Entry} → get_elem? es i ≡ some e → i < length es
length-get_elem? [] i h = cc
length-get_elem? (x ∷ es) zero h = omega arith
length-get_elem? (x ∷ es) (suc i) h = omega (arith, length-get_elem? es i h)

read_entry :
    (es : List Entry) (i : ℕ) {e : Entry}
    → get_elem? es i ≡ some e
    → e.pid < 65536
    → e.blp < 65536
    → (read16 (build_entries es) (i * 4) ≡ e.pid) × (read16 (build_entries es) (i * 4 + 2) ≡ e.blp)
unfolding build_entries
read_entry [] i h p q = cc
read_entry (x ∷ es) zero {e} h p q =
    let same : x ≡ e = cc in
    let pid : x.pid ≡ e.pid = ap (λ y. y.pid) same in
    let blp : x.blp ≡ e.blp = ap (λ y. y.blp) same in (omega arith, omega arith)
read_entry (x ∷ es) (suc i) h p q =
    let next : suc i * 4 ≡ suc (suc (suc (suc (i * 4)))) = omega arith in
    let next1 : suc i * 4 + 1 ≡ suc (suc (suc (suc (i * 4 + 1)))) = omega arith in
    let next2 : suc i * 4 + 2 ≡ suc (suc (suc (suc (i * 4 + 2)))) = omega arith in
    let next3 : suc i * 4 + 2 + 1 ≡ suc (suc (suc (suc (i * 4 + 2 + 1)))) = omega arith in
    rw (next1, next3, next2, next) (read_entry es i h p q)

skip_header :
    (b : Builder) (k i : ℕ)
    → i ≡ 12 + k
    → get_or (message b) i 0 ≡ get_or (build_entries b.entries) k 0
unfolding message
skip_header b k i e =
    let e' : i ≡ suc (suc (suc (suc (suc (suc (suc (suc (suc (suc (suc (suc k))))))))))) =
      omega arith in
    rw e' refl

length-message : (b : Builder) → b.header_length < 65536 → read16 (message b) 2 ≡ b.header_length
unfolding message
length-message b h = omega arith

-- Every entry of a builder with at most sixteen of them is read back from the message that its
-- first `build` gives, at its place, and the number of entries is read back too.
pub build_read_back :
    (b : Builder) (i : ℕ) (e : Entry)
    → b.header_length ≡ 2
    → length b.entries ≤ max_pids
    → get_elem? b.entries i ≡ some e
    → e.pid < 65536
    → e.blp < 65536
    → let (p, b') = build b in
      (get_num_feedback_control_infos p ≡ length b.entries)
      × (get_feedback_control_info p i (get_num_feedback_control_infos p) ≡ some e)
unfolding build get_num_feedback_control_infos get_feedback_control_info
build_read_back b i e first room h p q =
    let b' : Builder = (build b).1 in
    let count : get_num_feedback_control_infos (message b') ≡ length b.entries =
      omega (arith, length-message b' (omega arith)) in
    let (pid, blp) = read_entry b.entries i h p q in
    let at = skip_header b' in
    (
      count,
      rw count (
          ground (
            arith,
            length-get_elem? b.entries i h,
            pid,
            blp,
            at (i * 4) (12 + i * 4) (omega arith),
            at (i * 4 + 1) (12 + i * 4 + 1) (omega arith),
            at (i * 4 + 2) (12 + i * 4 + 2) (omega arith),
            at (i * 4 + 2 + 1) (12 + i * 4 + 2 + 1) (omega arith),
          )),
    )
