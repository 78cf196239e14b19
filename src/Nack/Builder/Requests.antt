-- ===== src/Nack/Builder/Requests.antt =====
-- Which packets the entries of rtp/RtcpNackBuilder.cpp ask for.
use symphony_media_bridge.Common.{
  ℕ, ◌+◌, ◌-◌, ◌≤◌, ◌≡◌, refl, Bool, true, false, ◌&&◌, ◌||◌, some, List, [], ◌∷◌, ◌++◌, ltb, leb,
  ◌==◌, length, arith, Option-cases, inl, inr, ◌⊎◌,
}
use symphony_media_bridge.Nack.Bits.{bit, bit-set_bit, bit-zero}
use symphony_media_bridge.Nack.Builder.{Entry, Builder, append_to, append_sequence_number, max_pids}

-- An entry asks for its packet id, and for those of the sixteen numbers after it whose bit is set.
abbrev pub asks : Entry → ℕ → Bool
asks e x = x == e.pid || (ltb e.pid x && leb x (e.pid + 16) && bit (x - 1 - e.pid) e.blp)

abbrev pub any_asks : List Entry → ℕ → Bool
any_asks [] x = false
any_asks (e ∷ es) x = asks e x || any_asks es x

any_asks-append :
    (es fs : List Entry) (x : ℕ) → any_asks (es ++ fs) x ≡ (any_asks es x || any_asks fs x)
any_asks-append [] fs x = refl
any_asks-append (e ∷ es) fs x = ground (arith, any_asks-append es fs x)

any_asks-append_to :
    (es : List Entry) (seq x : ℕ) {es' : List Entry}
    → append_to es seq ≡ some es'
    → any_asks es' x ≡ (x == seq || any_asks es x)
unfolding append_to
any_asks-append_to [] seq x h = cc
any_asks-append_to (e ∷ es) seq x {es'} h = elim (Option-cases (append_to es seq)) [
  | inl missing ↦ ground (arith, missing, bit-set_bit (x - 1 - e.pid) (seq - 1 - e.pid) e.blp)
  | inr (fs, found) ↦ ground (
    arith,
    found,
    bit-set_bit (x - 1 - e.pid) (seq - 1 - e.pid) e.blp,
    any_asks-append_to es seq x found,
  )
]

-- A number that is taken is asked for from then on, along with exactly what was asked for before; a
-- number is refused only when all sixteen entries are used, and then nothing changes.
pub any_asks-append_sequence_number :
    (b : Builder) (seq x : ℕ)
    → let (b', taken) = append_sequence_number b seq in
      ((taken ≡ true) × (any_asks b'.entries x ≡ (x == seq || any_asks b.entries x)))
      ⊎ ((taken ≡ false) × (b' ≡ b) × (max_pids ≤ length b.entries))
unfolding append_sequence_number
any_asks-append_sequence_number b seq x = elim (Option-cases (append_to b.entries seq)) [
  | inl missing ↦ ground (
    arith,
    missing,
    any_asks-append b.entries (record { pid = seq; blp = 0 } ∷ []) x,
    bit-zero (x - 1 - seq),
  )
  | inr (es, found) ↦ ground (arith, found, any_asks-append_to b.entries seq x found)
]
