-- ===== src/Codec/Vp8/Descriptor.antt =====
-- What the setters of codec/Vp8Header.h leave for its getters.
use symphony_media_bridge.Common.{
  ℕ, zero, suc, ◌⊎◌, ◌+◌, ◌/◌, ◌%◌, ◌<◌, ◌≤◌, ◌≡◌, refl, true, List, ◌∷◌, ◌==◌, length, arith, ◌^◌,
  ◌&&◌, ◌||◌,
}
use symphony_media_bridge.Codec.Vp8.{
  byte, is_full, get_x, get_i, get_l, get_t, get_k, extended_size, get_payload_descriptor_size,
  get_pic_id, get_tl0_pic_idx, set_pic_id, set_tl0_pic_idx, get_tid,
}

-- The payload that the two setters leave.
abbrev pub renumber : List ℕ → ℕ → ℕ → List ℕ
renumber payload pic_id tl0 = set_tl0_pic_idx (set_pic_id payload pic_id) tl0

-- A descriptor is full if it has the extension byte, a long picture id, the index of level 0 and
-- the byte of the temporal id.
pub is_full_lem :
    (a b c d e f : ℕ) (rest : List ℕ)
    → is_full (a ∷ b ∷ c ∷ d ∷ e ∷ f ∷ rest) ≡ (
        (a / 128) % 2 == 1
        && (b / 128) % 2 == 1
        && (c / 128) % 2 == 1
        && (b / 64) % 2 == 1
        && ((b / 32) % 2 == 1 || (b / 16) % 2 == 1))
unfolding get_payload_descriptor_size extended_size get_x get_i get_l get_t get_k
is_full_lem a b c d e f rest = ground arith

-- Full descriptors stay full under new bytes for the picture id and the index.
is_full_keep :
    (a b c d e f c' d' e' : ℕ) (rest : List ℕ)
    → is_full (a ∷ b ∷ c ∷ d ∷ e ∷ f ∷ rest) ≡ true
    → (c' / 128) % 2 ≡ 1
    → is_full (a ∷ b ∷ c' ∷ d' ∷ e' ∷ f ∷ rest) ≡ true
is_full_keep a b c d e f c' d' e' rest full m =
    ground (arith, is_full_lem a b c d e f rest, is_full_lem a b c' d' e' f rest)

high_byte : (pic_id : ℕ) → ((128 + (pic_id / 256) % 128) / 128) % 2 ≡ 1
high_byte pic_id = omega arith

renumber_bytes :
    (a b c d e f pic_id tl0 : ℕ) (rest : List ℕ)
    → is_full (a ∷ b ∷ c ∷ d ∷ e ∷ f ∷ rest) ≡ true
    → renumber (a ∷ b ∷ c ∷ d ∷ e ∷ f ∷ rest) pic_id tl0
      ≡ a ∷ b ∷ (128 + (pic_id / 256) % 128) ∷ (pic_id % 256) ∷ tl0 ∷ f ∷ rest
unfolding set_pic_id set_tl0_pic_idx
renumber_bytes a b c d e f pic_id tl0 rest full =
    rw
      (
        full,
        is_full_keep a b c d e f (128 + (pic_id / 256) % 128) (pic_id % 256) e rest full
            (high_byte pic_id),
      )
      refl

-- On a payload with a full descriptor the setters are read back by the getters, the picture id
-- modulo 2 ^ 15. The descriptor stays full, and the temporal id, the length and every byte but
-- those of the two fields are as before.
pub renumber_lem :
    (payload : List ℕ) (pic_id tl0 i : ℕ)
    → is_full payload ≡ true
    → 6 ≤ length payload
    → i < 2 ⊎ 5 ≤ i
    → (is_full (renumber payload pic_id tl0) ≡ true)
      × (get_pic_id (renumber payload pic_id tl0) ≡ pic_id % 2 ^ 15)
      × (get_tl0_pic_idx (renumber payload pic_id tl0) ≡ tl0)
      × (get_tid (renumber payload pic_id tl0) ≡ get_tid payload)
      × (length (renumber payload pic_id tl0) ≡ length payload)
      × (byte (renumber payload pic_id tl0) i ≡ byte payload i)
unfolding get_pic_id get_tl0_pic_idx get_tid
renumber_lem (a ∷ b ∷ c ∷ d ∷ e ∷ f ∷ rest) pic_id tl0 i full long other =
    rw (renumber_bytes a b c d e f pic_id tl0 rest full) (
      kept,
      ground (arith, kept),
      ground (arith, kept),
      ground (arith, kept, full),
      refl,
      same i other,
    )
  where
    kept : is_full (a ∷ b ∷ (128 + (pic_id / 256) % 128) ∷ (pic_id % 256) ∷ tl0 ∷ f ∷ rest) ≡ true
    kept =
        is_full_keep a b c d e f (128 + (pic_id / 256) % 128) (pic_id % 256) tl0 rest full
          (high_byte pic_id)

    same :
        (i : ℕ)
        → i < 2 ⊎ 5 ≤ i
        → byte (a ∷ b ∷ (128 + (pic_id / 256) % 128) ∷ (pic_id % 256) ∷ tl0 ∷ f ∷ rest) i
          ≡ byte (a ∷ b ∷ c ∷ d ∷ e ∷ f ∷ rest) i
    same zero o = refl
    same (suc zero) o = refl
    same (suc (suc zero)) o = absurd (omega arith)
    same (suc (suc (suc zero))) o = absurd (omega arith)
    same (suc (suc (suc (suc zero)))) o = absurd (omega arith)
    same (suc (suc (suc (suc (suc i))))) o = refl
renumber_lem payload pic_id tl0 i full long other = absurd (omega arith)
