-- ===== src/Nack/Builder.antt =====
-- rtp/RtcpNackBuilder.cpp, and the readers of rtp/RtcpFeedback.cpp. The arrays of the builder are
-- the list of their used entries; the unused ones are zero.
pub mod Requests
pub mod Wire
use symphony_media_bridge.Common.{
  ℕ, zero, suc, ◌+◌, ◌-◌, ◌*◌, ◌/◌, ◌%◌, Bool, true, false, ◌&&◌, ◌||◌, Option, none, some, List,
  [], ◌∷◌, ◌++◌, if◌then◌else◌, ltb, leb, ◌==◌, length, get_or, u16_mod, sub64,
}
use symphony_media_bridge.Nack.Bits.{bit, set_bit}

-- A packet id and the bits of the sixteen packets after it.
pub record Entry : Type 0 where
  pub pid : ℕ
  pub blp : ℕ

-- The length is that of the header of the message, in words of four bytes.
pub record Builder : Type 0 where
  pub header_length : ℕ
  pub reporter_ssrc : ℕ
  pub media_ssrc : ℕ
  pub entries : List Entry

abbrev pub max_pids : ℕ
max_pids = 16

abbrev pub new_builder : ℕ → ℕ → Builder
new_builder reporter media = record {
  header_length = 2;
  reporter_ssrc = reporter;
  media_ssrc = media;
  entries = [];
}

-- The loop over the entries; `none` where no entry takes the number. `_pids[i] + 16` is an `int`.
unfoldable pub append_to : List Entry → ℕ → Option (List Entry)
append_to [] seq = none
append_to (e ∷ es) seq =
    let rest = append_to es seq in
    if seq == e.pid
    then some (e ∷ es)
    else if ltb e.pid seq && leb seq (e.pid + 16)
    then some (record e { blp = set_bit (seq - 1 - e.pid) e.blp } ∷ es)
    else (elim rest [ none ↦ none | some es' ↦ some (e ∷ es') ])

unfoldable pub append_sequence_number : Builder → ℕ → Builder × Bool
append_sequence_number b seq = elim (append_to b.entries seq) [
  | some es ↦ (record b { entries = es }, true)
  | none ↦
      if leb max_pids (length b.entries)
      then (b, false)
      else (record b { entries = b.entries ++ (record { pid = seq; blp = 0 } ∷ []) }, true)
]

abbrev pub word16 : ℕ → List ℕ → List ℕ
word16 x rest = (x / 256 % 256) ∷ (x % 256) ∷ rest

abbrev pub word32 : ℕ → List ℕ → List ℕ
word32 x rest = (x / 16777216 % 256) ∷ (x / 65536 % 256) ∷ (x / 256 % 256) ∷ (x % 256) ∷ rest

unfoldable pub build_entries : List Entry → List ℕ
build_entries [] = []
build_entries (e ∷ es) = word16 e.pid (word16 e.blp (build_entries es))

-- The bytes of a message: version 2 with format 1, the type of a transport feedback, the length.
unfoldable pub message : Builder → List ℕ
message b =
    (2 * 64 + 1)
    ∷ 205
    ∷ word16 b.header_length
        (word32 b.reporter_ssrc (word32 b.media_ssrc (build_entries b.entries)))

-- The length counts the entries on top of what it was, so that the call is for one message.
unfoldable pub build : Builder → List ℕ × Builder
build b =
    let b' : Builder = record b {
      header_length = (b.header_length + length b.entries) % u16_mod;
    } in
    (message b', b')

abbrev pub read16 : List ℕ → ℕ → ℕ
read16 p i = get_or p i 0 * 256 + get_or p (i + 1) 0

-- `header.size()` less the size of the fixed part, in entries of four bytes.
unfoldable pub get_num_feedback_control_infos : List ℕ → ℕ
get_num_feedback_control_infos p = sub64 (4 + read16 p 2 * 4) 12 / 4

-- The function asserts that the index is below the number; it then leaves its results unset.
unfoldable pub get_feedback_control_info : List ℕ → ℕ → ℕ → Option Entry
get_feedback_control_info p i count =
    if leb count i
    then none
    else some (record { pid = read16 p (12 + i * 4); blp = read16 p (12 + i * 4 + 2) })

-- The loop over the bits of one entry, a bit for each round.
unfoldable pub count_bits : ℕ → ℕ → ℕ
count_bits zero blp = 0
count_bits (suc fuel) blp =
    let rest = count_bits fuel (blp / 2) in
    if blp == 0 then 0 else (if blp % 2 == 1 then 1 else 0) + rest

unfoldable pub count_from : List ℕ → ℕ → ℕ → ℕ → ℕ
count_from p count zero i = 0
count_from p count (suc left) i =
    (elim (get_feedback_control_info p i count) [ none ↦ 1 | some e ↦ 1 + count_bits 16 e.blp ])
    + count_from p count left (i + 1)

unfoldable pub get_nack_packet_count : List ℕ → ℕ → ℕ
unfolding count_from count_bits
get_nack_packet_count p count = count_from p count count 0
