-- ===== src/Director/Streams.antt =====
-- bridge/engine/SimulcastStream.h and SimulcastLevel.h: the levels that a sender offers.
use symphony_media_bridge.Common.{
  ℕ, ◌+◌, Bool, true, false, ◌&&◌, ◌||◌, Option, none, some, List, [], ◌∷◌, ltb, leb, ◌==◌,
  if◌then◌else◌, take,
}

pub record SimulcastLevel : Type 0 where
  pub ssrc : ℕ
  pub feedback_ssrc : ℕ
  pub media_active : Bool

pub data VideoContentType : Type 0 where
  video slides : VideoContentType

abbrev pub max_levels : ℕ
max_levels = 3

-- The array of three levels is three fields.
pub record SimulcastStream : Type 0 where
  pub num_levels : ℕ
  pub highest_active_level : ℕ
  pub level0 : SimulcastLevel
  pub level1 : SimulcastLevel
  pub level2 : SimulcastLevel
  pub content_type : VideoContentType

abbrev pub is_video : VideoContentType → Bool
is_video video = true
is_video slides = false

abbrev pub is_slides : VideoContentType → Bool
is_slides video = false
is_slides slides = true

abbrev pub is_sending_video : SimulcastStream → Bool
is_sending_video s = ltb 0 s.num_levels && is_video s.content_type

abbrev pub is_sending_slides : SimulcastStream → Bool
is_sending_slides s = ltb 0 s.num_levels && is_slides s.content_type

abbrev pub get_levels : SimulcastStream → List SimulcastLevel
get_levels s =
    take (if ltb max_levels s.num_levels then max_levels else s.num_levels)
      (s.level0 ∷ s.level1 ∷ s.level2 ∷ [])

unfoldable pub find_main_ssrc : ℕ → List SimulcastLevel → Option ℕ
find_main_ssrc f [] = none
find_main_ssrc f (l ∷ ls) = if l.feedback_ssrc == f then some l.ssrc else find_main_ssrc f ls

abbrev pub get_main_ssrc_for : SimulcastStream → ℕ → Option ℕ
get_main_ssrc_for s f = find_main_ssrc f (get_levels s)

unfoldable pub find_feedback_ssrc : ℕ → List SimulcastLevel → Option ℕ
find_feedback_ssrc x [] = none
find_feedback_ssrc x (l ∷ ls) =
    if l.ssrc == x then some l.feedback_ssrc else find_feedback_ssrc x ls

abbrev pub get_feedback_ssrc_for : SimulcastStream → ℕ → Option ℕ
get_feedback_ssrc_for s x = find_feedback_ssrc x (get_levels s)

-- The loop of `isSsrcFromParticipant` over the levels of one stream.
unfoldable pub has_ssrc : ℕ → List SimulcastLevel → Bool
has_ssrc x [] = false
has_ssrc x (l ∷ ls) = x == l.ssrc || has_ssrc x ls

unfoldable pub add_level : SimulcastStream → SimulcastLevel → SimulcastStream
add_level s l =
    if leb max_levels s.num_levels
    then s
    else if s.num_levels == 0
    then record s { num_levels = s.num_levels + 1; level0 = l }
    else if s.num_levels == 1
    then record s { num_levels = s.num_levels + 1; level1 = l }
    else record s { num_levels = s.num_levels + 1; level2 = l }

unfoldable pub reset : SimulcastStream → SimulcastStream
reset s = record s { num_levels = 0; highest_active_level = 0; content_type = video }

-- The stream that `memset` leaves.
abbrev pub zero_level : SimulcastLevel
zero_level = record { ssrc = 0; feedback_ssrc = 0; media_active = false }

abbrev pub empty_stream : SimulcastStream
empty_stream = record {
  num_levels = 0;
  highest_active_level = 0;
  level0 = zero_level;
  level1 = zero_level;
  level2 = zero_level;
  content_type = video;
}
