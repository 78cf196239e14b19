-- ===== src/Active/Video.antt =====
-- The video part of bridge/engine/ActiveMediaList.cpp: participants, and the list of those who are
-- seen with the groups of SSRCs on which they are sent.
pub mod Seen
pub mod Leave
pub mod Join
pub mod Update
pub mod Valid
pub mod Participants
pub mod Same
pub mod Ranked
pub mod Reach
use symphony_media_bridge.Common.{
  ℕ, ◌+◌, ◌-◌, Bool, true, false, not, ◌&&◌, ◌||◌, Option, none, some, List, [], ◌∷◌, ◌++◌,
  if◌then◌else◌, ltb, leb, ◌==◌, length,
}
use symphony_media_bridge.Common.Maps
use symphony_media_bridge.Common.Maps.{Map}
use symphony_media_bridge.Director.Streams.{
  SimulcastStream, SimulcastLevel, get_levels, is_sending_video, is_sending_slides,
}
use symphony_media_bridge.Director.State.{any_secondary}
use symphony_media_bridge.Active.Entries.{
  Entries, push_to_tail, push_to_head, remove, pop_from_head,
}
use symphony_media_bridge.Common.Values.{is_in}
use symphony_media_bridge.Active.State.{
  ActiveMediaList, VideoParticipant, SimulcastGroup, SsrcPair, ScreenShare, next_revision,
}

unfoldable pub add_reverse : SimulcastGroup → ℕ → Map ℕ → Map ℕ
add_reverse [] endpoint m = m
add_reverse (p ∷ ps) endpoint m = add_reverse ps endpoint (Maps.emplace m p.main endpoint)

unfoldable pub add_to_video_rewrite_map : ActiveMediaList → ℕ → SimulcastGroup → ActiveMediaList
add_to_video_rewrite_map a endpoint group = record a {
  video_ssrc_rewrite_map = Maps.emplace a.video_ssrc_rewrite_map endpoint group;
  reverse_video_ssrc_rewrite_map = add_reverse group endpoint a.reverse_video_ssrc_rewrite_map;
  ssrc_map_revision = next_revision a;
}

unfoldable pub remove_reverse : SimulcastGroup → Map ℕ → Map ℕ
remove_reverse [] m = m
remove_reverse (p ∷ ps) m = remove_reverse ps (Maps.erase m p.main)

unfoldable pub remove_from_rewrite_map : ActiveMediaList → ℕ → ActiveMediaList
remove_from_rewrite_map a endpoint = elim (Maps.find a.video_ssrc_rewrite_map endpoint) [
  | none ↦ record a { ssrc_map_revision = next_revision a }
  | some group ↦ record a {
    video_ssrc_rewrite_map = Maps.erase a.video_ssrc_rewrite_map endpoint;
    reverse_video_ssrc_rewrite_map = remove_reverse group a.reverse_video_ssrc_rewrite_map;
    video_ssrcs = a.video_ssrcs ++ (group ∷ []);
    ssrc_map_revision = next_revision a;
  }
]

abbrev pub sends_video_streams : SimulcastStream → Option SimulcastStream → Bool
sends_video_streams primary secondary =
    is_sending_video primary || any_secondary is_sending_video secondary

-- The next free group goes to the endpoint; false where no group is left.
unfoldable pub assign_group : ActiveMediaList → ℕ → ActiveMediaList × Bool
assign_group a endpoint = elim a.video_ssrcs [
  | [] ↦ (a, false)
  | ◌∷◌ group rest ↦
      (add_to_video_rewrite_map (record a { video_ssrcs = rest }) endpoint group, true)
]

-- The group for an endpoint that sends video, and nothing for another.
unfoldable pub assign_group_if : Bool → ActiveMediaList → ℕ → ActiveMediaList × Bool
assign_group_if true a endpoint = assign_group a endpoint
assign_group_if false a endpoint = (a, true)

-- The oldest one that is seen makes room.
unfoldable pub drop_oldest_video : ActiveMediaList → ActiveMediaList × Bool
drop_oldest_video a =
    if Maps.size a.active_video_list_lookup_map == a.max_active_list_size
    then (elim ((pop_from_head a.active_video_list).1) [
      | none ↦ (a, false)
      | some removed ↦
          let b : ActiveMediaList = record a {
            active_video_list = (pop_from_head a.active_video_list).0;
            active_video_list_lookup_map = Maps.erase a.active_video_list_lookup_map removed;
          } in
          (if removed == 0 then b else remove_from_rewrite_map b removed, true)
    ])
    else (a, true)

abbrev pub show_last : ActiveMediaList → ℕ → ActiveMediaList
show_last a endpoint = record a {
  active_video_list = (push_to_tail a.active_video_list endpoint).0;
  active_video_list_lookup_map = Maps.emplace a.active_video_list_lookup_map endpoint endpoint;
}

unfoldable pub update_active_video_list : ActiveMediaList → ℕ → ActiveMediaList × Bool
update_active_video_list a endpoint = elim (Maps.find a.video_participants endpoint) [
  | none ↦ (a, false)
  | some p ↦
      if is_in endpoint a.active_video_list.items
      then (
        show_last
            (record a {
              active_video_list = (remove a.active_video_list endpoint).0;
              active_video_list_lookup_map = Maps.erase a.active_video_list_lookup_map endpoint;
            })
            endpoint,
        true,
      )
      else let (b, room) = drop_oldest_video a in
        if not room
        then (b, false)
        else let (c, assigned) =
            assign_group_if (sends_video_streams p.simulcast_stream p.secondary_simulcast_stream) b
              endpoint in
          if assigned then (show_last c endpoint, true) else (c, false)
]

abbrev pub share_screen :
    ActiveMediaList → ℕ → SimulcastStream → Option SimulcastStream → ActiveMediaList
share_screen a endpoint primary secondary =
    if is_sending_slides primary
    then record a {
      video_screen_share_ssrc_mapping = some (record {
        endpoint = endpoint;
        ssrc = primary.level0.ssrc;
        rewrite_ssrc = a.video_screen_share_ssrc.main;
      });
      ssrc_map_revision = next_revision a;
    }
    else (elim secondary [
      | none ↦ a
      | some s ↦
          if is_sending_slides s
          then record a {
            video_screen_share_ssrc_mapping = some (record {
              endpoint = endpoint;
              ssrc = s.level0.ssrc;
              rewrite_ssrc = a.video_screen_share_ssrc.main;
            });
            ssrc_map_revision = next_revision a;
          }
          else a
    ])

-- The value of the last line, `endpointIdHash != _dominantSpeaker || updateActiveVideoList(...)`.
abbrev pub update_if_dominant : ActiveMediaList → ℕ → ActiveMediaList × Bool
update_if_dominant a endpoint =
    if not (endpoint == a.dominant_speaker)
    then (a, true)
    else update_active_video_list a a.dominant_speaker

unfoldable pub on_video_participant_added :
    ActiveMediaList → ℕ → SimulcastStream → Option SimulcastStream → ActiveMediaList × Bool
on_video_participant_added a endpoint primary secondary =
    let b : ActiveMediaList = share_screen a endpoint primary secondary in
    if Maps.size b.active_video_list_lookup_map == b.max_active_list_size
    then update_if_dominant b endpoint
    else let (c, assigned) = assign_group_if (sends_video_streams primary secondary) b endpoint in
      if not assigned
      then (c, false)
      else update_if_dominant
          (record c {
            active_video_list = (push_to_head c.active_video_list endpoint).0;
            active_video_list_lookup_map =
                Maps.emplace c.active_video_list_lookup_map endpoint endpoint;
          })
          endpoint

unfoldable pub add_video_participant :
    ActiveMediaList → ℕ → VideoParticipant → ActiveMediaList × Bool
add_video_participant a endpoint p =
    if Maps.contains a.video_participants endpoint
    then (a, false)
    else on_video_participant_added
        (record a { video_participants = Maps.emplace a.video_participants endpoint p }) endpoint
        p.simulcast_stream p.secondary_simulcast_stream

unfoldable pub remove_video_participant : ActiveMediaList → ℕ → ActiveMediaList × Bool
remove_video_participant a endpoint =
    if not (Maps.contains a.video_participants endpoint)
    then (a, false)
    else let b : ActiveMediaList = record a {
      video_participants = Maps.erase a.video_participants endpoint;
    } in
      let c : ActiveMediaList = elim b.video_screen_share_ssrc_mapping [
        | none ↦ b
        | some s ↦
            if s.endpoint == endpoint
            then record b {
              video_screen_share_ssrc_mapping = none;
              ssrc_map_revision = next_revision b;
            }
            else b
      ] in
      let d : ActiveMediaList = remove_from_rewrite_map c endpoint in
      (
        record d {
          active_video_list = (remove d.active_video_list endpoint).0;
          active_video_list_lookup_map = Maps.erase d.active_video_list_lookup_map endpoint;
        },
        true,
      )

-- `operator==` of the streams: the SSRCs of their levels. With more levels than three the C++ loop
-- would leave the array.
abbrev pub same_levels : List SimulcastLevel → List SimulcastLevel → Bool
same_levels [] [] = true
same_levels [] (l ∷ ls) = false
same_levels (k ∷ ks) [] = false
same_levels (k ∷ ks) (l ∷ ls) =
    k.ssrc == l.ssrc && k.feedback_ssrc == l.feedback_ssrc && same_levels ks ls

abbrev pub same_stream : SimulcastStream → SimulcastStream → Bool
same_stream s t = s.num_levels == t.num_levels && same_levels (get_levels s) (get_levels t)

abbrev pub same_secondary : Option SimulcastStream → Option SimulcastStream → Bool
same_secondary none none = true
same_secondary none (some t) = false
same_secondary (some s) none = false
same_secondary (some s) (some t) = same_stream s t

-- A participant of another bridge is replaced where its streams have changed.
unfoldable pub add_barbell_video_participant :
    ActiveMediaList → ℕ → VideoParticipant → ActiveMediaList × Bool
add_barbell_video_participant a endpoint p =
    let add : ActiveMediaList → ActiveMediaList × Bool = λ b.
      on_video_participant_added
        (record b { video_participants = Maps.emplace b.video_participants endpoint p }) endpoint
        p.simulcast_stream p.secondary_simulcast_stream in
    (elim (Maps.find a.video_participants endpoint) [
      | none ↦ add a
      | some old ↦
          if same_stream old.simulcast_stream p.simulcast_stream
            && same_secondary old.secondary_simulcast_stream p.secondary_simulcast_stream
          then (a, false)
          else add (remove_video_participant a endpoint).0
    ])

abbrev pub is_in_active_video_list : ActiveMediaList → ℕ → Bool
is_in_active_video_list a endpoint = Maps.contains a.active_video_list_lookup_map endpoint

-- Whether an entry stands before the one of the endpoint.
abbrev pub has_previous : Entries → ℕ → Bool
has_previous l endpoint = elim l.items [ [] ↦ false | ◌∷◌ x xs ↦ not (x == endpoint) ]

unfoldable pub is_in_user_active_video_list : ActiveMediaList → ℕ → Bool
is_in_user_active_video_list a endpoint = elim (Maps.find a.active_video_list_lookup_map endpoint) [
  | none ↦ false
  | some entry ↦
      if ltb a.default_last_n (Maps.size a.active_video_list_lookup_map)
      then has_previous a.active_video_list entry
      else true
]

unfoldable pub get_feedback_ssrc_of_group : ActiveMediaList → ℕ → Option ℕ
get_feedback_ssrc_of_group a main = Maps.find a.video_feedback_ssrc_lookup_map main
