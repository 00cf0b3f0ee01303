-- ===== src/Instance/Config/Defaults.antt =====
-- internal/instance/config.go: NormalizeRoomID and ApplyDefaults.
use olcrtc_panel_lite.Common.{
  ℕ, Bool, not, ◌&&◌, ◌||◌, Option, none, some, [], ◌==◌, ltb, if◌then◌else◌, drop, is_some, any,
}
use olcrtc_panel_lite.Text.{
  Text, codes, text_eq, is_empty, has_prefix, contains_rune, trim_space, to_lower, replace_rune,
}
use olcrtc_panel_lite.Model.{Instance, TransportOptions, LivenessOptions}
use olcrtc_panel_lite.Instance.Names.{telemost, qrcode}
use olcrtc_panel_lite.Instance.Net.{Url, NetLib}

-- a Telemost link: https, the host of Telemost, no credentials, query or fragment
unfoldable pub is_telemost_link : Url → Bool
is_telemost_link u =
    text_eq (to_lower u.scheme) (codes "https")
    && text_eq (to_lower u.host) (codes "telemost.yandex.ru")
    && not (is_some u.user)
    && is_empty u.raw_query
    && is_empty u.fragment

-- the room behind /j/, if the path holds one and nothing else
unfoldable pub room_of_path : Text → Option Text
room_of_path path =
    let room = drop 3 path in
    if has_prefix path (codes "/j/") && not (is_empty room) && not (contains_rune room b'/')
    then some room
    else none

unfoldable pub is_not_digit : ℕ → Bool
is_not_digit c = ltb c b'0' || ltb b'9' c

module _ (net : NetLib) where
  -- `candidate` of NormalizeRoomID
  unfoldable pub room_candidate : Text → Text
  room_candidate value = elim (net.parse_request_uri value) [
    | none ↦ value
    | some u ↦
        if is_telemost_link u
        then elim (room_of_path u.path) [ none ↦ value | some room ↦ room ]
        else value
  ]

  -- the digits of a candidate without its spaces, or the value as it is
  unfoldable pub compact_or : Text → Text → Text
  compact_or value candidate =
      let compact = replace_rune b' ' [] candidate in
      if is_empty compact || any is_not_digit compact then value else compact

  -- NormalizeRoomID
  unfoldable pub normalize_room_id : Text → Text → Text
  normalize_room_id provider room =
      if text_eq provider telemost
      then compact_or (trim_space room) (room_candidate (trim_space room))
      else room

-- a text or number that is set where it is empty or zero
abbrev pub text_or : Text → Text → Text
text_or v d = if is_empty v then d else v

abbrev pub number_or : ℕ → ℕ → ℕ
number_or v d = if v == 0 then d else v

unfoldable pub default_liveness : LivenessOptions → LivenessOptions
default_liveness l = record {
  interval = text_or l.interval (codes "10s");
  timeout = text_or l.timeout (codes "5s");
  failures = number_or l.failures 3;
}

unfoldable pub default_options : TransportOptions → TransportOptions
default_options o = record {
  vp8_fps = number_or o.vp8_fps 30;
  vp8_batch = number_or o.vp8_batch 64;
  sei_fps = number_or o.sei_fps 30;
  sei_batch = number_or o.sei_batch 64;
  sei_fragment = number_or o.sei_fragment 900;
  sei_ack_ms = number_or o.sei_ack_ms 2000;
  video_width = number_or o.video_width 1920;
  video_height = number_or o.video_height 1080;
  video_fps = number_or o.video_fps 30;
  video_bitrate = text_or o.video_bitrate (codes "2M");
  video_hw = text_or o.video_hw (codes "none");
  video_codec = text_or o.video_codec qrcode;
  video_qr_size = o.video_qr_size;
  video_qr_recover = text_or o.video_qr_recover (codes "low");
  video_tile = number_or o.video_tile 4;
  video_tile_rs = number_or o.video_tile_rs 20;
}

-- ApplyDefaults
unfoldable pub apply_defaults : NetLib → Instance → Instance
apply_defaults net item = record item {
  room_id = normalize_room_id net item.provider item.room_id;
  dns = text_or item.dns (codes "8.8.8.8:53");
  reset_policy = text_or item.reset_policy (codes "never");
  liveness = default_liveness item.liveness;
  options = default_options item.options;
}
