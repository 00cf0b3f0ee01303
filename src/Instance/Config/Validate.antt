-- ===== src/Instance/Config/Validate.antt =====
-- internal/instance/config.go: Validate and its parts, over url.Parse, net.SplitHostPort and
-- time.ParseDuration as parameters.
use olcrtc_panel_lite.Common.{
  ℕ, Bool, true, false, not, ◌&&◌, ◌||◌, Option, none, some, ◌∷◌, ltb, ◌==◌, if◌then◌else◌, length,
  any, Check, ok, err, ◌>>=◌, ◌>>◌, reject, wrap_err, slt, outside, is_some,
}
use olcrtc_panel_lite.Text.{Text, codes, text_eq, is_empty, contains_rune, contains_any, trim_space}
use olcrtc_panel_lite.Model.{Instance, TransportOptions}
use olcrtc_panel_lite.Instance.Names.{
  jitsi, vp8channel, seichannel, videochannel, qrcode, tile, providers, transports,
}
use olcrtc_panel_lite.Instance.Net.{Url, NetLib}
use olcrtc_panel_lite.Instance.Config.Proxy.{ProxyError, parse_proxy, with_scheme}

pub data DurationError : Type 0 where
  not_a_duration not_positive negative : DurationError

pub data ConfigError : Type 0 where
  bad_name unsupported_provider unsupported_transport bad_room jitsi_url jitsi_extra bad_dns :
      ConfigError
  bad_failures negative_quota bad_reset_policy vp8_range sei_range bitrate_required bad_bitrate :
      ConfigError
  bad_codec video_range bad_hw tile_settings : ConfigError
  bad_proxy : ProxyError → ConfigError
  bad_interval bad_timeout bad_session bad_min_delay bad_max_delay : DurationError → ConfigError

-- validateJitsiRoom
unfoldable pub validate_jitsi_url : Option Url → Check ConfigError
validate_jitsi_url none = err jitsi_url
validate_jitsi_url (some u) = do
  reject
      (is_empty u.hostname
        || not (text_eq u.scheme (codes "http") || text_eq u.scheme (codes "https")))
      jitsi_url
  reject (not (is_empty u.raw_query) || not (is_empty u.fragment) || is_some u.user) jitsi_extra

unfoldable pub validate_jitsi_room : NetLib → Text → Check ConfigError
validate_jitsi_room net room =
    validate_jitsi_url (net.parse_url (with_scheme (codes "https://") room))

-- validateDuration
unfoldable pub validate_duration : NetLib → Text → Bool → Check DurationError
validate_duration net value positive = elim (net.parse_duration value) [
  | none ↦ err not_a_duration
  | some d ↦
      if positive
      then (if slt 0 d then ok tt else err not_positive)
      else if slt d 0
      then err negative
      else ok tt
]

-- a character of a video bitrate
unfoldable pub is_not_bitrate : ℕ → Bool
is_not_bitrate r = (ltb r b'0' || ltb b'9' r) && not (contains_rune (codes "kKmM") r)

unfoldable pub validate_vp8 : TransportOptions → Check ConfigError
validate_vp8 o = reject (outside 1 240 o.vp8_fps || outside 1 4096 o.vp8_batch) vp8_range

unfoldable pub validate_sei : TransportOptions → Check ConfigError
validate_sei o =
    reject
      (outside 1 240 o.sei_fps
        || outside 1 4096 o.sei_batch
        || outside 128 65535 o.sei_fragment
        || outside 100 120000 o.sei_ack_ms)
      sei_range

unfoldable pub validate_video : TransportOptions → Check ConfigError
validate_video o = do
  reject (is_empty o.video_bitrate) bitrate_required
  reject (any is_not_bitrate o.video_bitrate) bad_bitrate
  reject (not (text_eq o.video_codec qrcode) && not (text_eq o.video_codec tile)) bad_codec
  reject
      (outside 64 7680 o.video_width || outside 64 4320 o.video_height || outside 1 240 o.video_fps)
      video_range
  reject (not (text_eq o.video_hw (codes "none")) && not (text_eq o.video_hw (codes "nvenc")))
      bad_hw
  reject
      (text_eq o.video_codec tile
        && (not (o.video_width == 1080)
            || not (o.video_height == 1080)
            || outside 1 270 o.video_tile
            || outside 0 200 o.video_tile_rs))
      tile_settings

-- validateTransport
unfoldable pub validate_transport : Instance → Check ConfigError
validate_transport item =
    if text_eq item.transport vp8channel
    then validate_vp8 item.options
    else if text_eq item.transport seichannel
    then validate_sei item.options
    else if text_eq item.transport videochannel
    then validate_video item.options
    else ok tt

-- the values of `switch item.ResetPolicy`
unfoldable pub is_reset_policy : Text → Bool
is_reset_policy p =
    text_eq p (codes "never")
    || text_eq p (codes "daily")
    || text_eq p (codes "weekly")
    || text_eq p (codes "monthly")
    || text_eq p (codes "manual")

-- a duration that may be left out
unfoldable pub validate_optional :
    NetLib → (DurationError → ConfigError) → Text → Bool → Check ConfigError
validate_optional net e value positive =
    if is_empty value then ok tt else wrap_err e (validate_duration net value positive)

unfoldable pub validate_proxy : NetLib → Text → Check ConfigError
validate_proxy net value =
    if is_empty value then ok tt else wrap_err bad_proxy (parse_proxy net value) >>= λ _. ok tt

-- the first checks of Validate: name, provider, transport and room
unfoldable pub validate_head : NetLib → Instance → Check ConfigError
validate_head net item = do
  reject
      (is_empty (trim_space item.name)
        || ltb 80 (length item.name)
        || contains_any item.name (codes "\r\n"))
      bad_name
  reject (not (providers item.provider)) unsupported_provider
  reject (not (transports item.transport)) unsupported_transport
  reject (is_empty (trim_space item.room_id) || contains_any item.room_id (0 ∷ codes "\r\n?<>@#$"))
      bad_room
  if text_eq item.provider jitsi then validate_jitsi_room net item.room_id else ok tt

-- the checks of the connection and its timing
unfoldable pub validate_timing : NetLib → Instance → Check ConfigError
validate_timing net item = do
  wrap_err bad_interval (validate_duration net item.liveness.interval true)
  wrap_err bad_timeout (validate_duration net item.liveness.timeout true)
  reject (outside 1 100 item.liveness.failures) bad_failures
  validate_optional net bad_session item.max_session_duration true
  validate_optional net bad_min_delay item.traffic.min_delay false
  validate_optional net bad_max_delay item.traffic.max_delay false

-- Validate
unfoldable pub validate : NetLib → Instance → Check ConfigError
validate net item = do
  validate_head net item
  reject (not (is_some (net.split_host_port item.dns))) bad_dns
  validate_proxy net item.outbound_proxy
  validate_timing net item
  reject (slt item.quota_bytes 0) negative_quota
  reject (not (is_reset_policy item.reset_policy)) bad_reset_policy
  validate_transport item
