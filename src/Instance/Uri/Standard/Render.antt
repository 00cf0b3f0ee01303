-- ===== src/Instance/Uri/Standard/Render.antt =====
-- internal/instance/uri.go: the OLCBOX URI that StandardURI renders.
use olcrtc_panel_lite.Common.{
  ℕ, Bool, true, false, not, ◌&&◌, ◌||◌, List, [], ◌∷◌, ◌++◌, map, ltb, ◌==◌, if◌then◌else◌, Result,
  Check, ok, ◌>>=◌, ◌>>◌, reject,
}
use olcrtc_panel_lite.Text.{Text, codes, text_eq, contains_any, contains_rune, join, fields}
use olcrtc_panel_lite.Text.Number.{itoa}
use olcrtc_panel_lite.Model.{Instance, TransportOptions}
use olcrtc_panel_lite.Instance.Names.{
  vp8channel, seichannel, videochannel, qrcode, tile, providers, transports,
}
use olcrtc_panel_lite.Instance.Uri.Client.{
  UriError, validate_key, unsupported_provider_or_transport, reserved_separator,
}

-- one rune of standardComment
unfoldable pub comment_rune : ℕ → ℕ
comment_rune r =
    if contains_rune (codes "?<>@#$") r then b'-' else if r == b'\r' || r == b'\n' then b' ' else r

-- standardComment
unfoldable pub standard_comment : Text → Text
standard_comment comment = join (fields (map comment_rune comment)) (codes " ")

-- a transport parameter and whether it differs from its default
abbrev pub Param : Type 0
Param = Bool × Text × Text

abbrev pub number_param : ℕ → ℕ → Text → Param
number_param default value key = (not (value == default), key, itoa value)

-- the assignments to `values` in standardPayload, with their conditions
unfoldable pub vp8_params : TransportOptions → List Param
vp8_params o =
    number_param 30 o.vp8_fps (codes "vp8-fps")
    ∷ number_param 64 o.vp8_batch (codes "vp8-batch")
    ∷ []

unfoldable pub sei_params : TransportOptions → List Param
sei_params o =
    number_param 30 o.sei_fps (codes "fps")
    ∷ number_param 64 o.sei_batch (codes "batch")
    ∷ number_param 900 o.sei_fragment (codes "frag")
    ∷ number_param 2000 o.sei_ack_ms (codes "ack-ms")
    ∷ []

unfoldable pub video_params : TransportOptions → List Param
video_params o =
    number_param 1920 o.video_width (codes "video-w")
    ∷ number_param 1080 o.video_height (codes "video-h")
    ∷ number_param 30 o.video_fps (codes "video-fps")
    ∷ (not (text_eq o.video_codec qrcode), codes "video-codec", o.video_codec)
    ∷ number_param 0 o.video_qr_size (codes "video-qr-size")
    ∷ (
      not (text_eq o.video_qr_recover (codes "low")),
      codes "video-qr-recovery",
      o.video_qr_recover,
    )
    ∷ (
      text_eq o.video_codec tile && not (o.video_tile == 4),
      codes "video-tile-module",
      itoa o.video_tile,
    )
    ∷ (
      text_eq o.video_codec tile && not (o.video_tile_rs == 20),
      codes "video-tile-rs",
      itoa o.video_tile_rs,
    )
    ∷ []

unfoldable pub standard_params : Instance → List Param
unfolding vp8_params sei_params video_params
standard_params item =
    if text_eq item.transport vp8channel
    then vp8_params item.options
    else if text_eq item.transport seichannel
    then sei_params item.options
    else if text_eq item.transport videochannel
    then video_params item.options
    else []

-- the entries of the map `values`
unfoldable pub present : List Param → List (Text × Text)
present [] = []
present ((b, k, v) ∷ ps) = let rest = present ps in if b then (k, v) ∷ rest else rest

-- the order of strings
unfoldable pub text_lt : Text → Text → Bool
text_lt s [] = false
text_lt [] (d ∷ t) = true
text_lt (c ∷ s) (d ∷ t) = ltb c d || ((c == d) && text_lt s t)

unfoldable pub insert_key : Text × Text → List (Text × Text) → List (Text × Text)
unfolding text_lt
insert_key p [] = p ∷ []
insert_key (k, v) ((j, w) ∷ ps) =
    if text_lt k j then (k, v) ∷ (j, w) ∷ ps else (j, w) ∷ insert_key (k, v) ps

-- the keys in the order of sort.Strings
unfoldable pub sort_keys : List (Text × Text) → List (Text × Text)
unfolding insert_key
sort_keys [] = []
sort_keys (p ∷ ps) = insert_key p (sort_keys ps)

abbrev pub assignment : Text × Text → Text
assignment (k, v) = k ++ (b'=' ∷ v)

-- the text of the sorted parameters
unfoldable pub bracketed : List (Text × Text) → Text
bracketed [] = []
bracketed (p ∷ ps) = b'<' ∷ (join (map assignment (p ∷ ps)) (codes "&") ++ b'>' ∷ [])

-- standardPayload
unfoldable pub standard_payload : Instance → Text
standard_payload item = bracketed (sort_keys (present (standard_params item)))

-- validateURIFields
unfoldable pub validate_uri_fields : Instance → Text → Text → Check UriError
validate_uri_fields item key comment = do
  validate_key key
  reject (not (providers item.provider) || not (transports item.transport))
      unsupported_provider_or_transport
  reject
      (contains_any (item.provider ++ item.transport) (codes "?<>@#$\r\n")
        || contains_any item.room_id (codes "?<>@#$\r\n")
        || contains_any comment (codes "?<>@#$\r\n"))
      reserved_separator

-- StandardURI
unfoldable pub standard_uri : Instance → Text → Text → Result UriError Text
standard_uri item key comment = do
  _ ← validate_uri_fields item key (standard_comment comment)
  ok (
      codes "olcrtc://"
      ++ ((item.provider ++ (b'?' ∷ (item.transport ++ standard_payload item)))
          ++ (b'@' ∷ ((item.room_id ++ (b'#' ∷ (key ++ (b'$' ∷ standard_comment comment))))))))
