-- ===== src/Instance/Config/Sound.antt =====
-- What an instance satisfies that Validate accepts.
use olcrtc_panel_lite.Common.{
  ◌<◌, ◌≤◌, ◌≡◌, Bool, true, false, not, ◌&&◌, ◌||◌, arith, any, ◌==◌, ==_iff, ok, ◌>>◌, reject,
  outside, outside-range, two_63, two_64, Bool-cases, inl, inr,
}
use olcrtc_panel_lite.Text.{codes, text_eq, is_empty}
use olcrtc_panel_lite.Text.Equality.{text_eq→eq, text_eq_refl}
use olcrtc_panel_lite.Model.{Instance, TransportOptions}
use olcrtc_panel_lite.Instance.Names.{
  vp8channel, seichannel, videochannel, qrcode, tile, providers, transports,
}
use olcrtc_panel_lite.Instance.Net.{NetLib}
use olcrtc_panel_lite.Instance.Config.Validate.{
  validate, validate_head, validate_timing, validate_transport, validate_vp8, validate_sei,
  validate_video, is_not_bitrate, is_reset_policy,
}

-- the options are Go ints
pub record AreInts (o : TransportOptions) : Type 0 where
  pub vp8_fps : o.vp8_fps < two_64
  pub vp8_batch : o.vp8_batch < two_64
  pub sei_fps : o.sei_fps < two_64
  pub sei_batch : o.sei_batch < two_64
  pub sei_fragment : o.sei_fragment < two_64
  pub sei_ack_ms : o.sei_ack_ms < two_64
  pub video_width : o.video_width < two_64
  pub video_height : o.video_height < two_64
  pub video_fps : o.video_fps < two_64
  pub video_tile : o.video_tile < two_64
  pub video_tile_rs : o.video_tile_rs < two_64

pub record Vp8Range (o : TransportOptions) : Type 0 where
  pub fps : (1 ≤ o.vp8_fps) × (o.vp8_fps ≤ 240)
  pub batch : (1 ≤ o.vp8_batch) × (o.vp8_batch ≤ 4096)

pub record SeiRange (o : TransportOptions) : Type 0 where
  pub fps : (1 ≤ o.sei_fps) × (o.sei_fps ≤ 240)
  pub batch : (1 ≤ o.sei_batch) × (o.sei_batch ≤ 4096)
  pub fragment : (128 ≤ o.sei_fragment) × (o.sei_fragment ≤ 65535)
  pub ack_ms : (100 ≤ o.sei_ack_ms) × (o.sei_ack_ms ≤ 120000)

-- the frame and the tiles of the tile codec
pub record TileRange (o : TransportOptions) : Type 0 where
  pub width : o.video_width ≡ 1080
  pub height : o.video_height ≡ 1080
  pub tile : (1 ≤ o.video_tile) × (o.video_tile ≤ 270)
  pub tile_rs : (0 ≤ o.video_tile_rs) × (o.video_tile_rs ≤ 200)

pub record VideoRange (o : TransportOptions) : Type 0 where
  pub width : (64 ≤ o.video_width) × (o.video_width ≤ 7680)
  pub height : (64 ≤ o.video_height) × (o.video_height ≤ 4320)
  pub fps : (1 ≤ o.video_fps) × (o.video_fps ≤ 240)
  pub codec : (text_eq o.video_codec qrcode || text_eq o.video_codec tile) ≡ true
  pub bitrate_given : is_empty o.video_bitrate ≡ false
  pub bitrate : any is_not_bitrate o.video_bitrate ≡ false
  pub hw : (text_eq o.video_hw (codes "none") || text_eq o.video_hw (codes "nvenc")) ≡ true
  pub tiles : o.video_codec ≡ tile → TileRange o

-- the options that the transport uses are in their ranges
pub data InRange (item : Instance) : Type 0 where
  vp8 : item.transport ≡ vp8channel → Vp8Range item.options → InRange item
  sei : item.transport ≡ seichannel → SeiRange item.options → InRange item
  video : item.transport ≡ videochannel → VideoRange item.options → InRange item
  plain :
      text_eq item.transport vp8channel ≡ false
      → text_eq item.transport seichannel ≡ false
      → text_eq item.transport videochannel ≡ false
      → InRange item

pub vp8_sound : (o : TransportOptions) → AreInts o → validate_vp8 o ≡ ok tt → Vp8Range o
unfolding validate_vp8
vp8_sound o w h = record {
  fps = outside-range 1 240 o.vp8_fps w.vp8_fps (omega arith) (omega arith) (ground arith);
  batch = outside-range 1 4096 o.vp8_batch w.vp8_batch (omega arith) (omega arith) (ground arith);
}

pub sei_sound : (o : TransportOptions) → AreInts o → validate_sei o ≡ ok tt → SeiRange o
unfolding validate_sei
sei_sound o w h = record {
  fps = outside-range 1 240 o.sei_fps w.sei_fps (omega arith) (omega arith) (ground arith);
  batch = outside-range 1 4096 o.sei_batch w.sei_batch (omega arith) (omega arith) (ground arith);
  fragment =
      outside-range 128 65535 o.sei_fragment w.sei_fragment (omega arith) (omega arith)
        (ground arith);
  ack_ms =
      outside-range 100 120000 o.sei_ack_ms w.sei_ack_ms (omega arith) (omega arith) (ground arith);
}

-- six checks in a row that all passed
six_passed :
    {E : Type 0} (b1 b2 b3 b4 b5 b6 : Bool) (e1 e2 e3 e4 e5 e6 : E)
    → (reject b1 e1
        >> (reject b2 e2 >> (reject b3 e3 >> (reject b4 e4 >> (reject b5 e5 >> reject b6 e6)))))
      ≡ ok tt
    → (b1 ≡ false) × (b2 ≡ false) × (b3 ≡ false) × (b4 ≡ false) × (b5 ≡ false) × (b6 ≡ false)
six_passed b1 b2 b3 b4 b5 b6 e1 e2 e3 e4 e5 e6 h =
    (ground arith, ground arith, ground arith, ground arith, ground arith, ground arith)

or_false : (a b : Bool) → (a || b) ≡ false → (a ≡ false) × (b ≡ false)
or_false a b h = (ground arith, ground arith)

-- not a && not b
neither_false : (a b : Bool) → (not a && not b) ≡ false → (a || b) ≡ true
neither_false a b h = ground arith

video_checks :
    (o : TransportOptions)
    → validate_video o ≡ ok tt
    → (is_empty o.video_bitrate ≡ false)
      × (any is_not_bitrate o.video_bitrate ≡ false)
      × ((not (text_eq o.video_codec qrcode) && not (text_eq o.video_codec tile)) ≡ false)
      × ((outside 64 7680 o.video_width
            || outside 64 4320 o.video_height
            || outside 1 240 o.video_fps)
          ≡ false)
      × ((not (text_eq o.video_hw (codes "none")) && not (text_eq o.video_hw (codes "nvenc")))
          ≡ false)
      × ((text_eq o.video_codec tile
            && (not (o.video_width == 1080)
                || not (o.video_height == 1080)
                || outside 1 270 o.video_tile
                || outside 0 200 o.video_tile_rs))
          ≡ false)
unfolding validate_video
video_checks o h = six_passed _ _ _ _ _ _ _ _ _ _ _ _ h

tile_tests :
    (codec width height tiles rs : Bool)
    → codec ≡ true
    → (codec && (not width || not height || tiles || rs)) ≡ false
    → (width ≡ true) × (height ≡ true) × (tiles ≡ false) × (rs ≡ false)
tile_tests codec width height tiles rs e h =
    (ground arith, ground arith, ground arith, ground arith)

tile_sound :
    (o : TransportOptions)
    → AreInts o
    → o.video_codec ≡ tile
    → (text_eq o.video_codec tile
        && (not (o.video_width == 1080)
            || not (o.video_height == 1080)
            || outside 1 270 o.video_tile
            || outside 0 200 o.video_tile_rs))
      ≡ false
    → TileRange o
tile_sound o w e h =
    let named : text_eq o.video_codec tile ≡ true = rw e (text_eq_refl tile) in
    let t =
      tile_tests _ (o.video_width == 1080) (o.video_height == 1080) (outside 1 270 o.video_tile)
        (outside 0 200 o.video_tile_rs) named h in
    record {
      width = (==_iff _ _).0 t.0;
      height = (==_iff _ _).0 t.1;
      tile = outside-range 1 270 o.video_tile w.video_tile (omega arith) (omega arith) t.2;
      tile_rs = outside-range 0 200 o.video_tile_rs w.video_tile_rs (omega arith) (omega arith) t.3;
    }

pub video_sound : (o : TransportOptions) → AreInts o → validate_video o ≡ ok tt → VideoRange o
video_sound o w h =
    let c = video_checks o h in
    let a =
      or_false (outside 64 7680 o.video_width || outside 64 4320 o.video_height)
        (outside 1 240 o.video_fps) c.3 in
    let b = or_false (outside 64 7680 o.video_width) (outside 64 4320 o.video_height) a.0 in
    record {
      width = outside-range 64 7680 o.video_width w.video_width (omega arith) (omega arith) b.0;
      height = outside-range 64 4320 o.video_height w.video_height (omega arith) (omega arith) b.1;
      fps = outside-range 1 240 o.video_fps w.video_fps (omega arith) (omega arith) a.1;
      codec = neither_false (text_eq o.video_codec qrcode) (text_eq o.video_codec tile) c.2;
      bitrate_given = c.0;
      bitrate = c.1;
      hw =
          neither_false (text_eq o.video_hw (codes "none")) (text_eq o.video_hw (codes "nvenc"))
            c.4;
      tiles = λ e. tile_sound o w e c.5;
    }

transport_sound :
    (item : Instance) → AreInts item.options → validate_transport item ≡ ok tt → InRange item
unfolding validate_transport
transport_sound item w h = elim (Bool-cases (text_eq item.transport vp8channel)) [
  | inl e ↦ vp8 (text_eq→eq _ _ e) (vp8_sound item.options w (ground arith))
  | inr e1 ↦ elim (Bool-cases (text_eq item.transport seichannel)) [
    | inl e ↦ sei (text_eq→eq _ _ e) (sei_sound item.options w (ground arith))
    | inr e2 ↦ elim (Bool-cases (text_eq item.transport videochannel)) [
      | inl e ↦ video (text_eq→eq _ _ e) (video_sound item.options w (ground arith))
      | inr e3 ↦ plain e1 e2 e3
    ]
  ]
]

head_sound :
    (net : NetLib) (item : Instance)
    → validate_head net item ≡ ok tt
    → (providers item.provider ≡ true) × (transports item.transport ≡ true)
unfolding validate_head
head_sound net item h = (ground arith, ground arith)

timing_sound :
    (net : NetLib) (item : Instance)
    → item.liveness.failures < two_64
    → validate_timing net item ≡ ok tt
    → (1 ≤ item.liveness.failures) × (item.liveness.failures ≤ 100)
unfolding validate_timing
timing_sound net item w h =
    outside-range 1 100 item.liveness.failures w (omega arith) (omega arith) (ground arith)

-- An instance that Validate accepts, with options, failures and quota that are 64-bit patterns, has
-- a known provider and transport, 1 to 100 failures, a quota that is not negative and a known reset
-- policy, and the options of its transport in their ranges: for videochannel also a bitrate, a codec and
-- an acceleration that are known, and with the codec tile a frame of 1080 x 1080 and tiles in range.
pub validate_sound :
    (net : NetLib) (item : Instance)
    → AreInts item.options
    → item.liveness.failures < two_64
    → item.quota_bytes < two_64
    → validate net item ≡ ok tt
    → (providers item.provider ≡ true)
      × (transports item.transport ≡ true)
      × InRange item
      × ((1 ≤ item.liveness.failures) × (item.liveness.failures ≤ 100))
      × (item.quota_bytes < two_63)
      × (is_reset_policy item.reset_policy ≡ true)
unfolding validate
validate_sound net item w wf wq h =
    let hs = head_sound net item (ground arith) in
    (
      hs.0,
      hs.1,
      transport_sound item w (ground arith),
      timing_sound net item wf (ground arith),
      ground arith,
      ground arith,
    )
