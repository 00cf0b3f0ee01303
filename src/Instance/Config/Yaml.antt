-- ===== src/Instance/Config/Yaml.antt =====
-- internal/instance/config.go: the YAML document of an instance. yaml.Marshal and the check that
-- its output parses are parameters.
use olcrtc_panel_lite.Common.{
  ℕ, Bool, not, ◌||◌, Option, none, some, ◌==◌, if◌then◌else◌, Result, ok, err, ◌>>=◌, ◌>>◌,
  wrap_err,
}
use olcrtc_panel_lite.Text.{Text, codes, text_eq, is_empty}
use olcrtc_panel_lite.Model.{Instance}
use olcrtc_panel_lite.Instance.Names.{vp8channel, seichannel, videochannel}
use olcrtc_panel_lite.Instance.Net.{NetLib}
use olcrtc_panel_lite.Instance.Config.Proxy.{Proxy, ProxyError, parse_proxy}
use olcrtc_panel_lite.Instance.Config.Validate.{ConfigError, validate}

pub record YamlAuth : Type 0 where
  pub provider : Text
  pub token : Text

pub record YamlRoom : Type 0 where
  pub id : Text
  pub channel : Text

pub record YamlCrypto : Type 0 where
  pub key_file : Text

pub record YamlNet : Type 0 where
  pub transport : Text
  pub dns : Text

pub record YamlSocks : Type 0 where
  pub proxy_addr : Text
  pub proxy_port : ℕ
  pub proxy_user : Text
  pub proxy_pass : Text

pub record YamlVp8 : Type 0 where
  pub fps : ℕ
  pub batch_size : ℕ

pub record YamlSei : Type 0 where
  pub fps : ℕ
  pub batch_size : ℕ
  pub fragment_size : ℕ
  pub ack_timeout_ms : ℕ

pub record YamlVideo : Type 0 where
  pub codec : Text
  pub width : ℕ
  pub height : ℕ
  pub fps : ℕ
  pub bitrate : Text
  pub hw : Text
  pub qr_size : ℕ
  pub qr_recovery : Text
  pub tile_module : ℕ
  pub tile_rs : ℕ

pub record YamlLiveness : Type 0 where
  pub interval : Text
  pub timeout : Text
  pub failures : ℕ

pub record YamlLifecycle : Type 0 where
  pub max_session_duration : Text

pub record YamlTraffic : Type 0 where
  pub max_payload_size : ℕ
  pub min_delay : Text
  pub max_delay : Text

pub record YamlConfig : Type 0 where
  pub mode : Text
  pub auth : YamlAuth
  pub room : YamlRoom
  pub crypto : YamlCrypto
  pub network : YamlNet
  pub socks : Option YamlSocks
  pub video : Option YamlVideo
  pub vp8 : Option YamlVp8
  pub sei : Option YamlSei
  pub liveness : YamlLiveness
  pub lifecycle : Option YamlLifecycle
  pub traffic : Option YamlTraffic
  pub data_path : Text
  pub debug : Bool

pub data RenderError : Type 0 where
  invalid : ConfigError → RenderError
  proxy_error : ProxyError → RenderError
  marshal_failed not_yaml : RenderError

unfoldable pub socks_block : Proxy → YamlSocks
socks_block p = record {
  proxy_addr = p.addr;
  proxy_port = p.port;
  proxy_user = p.user;
  proxy_pass = p.pass;
}

-- the socks block: none without a proxy
unfoldable pub yaml_socks : NetLib → Text → Result RenderError (Option YamlSocks)
yaml_socks net value =
    if is_empty value
    then ok none
    else wrap_err proxy_error (parse_proxy net value) >>= λ p. ok (some (socks_block p))

unfoldable pub yaml_vp8 : Instance → Option YamlVp8
yaml_vp8 item =
    if text_eq item.transport vp8channel
    then some (record { fps = item.options.vp8_fps; batch_size = item.options.vp8_batch })
    else none

unfoldable pub yaml_sei : Instance → Option YamlSei
yaml_sei item =
    if text_eq item.transport seichannel
    then some (record {
      fps = item.options.sei_fps;
      batch_size = item.options.sei_batch;
      fragment_size = item.options.sei_fragment;
      ack_timeout_ms = item.options.sei_ack_ms;
    })
    else none

unfoldable pub yaml_video : Instance → Option YamlVideo
yaml_video item =
    if text_eq item.transport videochannel
    then some (record {
      codec = item.options.video_codec;
      width = item.options.video_width;
      height = item.options.video_height;
      fps = item.options.video_fps;
      bitrate = item.options.video_bitrate;
      hw = item.options.video_hw;
      qr_size = item.options.video_qr_size;
      qr_recovery = item.options.video_qr_recover;
      tile_module = item.options.video_tile;
      tile_rs = item.options.video_tile_rs;
    })
    else none

unfoldable pub yaml_lifecycle : Instance → Option YamlLifecycle
yaml_lifecycle item =
    if is_empty item.max_session_duration
    then none
    else some (record { max_session_duration = item.max_session_duration })

unfoldable pub yaml_traffic : Instance → Option YamlTraffic
yaml_traffic item =
    let t = item.traffic in
    if not (t.max_payload_size == 0) || not (is_empty t.min_delay) || not (is_empty t.max_delay)
    then some (record {
      max_payload_size = t.max_payload_size;
      min_delay = t.min_delay;
      max_delay = t.max_delay;
    })
    else none

-- the document, once its socks block is known
unfoldable pub yaml_config : Instance → Text → Text → Option YamlSocks → YamlConfig
yaml_config item key_path data_path socks = record {
  mode = codes "srv";
  auth = record { provider = item.provider; token = item.auth_token };
  room = record { id = item.room_id; channel = item.room_channel };
  crypto = record { key_file = key_path };
  network = record { transport = item.transport; dns = item.dns };
  socks = socks;
  video = yaml_video item;
  vp8 = yaml_vp8 item;
  sei = yaml_sei item;
  liveness = record {
    interval = item.liveness.interval;
    timeout = item.liveness.timeout;
    failures = item.liveness.failures;
  };
  lifecycle = yaml_lifecycle item;
  traffic = yaml_traffic item;
  data_path = data_path;
  debug = item.debug;
}

-- RenderYAML, with yaml.Marshal and yaml.Unmarshal(b) == nil
unfoldable pub render_yaml :
    NetLib
    → (YamlConfig → Option Text)
    → (Text → Bool)
    → Instance
    → Text
    → Text
    → Result RenderError Text
render_yaml net marshal parses item key_path data_path = do
  wrap_err invalid (validate net item)
  socks ← yaml_socks net item.outbound_proxy
  let document = marshal (yaml_config item key_path data_path socks)
  elim document as (λ _. Result RenderError Text) [
    | none ↦ err marshal_failed
    | some b ↦ if parses b then ok b else err not_yaml
  ]
