-- ===== src/Instance/Config/Rendered.antt =====
-- internal/instance/config.go: what stands in a document that RenderYAML writes.
use olcrtc_panel_lite.Common.{
  ◌≡◌, ◌≤◌, refl, sym, ap, ◌∙◌, Bool, true, false, Option, none, some, arith, Result, ok, err,
  wrap_err, if◌then◌else◌, Bool-cases, inl, inr, if_true, if_false, >>=-eq-ok, >>-eq-ok,
  ok-injective,
}
use olcrtc_panel_lite.Text.{Text, text_eq, is_empty, trim_space}
use olcrtc_panel_lite.Text.Equality.{text_eq→eq}
use olcrtc_panel_lite.Model.{Instance}
use olcrtc_panel_lite.Instance.Names.{vp8channel, seichannel, videochannel}
use olcrtc_panel_lite.Instance.Net.{NetLib}
use olcrtc_panel_lite.Instance.Config.Proxy.{Proxy, parse_proxy}
use olcrtc_panel_lite.Instance.Config.Reachable.{parse_proxy-cases}
use olcrtc_panel_lite.Instance.Config.Validate.{
  validate, validate_transport, validate_vp8, validate_sei, validate_video,
}
use olcrtc_panel_lite.Instance.Config.Sound.{AreInts, vp8_sound, sei_sound, video_sound}
use olcrtc_panel_lite.Instance.Config.Yaml.{
  YamlConfig, YamlSocks, YamlVp8, YamlSei, YamlVideo, RenderError, invalid, proxy_error,
  socks_block, yaml_socks, yaml_vp8, yaml_sei, yaml_video, yaml_config, render_yaml,
}

-- the socks block of a proxy: none for no proxy, one without a host for blanks, or a host and a port in
-- range
pub data SocksOf (proxy : Text) (o : Option YamlSocks) : Type 0 where
  no_socks : is_empty proxy ≡ true → o ≡ none → SocksOf proxy o
  blank_socks :
      (s : YamlSocks)
      → is_empty proxy ≡ false
      → is_empty (trim_space proxy) ≡ true
      → o ≡ some s
      → s.proxy_port ≡ 0
      → SocksOf proxy o
  host_socks :
      (s : YamlSocks)
      → is_empty (trim_space proxy) ≡ false
      → o ≡ some s
      → is_empty s.proxy_addr ≡ false
      → (1 ≤ s.proxy_port) × (s.proxy_port ≤ 65535)
      → SocksOf proxy o

-- a block that stands in the document exactly if it is used
pub data BlockFor {B : Type 0} (used : Bool) (P : B → Type 0) (o : Option B) : Type 0 where
  absent : used ≡ false → o ≡ none → BlockFor used P o
  present : (b : B) → used ≡ true → o ≡ some b → P b → BlockFor used P o

pub record Vp8Block (b : YamlVp8) : Type 0 where
  pub fps : (1 ≤ b.fps) × (b.fps ≤ 240)
  pub batch_size : (1 ≤ b.batch_size) × (b.batch_size ≤ 4096)

pub record SeiBlock (b : YamlSei) : Type 0 where
  pub fps : (1 ≤ b.fps) × (b.fps ≤ 240)
  pub batch_size : (1 ≤ b.batch_size) × (b.batch_size ≤ 4096)
  pub fragment_size : (128 ≤ b.fragment_size) × (b.fragment_size ≤ 65535)
  pub ack_timeout_ms : (100 ≤ b.ack_timeout_ms) × (b.ack_timeout_ms ≤ 120000)

pub record VideoBlock (b : YamlVideo) : Type 0 where
  pub width : (64 ≤ b.width) × (b.width ≤ 7680)
  pub height : (64 ≤ b.height) × (b.height ≤ 4320)
  pub fps : (1 ≤ b.fps) × (b.fps ≤ 240)

pub record IsDocument (item : Instance) (key_path data_path : Text) (c : YamlConfig) : Type 0 where
  pub key_file : c.crypto.key_file ≡ key_path
  pub data_dir : c.data_path ≡ data_path
  pub token : c.auth.token ≡ item.auth_token
  pub socks : SocksOf item.outbound_proxy c.socks
  pub vp8 : BlockFor (text_eq item.transport vp8channel) Vp8Block c.vp8
  pub sei : BlockFor (text_eq item.transport seichannel) SeiBlock c.sei
  pub video : BlockFor (text_eq item.transport videochannel) VideoBlock c.video

block :
    {B : Type 0} (used : Bool) (P : B → Type 0) (b : B)
    → (used ≡ true → P b)
    → BlockFor used P (if used then some b else none)
block true P b k = present b refl refl (k refl)
block false P b k = absent refl refl

wrap_err-eq : {E F A : Type 0} (f : E → F) (r : Result E A) (a : A) → wrap_err f r ≡ ok a → r ≡ ok a
wrap_err-eq f (ok b) a h = cc
wrap_err-eq f (err e) a h = cc

yaml_socks-SocksOf :
    (net : NetLib) (value : Text) (o : Option YamlSocks)
    → yaml_socks net value ≡ ok o
    → SocksOf value o
unfolding yaml_socks socks_block
yaml_socks-SocksOf net value o h = elim (Bool-cases (is_empty value)) [
  | inl e ↦ no_socks e (sym (ok-injective (sym (if_true _ _ _ e) ∙ h)))
  | inr e ↦
      let (p, parsed, h1) =
        >>=-eq-ok (wrap_err proxy_error (parse_proxy net value)) _ (sym (if_false _ _ _ e) ∙ h) in
      let shown = sym (ok-injective h1) in
      elim (parse_proxy-cases net value p (wrap_err-eq proxy_error _ p parsed)) [
        | inl (blank, same) ↦
            blank_socks (socks_block p) e blank shown (ap (λ (q : Proxy). q.port) same)
        | inr (full, reachable) ↦
            host_socks (socks_block p) full shown reachable.host reachable.port
      ]
]

-- the options behind the switch of validateTransport
vp8_checked :
    (item : Instance)
    → validate_transport item ≡ ok tt
    → text_eq item.transport vp8channel ≡ true
    → validate_vp8 item.options ≡ ok tt
unfolding validate_transport
vp8_checked item h e = sym (if_true _ _ _ e) ∙ h

sei_checked :
    (item : Instance)
    → validate_transport item ≡ ok tt
    → text_eq item.transport seichannel ≡ true
    → validate_sei item.options ≡ ok tt
unfolding validate_transport text_eq
sei_checked item h e =
    let other : text_eq item.transport vp8channel ≡ false =
      ap (λ t. text_eq t vp8channel) {x = item.transport} {y = seichannel} (text_eq→eq _ _ e) in
    sym (if_true _ _ _ e) ∙ (sym (if_false _ _ _ other) ∙ h)

video_checked :
    (item : Instance)
    → validate_transport item ≡ ok tt
    → text_eq item.transport videochannel ≡ true
    → validate_video item.options ≡ ok tt
unfolding validate_transport text_eq
video_checked item h e =
    let vp8 : text_eq item.transport vp8channel ≡ false =
      ap (λ t. text_eq t vp8channel) {x = item.transport} {y = videochannel} (text_eq→eq _ _ e) in
    let sei : text_eq item.transport seichannel ≡ false =
      ap (λ t. text_eq t seichannel) {x = item.transport} {y = videochannel} (text_eq→eq _ _ e) in
    sym (if_true _ _ _ e) ∙ (sym (if_false _ _ _ sei) ∙ (sym (if_false _ _ _ vp8) ∙ h))

yaml_config-IsDocument :
    (net : NetLib) (item : Instance) (key_path data_path : Text) (o : Option YamlSocks)
    → AreInts item.options
    → validate_transport item ≡ ok tt
    → yaml_socks net item.outbound_proxy ≡ ok o
    → IsDocument item key_path data_path (yaml_config item key_path data_path o)
unfolding yaml_config yaml_vp8 yaml_sei yaml_video
yaml_config-IsDocument net item key_path data_path o w h s = record {
  key_file = refl;
  data_dir = refl;
  token = refl;
  socks = yaml_socks-SocksOf net item.outbound_proxy o s;
  vp8 = block _ Vp8Block _ (λ e.
      let r = vp8_sound item.options w (vp8_checked item h e) in
      record { fps = r.fps; batch_size = r.batch });
  sei = block _ SeiBlock _ (λ e.
      let r = sei_sound item.options w (sei_checked item h e) in
      record {
        fps = r.fps;
        batch_size = r.batch;
        fragment_size = r.fragment;
        ack_timeout_ms = r.ack_ms;
      });
  video = block _ VideoBlock _ (λ e.
      let r = video_sound item.options w (video_checked item h e) in
      record { width = r.width; height = r.height; fps = r.fps });
}

transport_valid :
    (net : NetLib) (item : Instance) → validate net item ≡ ok tt → validate_transport item ≡ ok tt
unfolding validate
transport_valid net item h = ground arith

marshalled :
    (o : Option Text) (parses : Text → Bool) (text : Text)
    → elim o as (λ _. Result RenderError Text) [
      | none ↦ err RenderError.marshal_failed
      | some b ↦ if parses b then ok b else err RenderError.not_yaml
    ]
      ≡ ok text
    → (o ≡ some text) × (parses text ≡ true)
marshalled none parses text h = cc
marshalled (some b) parses text h = elim (Bool-cases (parses b)) [
  | inr e ↦ absurd (ground arith)
  | inl e ↦
      let same : b ≡ text = ok-injective (sym (if_true _ _ _ e) ∙ h) in
      (ap (λ t. some t) same, rw (← same) e)
]

-- What RenderYAML returns is the text of a document, and parses. The document names the key file, the
-- data directory and the token of the instance, has a socks block exactly if the instance has a proxy,
-- with a host and a port from 1 to 65535 unless the proxy is blank, and of the blocks of the transports
-- exactly that of the instance's transport, with its numbers in range, where the options are 64-bit
-- patterns.
pub render_yaml-IsDocument :
    (net : NetLib) (marshal : YamlConfig → Option Text) (parses : Text → Bool) (item : Instance)
    (key_path data_path text : Text)
    → AreInts item.options
    → render_yaml net marshal parses item key_path data_path ≡ ok text
    → (c : YamlConfig) × (marshal c ≡ some text)
      × (parses text ≡ true)
      × IsDocument item key_path data_path c
unfolding render_yaml
render_yaml-IsDocument net marshal parses item key_path data_path text w h =
    let (valid, h1) = >>-eq-ok (wrap_err invalid (validate net item)) _ h in
    let (o, s, h2) = >>=-eq-ok (yaml_socks net item.outbound_proxy) _ h1 in
    let c = yaml_config item key_path data_path o in
    let (e, p) = marshalled (marshal c) parses text h2 in
    (
      c,
      e,
      p,
      yaml_config-IsDocument net item key_path data_path o w
          (transport_valid net item (wrap_err-eq invalid _ tt valid)) s,
    )
