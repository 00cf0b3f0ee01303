-- ===== src/Tests/Configs.antt =====
-- Sample runs for internal/instance/config.go.
use olcrtc_panel_lite.Common.{◌≡◌, ◌≤◌, ◌<◌, refl, ok, arith, [], Option, some, two_63, true}
use olcrtc_panel_lite.Text.{Text, codes, text_eq, trim_space, trim_left, trim_right, is_space}
use olcrtc_panel_lite.Instance.Names.{providers, transports}
use olcrtc_panel_lite.Tests.Samples.{sample_instance, sample_options, sample_net}
use olcrtc_panel_lite.Instance.Uri.Client.{client_compatible}
use olcrtc_panel_lite.Instance.Config.Warning.{compatibility_warning, compatible-without_warning}
use olcrtc_panel_lite.Instance.Config.Validate.{
  validate, validate_head, validate_proxy, validate_timing, validate_optional, validate_duration,
  validate_transport, validate_vp8, is_reset_policy,
}
use olcrtc_panel_lite.Instance.Config.Yaml.{YamlConfig, render_yaml, yaml_config, yaml_socks}
use olcrtc_panel_lite.Instance.Config.Rendered.{IsDocument, render_yaml-IsDocument}
use olcrtc_panel_lite.Instance.Config.Sound.{AreInts, InRange, validate_sound}

sample_pair : client_compatible (codes "wbstream") (codes "vp8channel") ≡ true
unfolding client_compatible text_eq
sample_pair = refl

compatible-without_warning_example :
    compatibility_warning (codes "wbstream") (codes "vp8channel") ≡ []
compatible-without_warning_example =
    compatible-without_warning (codes "wbstream") (codes "vp8channel") sample_pair

sample_valid : validate sample_net sample_instance ≡ ok tt
unfolding validate validate_head validate_proxy validate_timing validate_optional validate_duration
    validate_transport validate_vp8 is_reset_policy providers transports text_eq trim_space
    trim_left trim_right is_space
sample_valid = refl

sample_AreInts : AreInts sample_options
sample_AreInts = record {
  video_tile = omega arith;
  video_tile_rs = omega arith;
  vp8_fps = omega arith;
  vp8_batch = omega arith;
  sei_fps = omega arith;
  sei_batch = omega arith;
  sei_fragment = omega arith;
  sei_ack_ms = omega arith;
  video_width = omega arith;
  video_height = omega arith;
  video_fps = omega arith;
}

validate_sound_example :
    (providers (codes "wbstream") ≡ true)
    × (transports (codes "vp8channel") ≡ true)
    × InRange sample_instance
    × ((1 ≤ 3) × (3 ≤ 100))
    × (4096 < two_63)
    × (is_reset_policy sample_instance.reset_policy ≡ true)
validate_sound_example =
    validate_sound sample_net sample_instance sample_AreInts (omega arith) (omega arith)
      sample_valid

-- a writer and a parser of documents
abbrev write_mode : YamlConfig → Text
write_mode c = c.mode

sample_rendered :
    render_yaml sample_net
      (λ c. some (write_mode c))
      (λ t. true)
      sample_instance
      (codes "/k")
      (codes "/d")
    ≡ ok (codes "srv")
unfolding render_yaml yaml_socks yaml_config validate validate_head validate_proxy validate_timing
    validate_optional validate_duration validate_transport validate_vp8 is_reset_policy providers
    transports text_eq trim_space trim_left trim_right is_space
sample_rendered = refl

render_yaml-IsDocument_example :
    (c : YamlConfig) × (◌≡◌ {A = Option Text} (some (write_mode c)) (some (codes "srv")))
    × (true ≡ true)
    × IsDocument sample_instance (codes "/k") (codes "/d") c
render_yaml-IsDocument_example =
    render_yaml-IsDocument sample_net (λ c. some (write_mode c)) (λ t. true) sample_instance
      (codes "/k") (codes "/d") (codes "srv") sample_AreInts sample_rendered
