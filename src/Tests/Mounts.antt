-- ===== src/Tests/Mounts.antt =====
-- Sample runs for internal/config/config.go.
use olcrtc_panel_lite.Common.{◌≡◌, ◌≢◌, ap, ◌≤◌, ◌⊎◌, refl, true, false, ok, arith}
use olcrtc_panel_lite.Text.{
  codes, text_eq, has_prefix, split, trim_space, trim_left, trim_right, is_space, contains,
}
use olcrtc_panel_lite.Panel.Paths.{
  paths_overlap, join_url_path, validate_public_origin, validate_mount_path, ends_with_slash,
  without_slash, is_unsafe_segment, is_segment_rune,
}
use olcrtc_panel_lite.Panel.Settings.{
  Config, default, validate_config, lacks_required, mounts_clash, validate_trusted_proxies,
}
use olcrtc_panel_lite.Panel.Sound.{validate_config_sound}
use olcrtc_panel_lite.Tests.Samples.{sample_net}
use olcrtc_panel_lite.Panel.Disjoint.{join_url_path-apart}

default_valid : validate_config sample_net (λ value. true) default ≡ ok tt
unfolding validate_config default lacks_required mounts_clash validate_trusted_proxies
    validate_public_origin validate_mount_path ends_with_slash without_slash is_unsafe_segment
    is_segment_rune split text_eq has_prefix trim_space trim_left trim_right is_space contains
default_valid = refl

validate_config_sound_example :
    ((1 ≤ default.public_port) × (default.public_port ≤ 65535))
    × ((1 ≤ default.max_instances) × (default.max_instances ≤ 1000))
    × ((default.panel_path ≡ codes "/")
        ⊎ (paths_overlap default.panel_path default.subscription_path ≡ false))
unfolding default
validate_config_sound_example =
    validate_config_sound sample_net (λ value. true) default (omega arith) (omega arith)
      default_valid

abbrev below_root : Config
unfolding default
below_root = record default { panel_path = codes "/panel" }

below_root_valid : validate_config sample_net (λ value. true) below_root ≡ ok tt
unfolding below_root validate_config default lacks_required mounts_clash validate_trusted_proxies
    validate_public_origin validate_mount_path ends_with_slash without_slash is_unsafe_segment
    is_segment_rune split text_eq has_prefix trim_space trim_left trim_right is_space contains
    paths_overlap
below_root_valid = refl

not_at_root : below_root.panel_path ≢ codes "/"
unfolding below_root text_eq
not_at_root e =
    let same : text_eq (codes "/panel") (codes "/") ≡ true = ap (λ t. text_eq t (codes "/")) e in cc

join_url_path-apart_example :
    join_url_path below_root.panel_path (codes "login")
    ≢ join_url_path below_root.subscription_path (codes "x")
join_url_path-apart_example =
    join_url_path-apart sample_net (λ value. true) below_root (codes "login") (codes "x")
      below_root_valid not_at_root
