-- ===== src/Panel/Sound.antt =====
-- internal/config/config.go: what Validate of a Config guarantees.
use olcrtc_panel_lite.Common.{
  ◌≤◌, ◌<◌, ◌≡◌, Bool, true, false, not, ◌&&◌, ◌⊎◌, inl, inr, outside, outside-range, ok, reject,
  wrap_err, >>-eq-ok, reject-ok, two_64, arith,
}
use olcrtc_panel_lite.Text.{codes, Text}
use olcrtc_panel_lite.Text.Equality.{text_eq-cases}
use olcrtc_panel_lite.Instance.Net.{NetLib}
use olcrtc_panel_lite.Panel.Paths.{paths_overlap, validate_mount_path, validate_public_origin}
use olcrtc_panel_lite.Panel.Settings.{
  Config, mounts_clash, validate_config, lacks_required, setting_empty, bad_public_port,
  bad_max_instances, mounts_overlap, bad_origin, bad_panel_path, bad_subscription_path,
}

overlap_false : (b c : Bool) → b ≡ false → (not b && c) ≡ false → c ≡ false
overlap_false true c e h = cc
overlap_false false c e h = h

root_or_apart :
    (c : Config)
    → mounts_clash c ≡ false
    → (c.panel_path ≡ codes "/") ⊎ (paths_overlap c.panel_path c.subscription_path ≡ false)
unfolding mounts_clash
root_or_apart c h = elim (text_eq-cases c.panel_path (codes "/")) [
  | inl e ↦ inl e
  | inr e ↦ inr (overlap_false _ _ e h)
]

-- A configuration that passes Validate has a port from 1 to 65535 and a limit of instances from 1 to
-- 1000, and the panel is at the root or its mount and that of the subscriptions do not overlap.
pub validate_config_sound :
    (net : NetLib) (is_cidr : Text → Bool) (c : Config)
    → c.public_port < two_64
    → c.max_instances < two_64
    → validate_config net is_cidr c ≡ ok tt
    → ((1 ≤ c.public_port) × (c.public_port ≤ 65535))
      × ((1 ≤ c.max_instances) × (c.max_instances ≤ 1000))
      × ((c.panel_path ≡ codes "/") ⊎ (paths_overlap c.panel_path c.subscription_path ≡ false))
unfolding validate_config
validate_config_sound net is_cidr c hp hm h =
    let p1 = >>-eq-ok (reject (lacks_required c) setting_empty) _ h in
    let p2 = >>-eq-ok (reject (outside 1 65535 c.public_port) bad_public_port) _ p1.1 in
    let p3 = >>-eq-ok (reject (outside 1 1000 c.max_instances) bad_max_instances) _ p2.1 in
    let p4 = >>-eq-ok (wrap_err bad_origin (validate_public_origin net c.public_origin)) _ p3.1 in
    let p5 = >>-eq-ok (wrap_err bad_panel_path (validate_mount_path c.panel_path true)) _ p4.1 in
    let p6 =
      >>-eq-ok (wrap_err bad_subscription_path (validate_mount_path c.subscription_path false)) _
        p5.1 in
    let p7 = >>-eq-ok (reject (mounts_clash c) mounts_overlap) _ p6.1 in
    (
      outside-range 1 65535 c.public_port hp (omega arith) (omega arith)
          (reject-ok _ bad_public_port p2.0),
      outside-range 1 1000 c.max_instances hm (omega arith) (omega arith)
          (reject-ok _ bad_max_instances p3.0),
      root_or_apart c (reject-ok _ mounts_overlap p7.0),
    )
