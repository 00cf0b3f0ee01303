-- ===== src/Panel/Settings.antt =====
-- internal/config/config.go: Config with its defaults, Validate, ValidateTrustedProxies and the public URLs.
use olcrtc_panel_lite.Common.{
  ℕ, Bool, true, false, not, ◌&&◌, ◌||◌, List, [], ◌∷◌, ◌++◌, if◌then◌else◌, outside, Check, ok,
  reject, wrap_err, ◌>>◌,
}
use olcrtc_panel_lite.Text.{Text, codes, text_eq, is_empty, contains, trim_space, trim_suffix_rune}
use olcrtc_panel_lite.Text.Number.{itoa}
use olcrtc_panel_lite.Instance.Net.{NetLib}
use olcrtc_panel_lite.Panel.Paths.{
  PathError, OriginError, validate_mount_path, validate_public_origin, paths_overlap,
}

pub record Config : Type 0 where
  pub listen : Text
  pub public_ip : Text
  pub public_port : ℕ
  pub public_origin : Text
  pub panel_path : Text
  pub subscription_path : Text
  pub trusted_proxies : List Text
  pub database_path : Text
  pub master_key_path : Text
  pub instances_dir : Text
  pub runtime_dir : Text
  pub tls_dir : Text
  pub backup_dir : Text
  pub release_dir : Text
  pub olcrtc_binary : Text
  pub systemd_enabled : Bool
  pub max_instances : ℕ
  pub cookie_name : Text
  pub hsts : Bool
  pub release_manifest_url : Text
  pub upstream_sha : Text
  pub panel_version : Text

-- Default
unfoldable pub default : Config
default = record {
  listen = codes "0.0.0.0:8443";
  public_ip = codes "";
  public_port = 8443;
  public_origin = codes "";
  panel_path = codes "/";
  subscription_path = codes "/sub";
  trusted_proxies = codes "127.0.0.1/32" ∷ codes "::1/128" ∷ [];
  database_path = codes "/var/lib/olcrtc-panel/panel.db";
  master_key_path = codes "/etc/olcrtc-panel/master.key";
  instances_dir = codes "/etc/olcrtc-panel/instances";
  runtime_dir = codes "/var/lib/olcrtc";
  tls_dir = codes "/var/lib/olcrtc-panel/tls";
  backup_dir = codes "/var/lib/olcrtc-panel/backups";
  release_dir = codes "/var/lib/olcrtc-panel/releases";
  olcrtc_binary = codes "/usr/local/bin/olcrtc";
  systemd_enabled = true;
  max_instances = 20;
  cookie_name = codes "olcrtc_panel_session";
  hsts = false;
  release_manifest_url = codes "";
  upstream_sha = codes "";
  panel_version = codes "dev";
}

pub data PanelError : Type 0 where
  setting_empty bad_public_port bad_max_instances mounts_overlap proxy_not_trimmed proxy_not_cidr :
      PanelError
  bad_origin : OriginError → PanelError
  bad_panel_path bad_subscription_path : PathError → PanelError

-- ValidateTrustedProxies, with net.ParseCIDR(value) == nil
unfoldable pub validate_trusted_proxies : (Text → Bool) → List Text → Check PanelError
validate_trusted_proxies is_cidr [] = ok tt
validate_trusted_proxies is_cidr (value ∷ values) =
    reject (not (text_eq (trim_space value) value) || is_empty value) proxy_not_trimmed
    >> (reject (not (is_cidr value)) proxy_not_cidr >> validate_trusted_proxies is_cidr values)

-- a required setting is empty
unfoldable pub lacks_required : Config → Bool
lacks_required c =
    is_empty c.listen
    || is_empty c.database_path
    || is_empty c.master_key_path
    || is_empty c.instances_dir
    || is_empty c.tls_dir

-- the mounts of the panel and of the subscriptions overlap
unfoldable pub mounts_clash : Config → Bool
mounts_clash c =
    not (text_eq c.panel_path (codes "/")) && paths_overlap c.panel_path c.subscription_path

-- Validate of a Config
unfoldable pub validate_config : NetLib → (Text → Bool) → Config → Check PanelError
validate_config net is_cidr c =
    reject (lacks_required c) setting_empty
    >> (reject (outside 1 65535 c.public_port) bad_public_port
        >> (reject (outside 1 1000 c.max_instances) bad_max_instances
            >> (wrap_err bad_origin (validate_public_origin net c.public_origin)
                >> (wrap_err bad_panel_path (validate_mount_path c.panel_path true)
                    >> (wrap_err bad_subscription_path
                          (validate_mount_path c.subscription_path false)
                        >> (reject (mounts_clash c) mounts_overlap
                            >> validate_trusted_proxies is_cidr c.trusted_proxies))))))

-- PublicBaseURL without an origin
unfoldable pub address_url : Config → Text
address_url c =
    let host = if is_empty c.public_ip then codes "127.0.0.1" else c.public_ip in
    let bracketed = if contains host (codes ":") then codes "[" ++ (host ++ codes "]") else host in
    codes "https://" ++ (bracketed ++ (codes ":" ++ itoa c.public_port))

-- PublicBaseURL
unfoldable pub public_base_url : Config → Text
public_base_url c =
    let origin = trim_suffix_rune (trim_space c.public_origin) b'/' in
    if is_empty origin then address_url c else origin

-- PublicPanelURL
unfoldable pub public_panel_url : Config → Text
public_panel_url c = trim_suffix_rune (public_base_url c) b'/' ++ c.panel_path

-- PublicSubscriptionBaseURL
unfoldable pub public_subscription_base_url : Config → Text
public_subscription_base_url c = trim_suffix_rune (public_base_url c) b'/' ++ c.subscription_path
