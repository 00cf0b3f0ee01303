-- ===== src/Subscription/Mirror.antt =====
-- internal/subscription/service.go: Bundle, SyncMirror, Delete and mirrorClient, over the store, the
-- secrets and the client of the mirror that a Service holds.
use olcrtc_panel_lite.Common.{
  ℕ, Bool, true, false, not, ◌&&◌, ◌||◌, Option, none, some, List, [], ◌∷◌, ◌++◌, if◌then◌else◌,
  Result, Check, ok, err, ◌>>=◌, ◌>>◌, reject, wrap_err,
}
use olcrtc_panel_lite.Text.{Text, codes, text_eq, is_empty, trim_space}
use olcrtc_panel_lite.Model.{Subscription}
use olcrtc_panel_lite.Instance.Net.{NetLib}
use olcrtc_panel_lite.Subscription.Feed.{Sources, standard}

-- the answer of Store.Setting
pub data Setting : Type 0 where
  present : Text → Setting
  missing broken : Setting

-- mirror.Client
pub record Client : Type 0 where
  pub token : Text
  pub base_path : Text

-- what a Service calls, on a world of the database and the remote disk
pub record Backend : Type 1 where
  pub World : Type 0
  pub sources : World → Sources
  pub setting : World → Text → Setting
  pub mirror_key : World → ℕ → Option Text
  pub decrypt : Text → Option Text
  pub decode_key : Text → Option Text
  pub encrypt : World → Text → Text → Option Text
  pub upload : World → Client → Text → Text → World × Option Text
  pub remote_delete : World → Client → Text → World × Bool
  pub set_mirror : World → ℕ → Text → Text → World × Bool
  pub delete_subscription : World → Text → World × Bool

pub data MirrorError : Type 0 where
  globally_disabled no_subscription mirror_disabled no_feed no_key bad_key not_encrypted :
      MirrorError
  token_missing setting_broken secret_broken cleanup_failed upload_failed store_failed disabled :
      MirrorError

unfoldable pub found : {A : Type 0} → MirrorError → Option A → Result MirrorError A
found e none = err e
found e (some a) = ok a

-- SettingOrDefault
unfoldable pub setting_or_default : Setting → Text → Result MirrorError Text
setting_or_default (present v) fallback = ok v
setting_or_default missing fallback = ok fallback
setting_or_default broken fallback = err setting_broken

unfoldable pub setting_value : Setting → Result MirrorError Text
setting_value (present v) = ok v
setting_value missing = err token_missing
setting_value broken = err token_missing

-- bundleMirror and clientBundle, with their constants
pub record BundleMirror : Type 0 where
  pub type : Text
  pub url : Text
  pub encrypted : Bool
  pub algorithm : Text

pub record ClientBundle : Type 0 where
  pub type : Text
  pub version : ℕ
  pub name : Text
  pub slug : Text
  pub url : Text
  pub mirrors : List BundleMirror
  pub mirror_key : Text
  pub update_when_connected_only : Bool
  pub deduplication : Bool

unfoldable pub yandex_mirror : Text → BundleMirror
yandex_mirror url = record {
  type = codes "yandex_disk";
  url = url;
  encrypted = true;
  algorithm = codes "AES-256-GCM";
}

unfoldable pub client_bundle : Text → Subscription → List BundleMirror → Text → ClientBundle
client_bundle base_url sub mirrors key = record {
  type = codes "olcrtc-sub";
  version = 2;
  name = sub.name;
  slug = sub.slug;
  url = base_url ++ (b'/' ∷ sub.slug);
  mirrors = mirrors;
  mirror_key = key;
  update_when_connected_only = false;
  deduplication = true;
}

-- mirrorMayExist
unfoldable pub mirror_may_exist : Subscription → Bool
mirror_may_exist sub =
    sub.mirror_enabled
    || not (is_empty sub.mirror_public_url)
    || (not (is_empty sub.mirror_status) && not (text_eq sub.mirror_status (codes "disabled")))

module _ (b : Backend) where
  -- the key of a mirror in the clear
  unfoldable pub plain_key : b.World → Subscription → Result MirrorError Text
  plain_key w sub = do
    encrypted ← found no_key (b.mirror_key w sub.id)
    found secret_broken (b.decrypt encrypted)

  -- Bundle, before json.Marshal
  unfoldable pub bundle : b.World → Text → Text → Result MirrorError ClientBundle
  bundle w base_url slug = do
    let sources = b.sources w
    sub ← found no_subscription (sources.subscription slug)
    reject (not sub.enabled) disabled
    if sub.mirror_enabled && not (is_empty sub.mirror_public_url)
        then (plain_key w sub >>= λ key.
            ok (client_bundle base_url sub (yandex_mirror sub.mirror_public_url ∷ []) key))
        else ok (client_bundle base_url sub [] [])

  -- mirrorClient
  unfoldable pub mirror_client : b.World → Result MirrorError Client
  mirror_client w = do
    encrypted ← setting_value (b.setting w (codes "yandex_oauth_token"))
    token ← found secret_broken (b.decrypt encrypted)
    reject (is_empty (trim_space token)) token_missing
    base_path ←
        setting_or_default (b.setting w (codes "yandex_base_path")) (codes "/olcrtc/subscriptions")
    ok (record { token = token; base_path = base_path })

  -- the feed, encrypted for the mirror, and the client to send it with
  unfoldable pub mirror_payload :
      NetLib → b.World → Text → Subscription → Result MirrorError (Text × Client)
  mirror_payload net w slug sub = do
    feed ← elim (standard net (b.sources w) slug) [ ok (text, s) ↦ ok text | err e ↦ err no_feed ]
    encoded ← plain_key w sub
    key ← found bad_key (b.decode_key encoded)
    payload ← found not_encrypted (b.encrypt w key feed)
    client ← mirror_client w
    ok (payload, client)

  -- the checks of SyncMirror and what it uploads
  unfoldable pub sync_payload :
      NetLib → b.World → Text → Result MirrorError (Subscription × (Text × Client))
  sync_payload net w slug = do
    enabled ←
        wrap_err (λ _. globally_disabled)
          (setting_or_default (b.setting w (codes "yandex_enabled")) (codes "false"))
    reject (not (text_eq enabled (codes "true"))) globally_disabled
    let sources = b.sources w
    sub ← found no_subscription (sources.subscription slug)
    reject (not sub.mirror_enabled) mirror_disabled
    payload ← mirror_payload net w slug sub
    ok (sub, payload)

  -- the note of the outcome in the store
  unfoldable pub note_upload :
      Subscription → b.World × Option Text → b.World × Result MirrorError Text
  note_upload sub (w, none) =
      ((b.set_mirror w sub.id sub.mirror_public_url (codes "error")).0, err upload_failed)
  note_upload sub (w, some url) =
      let (w', stored) = b.set_mirror w sub.id url (codes "synced") in
      (w', if stored then ok url else err store_failed)

  -- SyncMirror
  unfoldable pub sync_mirror : NetLib → b.World → Text → b.World × Result MirrorError Text
  sync_mirror net w slug = elim (sync_payload net w slug) [
    | err e ↦ (w, err e)
    | ok (sub, (payload, client)) ↦ note_upload sub (b.upload w client slug payload)
  ]

  unfoldable pub delete_local : b.World → Text → b.World × Check MirrorError
  delete_local w slug =
      let (w', deleted) = b.delete_subscription w slug in
      (w', if deleted then ok tt else err store_failed)

  unfoldable pub delete_after : Text → b.World × Bool → b.World × Check MirrorError
  delete_after slug (w, true) = delete_local w slug
  delete_after slug (w, false) = (w, err cleanup_failed)

  unfoldable pub delete_mirrored :
      b.World → Text → Result MirrorError Client → b.World × Check MirrorError
  delete_mirrored w slug (err e) = (w, err e)
  delete_mirrored w slug (ok client) = delete_after slug (b.remote_delete w client slug)

  unfoldable pub delete_found : b.World → Text → Option Subscription → b.World × Check MirrorError
  delete_found w slug none = (w, err no_subscription)
  delete_found w slug (some sub) =
      if mirror_may_exist sub then delete_mirrored w slug (mirror_client w) else delete_local w slug

  -- Delete
  unfoldable pub delete : b.World → Text → b.World × Check MirrorError
  delete w slug = let sources = b.sources w in delete_found w slug (sources.subscription slug)
