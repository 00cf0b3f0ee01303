-- ===== src/Manager/Queries.antt =====
-- internal/instance/manager.go: List, Get, Logs and URI.
use olcrtc_panel_lite.Common.{
  ℕ, ◌||◌, Option, none, some, List, [], ◌∷◌, if◌then◌else◌, Result, ok, err,
}
use olcrtc_panel_lite.Text.{Text, codes, text_eq}
use olcrtc_panel_lite.Model.{Instance}
use olcrtc_panel_lite.Instance.Uri.Client.{client_uri}
use olcrtc_panel_lite.Instance.Uri.Standard.Render.{standard_uri}
use olcrtc_panel_lite.Manager.World.{
  Host, Manager, ManagerError, bad_uri, unsupported_format, logs_failed, Action, ◌>>=◌, return,
  given, now,
}
use olcrtc_panel_lite.Manager.Files.{read_key}
use olcrtc_panel_lite.Manager.Units.{store_instance, store_instances, decorate, decorate_with_error}
use olcrtc_panel_lite.Manager.Lifecycle.{raw}

module _ (host : Host) (m : Manager) where
  -- the loop of List, which drops the errors of decorate
  unfoldable pub decorate_all : List Instance → Action (List Instance)
  decorate_all [] = return []
  decorate_all (item ∷ items) = decorate_with_error host item >>= λ found.
      decorate_all items >>= λ rest. return (found.0 ∷ rest)

  -- List
  unfoldable pub list : Action (List Instance)
  list = store_instances host >>= λ items. decorate_all items

  -- Get
  unfoldable pub get : ℕ → Action Instance
  get id = store_instance host id >>= λ item. decorate host item

  unfoldable pub logged : Option Text → Action Text
  logged none w = (w, err logs_failed)
  logged (some text) w = (w, ok text)

  -- Logs
  unfoldable pub logs : ℕ → ℕ → Action Text
  logs id lines = store_instance host id >>= λ item. now >>= λ t. logged (host.journal t id lines)

  -- the switch of URI
  unfoldable pub uri_in_format : Text → Instance → Text → Result ManagerError Text
  uri_in_format format item key =
      if text_eq format (codes "client")
      then elim (client_uri item key item.name) as (λ _. Result ManagerError Text) [
        | ok uri ↦ ok uri
        | err e ↦ err (bad_uri e)
      ]
      else if text_eq format (codes "olcbox") || text_eq format (codes "standard")
      then elim (standard_uri item key item.name) as (λ _. Result ManagerError Text) [
        | ok uri ↦ ok uri
        | err e ↦ err (bad_uri e)
      ]
      else err unsupported_format

  -- URI
  unfoldable pub uri : ℕ → Text → Action Text
  uri id format = raw host m id >>= λ item.
      read_key host m id >>= λ key. given (λ e. e) (uri_in_format format item key)
