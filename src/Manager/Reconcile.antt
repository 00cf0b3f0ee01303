-- ===== src/Manager/Reconcile.antt =====
-- internal/instance/manager.go: Reconcile. Its map of new configurations is taken in the order of the
-- instances.
use olcrtc_panel_lite.Common.{ℕ, List, [], ◌∷◌, if◌then◌else◌, Result, ok, err}
use olcrtc_panel_lite.Text.{Text, is_empty}
use olcrtc_panel_lite.Model.{Instance}
use olcrtc_panel_lite.Instance.Config.Yaml.{render_yaml}
use olcrtc_panel_lite.Manager.World.{
  Host, Manager, ManagerError, bad_yaml, Action, then_on, ◌>>=◌, ◌>>◌, return, fail, given, attempt,
  ignore,
}
use olcrtc_panel_lite.Manager.Secrets.{decrypt_secrets}
use olcrtc_panel_lite.Manager.Files.{
  read_file, atomic_write, config_path, key_path, effective_data_path,
}
use olcrtc_panel_lite.Manager.Units.{store_instances}
use olcrtc_panel_lite.Manager.Update.{or_empty}

module _ (host : Host) (m : Manager) where
  -- RenderYAML of one instance, and the file that it replaces
  unfoldable pub rendered : Instance → Action (Text × Text)
  rendered item = given (λ e. e) (decrypt_secrets host item) >>= λ plain.
      given bad_yaml (
        render_yaml host.net host.marshal host.parses plain (key_path host m item.id)
          (effective_data_path host m))
      >>= λ text. read_file host (config_path host m item.id) >>= λ old. return (text, or_empty old)

  -- the first loop: an identifier, its new configuration and its old one
  unfoldable pub render_all : List Instance → Action (List (ℕ × (Text × Text)))
  render_all [] = return []
  render_all (item ∷ items) =
      rendered item >>= λ texts. render_all items >>= λ rest. return ((item.id, texts) ∷ rest)

  -- write the backups back; a file that was empty or missing has none
  unfoldable pub restore_all : List (ℕ × (Text × Text)) → Action (Unit {0})
  restore_all [] = return tt
  restore_all ((id, (text, old)) ∷ rest) =
      (if is_empty old then return tt else ignore (atomic_write host (config_path host m id) old))
      >> restore_all rest

  unfoldable pub restored_on_error :
      List (ℕ × (Text × Text)) → Result ManagerError (Unit {0}) → Action (Unit {0})
  restored_on_error all (ok done) w = (w, ok tt)
  restored_on_error all (err problem) w = then_on (restore_all all w) (λ done. fail problem)

  -- the second loop
  unfoldable pub write_all : List (ℕ × (Text × Text)) → Action (Unit {0})
  write_all [] = return tt
  write_all ((id, (text, old)) ∷ rest) =
      atomic_write host (config_path host m id) text >> write_all rest

  -- Reconcile
  unfoldable pub reconcile : Action (Unit {0})
  reconcile = store_instances host >>= λ items.
      render_all items >>= λ all. attempt (write_all all) >>= restored_on_error all
