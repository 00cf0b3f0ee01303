-- ===== src/Manager/Update.antt =====
-- internal/instance/manager.go: Update, and the rotations of the key and of the client identifier.
use olcrtc_panel_lite.Common.{
  ℕ, Bool, not, ◌&&◌, Option, none, some, if◌then◌else◌, Result, ok, err,
}
use olcrtc_panel_lite.Text.{Text, codes, is_empty}
use olcrtc_panel_lite.Model.{Instance}
use olcrtc_panel_lite.Instance.Config.Defaults.{apply_defaults}
use olcrtc_panel_lite.Instance.Config.Validate.{validate}
use olcrtc_panel_lite.Security.Tokens.{random_hex}
use olcrtc_panel_lite.Manager.World.{
  Host, Manager, restart_unit, ManagerError, bad_config, bad_secret, status_failed, restored,
  Action, then_on, ◌>>=◌, ◌>>◌, return, fail, given, attempt, ignore, now,
}
use olcrtc_panel_lite.Manager.Secrets.{sealed, with_secrets, decrypt_secrets}
use olcrtc_panel_lite.Manager.Files.{
  read_file, atomic_write, config_path, key_path, read_key, key_file, write_config,
}
use olcrtc_panel_lite.Manager.Units.{
  store_instance, store_update, unit_action, unit_status, restart_and_wait, runs, decorate,
}

-- the contents that `oldConfig, _ := os.ReadFile(...)` leaves
unfoldable pub or_empty : Option Text → Text
or_empty none = codes ""
or_empty (some text) = text

module _ (host : Host) (m : Manager) where
  -- a secret that is kept, cleared or replaced
  unfoldable pub new_secret : Text → Text → Bool → Action Text
  new_secret value old clear =
      if is_empty value && not clear
      then return old
      else if clear
      then return (codes "")
      else sealed host value

  -- the item that Update stores
  unfoldable pub prepared : Instance → Instance → Bool → Bool → Action Instance
  prepared old item clear_auth clear_proxy =
      let complete = record (apply_defaults host.net item) { client_id = old.client_id } in
      new_secret complete.auth_token old.auth_token clear_auth >>= λ token.
      new_secret complete.outbound_proxy old.outbound_proxy clear_proxy >>= λ proxy.
      return (with_secrets complete token proxy)

  -- what Update does where it cannot restart the unit
  unfoldable pub undo_update : Instance → Text → ManagerError → Action (Unit {0})
  undo_update old config problem =
      ignore (store_update host old)
      >> (ignore (atomic_write host (config_path host m old.id) config)
          >> (ignore (unit_action host restart_unit old.id) >> fail (restored problem)))

  unfoldable pub undo_if_failed :
      (ManagerError → Action (Unit {0})) → Result ManagerError (Unit {0}) → Action (Unit {0})
  undo_if_failed undo (ok done) w = (w, ok tt)
  undo_if_failed undo (err problem) w = undo problem w

  -- restart a running unit, and undo where that fails
  unfoldable pub restart_running : ℕ → (ManagerError → Action (Unit {0})) → Action (Unit {0})
  restart_running id undo = unit_status host id >>= λ answer.
      if runs host answer.0
      then attempt (restart_and_wait host id) >>= undo_if_failed undo
      else return tt

  -- the statement of Update, behind which the old configuration is written back where it fails
  unfoldable pub stored_or_undone : Instance → Text → Result ManagerError Instance → Action Instance
  stored_or_undone item config (ok updated) w = (w, ok updated)
  stored_or_undone item config (err problem) w =
      then_on (ignore (atomic_write host (config_path host m item.id) config) w)
        (λ done. fail problem)

  -- from writeConfig to the restart
  unfoldable pub apply_update : Instance → Instance → Instance → Text → Action Instance
  apply_update old item plain config =
      write_config host m plain
      >> (attempt (store_update host item) >>= λ outcome.
          stored_or_undone item config outcome >>= λ updated.
          restart_running item.id (undo_update old config) >> return updated)

  -- Update behind the read of the old instance
  unfoldable pub update_from : Instance → Instance → Bool → Bool → Action Instance
  update_from old item clear_auth clear_proxy = prepared old item clear_auth clear_proxy >>= λ next.
      given (λ e. e) (decrypt_secrets host next) >>= λ plain.
      given bad_config (validate host.net plain) >>= λ valid.
      read_file host (config_path host m next.id) >>= λ config.
      read_key host m next.id >>= λ key. apply_update old next plain (or_empty config)

  -- Update
  unfoldable pub update : Instance → Bool → Bool → Action Instance
  update item clear_auth clear_proxy = store_instance host item.id >>= λ old.
      update_from old item clear_auth clear_proxy >>= λ updated. decorate host updated

  unfoldable pub undo_key : ℕ → Text → ManagerError → Action (Unit {0})
  undo_key id old problem =
      ignore (atomic_write host (key_path host m id) (key_file host m old))
      >> (ignore (unit_action host restart_unit id) >> fail (restored problem))

  -- security.RandomHex(32)
  unfoldable pub new_key : Action Text
  new_key = now >>= λ t. given bad_secret (random_hex (host.draw t))

  -- RotateKey
  unfoldable pub rotate_key : ℕ → Action (Unit {0})
  rotate_key id = read_key host m id >>= λ old. new_key >>= λ key.
      atomic_write host (key_path host m id) (key_file host m key)
      >> restart_running id (undo_key id old)

  unfoldable pub undo_client_id : Instance → ManagerError → Action (Unit {0})
  undo_client_id old problem =
      ignore (store_update host old)
      >> (ignore (unit_action host restart_unit old.id) >> fail (restored problem))

  -- the restart of RotateClientID, on an answer of Status
  unfoldable pub restart_with_client_id : Instance → Bool → Bool → Action (Unit {0})
  restart_with_client_id old failed running =
      if failed
      then ignore (store_update host old) >> fail (restored status_failed)
      else if not running
      then return tt
      else attempt (restart_and_wait host old.id) >>= undo_if_failed (undo_client_id old)

  -- RotateClientID
  unfoldable pub rotate_client_id : ℕ → Action (Unit {0})
  rotate_client_id id = store_instance host id >>= λ old. now >>= λ t.
      store_update host (record old { client_id = host.uuid t }) >>= λ updated.
      unit_status host id >>= λ answer. restart_with_client_id old answer.1 (runs host answer.0)
