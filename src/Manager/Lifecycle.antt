-- ===== src/Manager/Lifecycle.antt =====
-- internal/instance/manager.go: Create, Duplicate, Delete, ChangeRoom, UpdateWBToken, and the actions on a
-- unit.
use olcrtc_panel_lite.Common.{
  ℕ, Bool, false, ◌&&◌, List, [], ◌∷◌, ◌++◌, if◌then◌else◌, Result, Check, ok, err, slt,
}
use olcrtc_panel_lite.Text.{Text, codes, text_eq, is_empty}
use olcrtc_panel_lite.Model.{Instance}
use olcrtc_panel_lite.Instance.Names.{wbstream}
use olcrtc_panel_lite.Instance.Config.Defaults.{apply_defaults}
use olcrtc_panel_lite.Instance.Config.Validate.{validate}
use olcrtc_panel_lite.Store.Db.{StoreError}
use olcrtc_panel_lite.Store.Settings.{setting}
use olcrtc_panel_lite.Manager.World.{
  World, Host, Manager, start_unit, stop_unit, disable_unit, ManagerError, bad_config,
  limit_reached, Action, ◌>>=◌, ◌>>◌, return, fail, given, attempt, ignore, unless,
}
use olcrtc_panel_lite.Manager.Secrets.{plain_text, with_secrets, encrypt_secrets, decrypt_secrets}
use olcrtc_panel_lite.Manager.Files.{remove_all, instance_path, runtime_path, write_instance_files}
use olcrtc_panel_lite.Manager.Units.{
  statement, store_instance, store_instances, store_count, store_create, store_delete, unit_action,
  wait_for, restart_and_wait, decorate,
}
use olcrtc_panel_lite.Manager.Update.{new_key, update}

module _ (host : Host) (m : Manager) where
  -- Setting of the Store, and the token that it decrypts to
  unfoldable pub shared_token_of : Result StoreError (Text × Bool) → Text
  shared_token_of (err problem) = codes ""
  shared_token_of (ok found) = elim (plain_text host (found.0)) [
    | ok token ↦ token
    | err problem ↦ codes ""
  ]

  unfoldable pub shared_token : Action Text
  shared_token =
      statement host >> λ w. (w, ok (shared_token_of (setting w.settings (codes "wb_token"))))

  unfoldable pub token_or_old : Instance → Result ManagerError Text → Instance
  token_or_old item (err problem) = item
  token_or_old item (ok token) = record item { auth_token = token }

  -- the token of the settings, for a WB instance that has none
  unfoldable pub with_shared_token : Instance → Action Instance
  with_shared_token item =
      if text_eq item.provider wbstream && is_empty item.auth_token
      then (attempt shared_token >>= λ found. return (token_or_old item found))
      else return item

  unfoldable pub undo_create : ℕ → ManagerError → Action Instance
  undo_create id problem =
      ignore (store_delete host id)
      >> (ignore (remove_all host (instance_path host m id))
          >> (ignore (remove_all host (runtime_path host m id)) >> fail problem))

  unfoldable pub created_or_undone : Instance → Result ManagerError (Unit {0}) → Action Instance
  created_or_undone created (ok done) w = (w, ok created)
  created_or_undone created (err problem) w = undo_create created.id problem w

  -- Create from CreateInstance on, without decorate
  unfoldable pub create_files : Instance → Action Instance
  create_files item = store_create host item >>= λ created.
      attempt (new_key host m >>= λ key. write_instance_files host m created key)
      >>= created_or_undone created

  unfoldable pub create_item : Instance → Action Instance
  create_item item =
      let complete = apply_defaults host.net item in
      given bad_config (validate host.net complete) >>= λ valid.
      with_shared_token complete >>= λ shared. store_count host >>= λ count.
      unless (slt count m.max_instances) limit_reached >>= λ below.
      encrypt_secrets host shared >>= λ sealed. create_files sealed

  -- Create
  unfoldable pub create : Instance → Action Instance
  create item = create_item item >>= λ created. decorate host created

  -- raw
  unfoldable pub raw : ℕ → Action Instance
  raw id = store_instance host id >>= λ item. given (λ e. e) (decrypt_secrets host item)

  unfoldable pub copy_of : Instance → Instance
  copy_of item = record item {
    id = 0;
    client_id = codes "";
    name = item.name ++ codes " - копия";
    created_at = 0;
    updated_at = 0;
  }

  -- Duplicate
  unfoldable pub duplicate : ℕ → Action Instance
  duplicate id = raw id >>= λ item. create (copy_of item)

  -- Delete
  unfoldable pub delete : ℕ → Action (Unit {0})
  delete id = store_instance host id >>= λ item.
      ignore (unit_action host stop_unit id)
      >> (ignore (unit_action host disable_unit id)
          >> (remove_all host (instance_path host m id)
              >> (remove_all host (runtime_path host m id) >> store_delete host id)))

  -- Start, Stop and Restart
  unfoldable pub start : ℕ → Action (Unit {0})
  start id = store_instance host id >>= λ item. unit_action host start_unit id >> wait_for host id

  unfoldable pub stop : ℕ → Action (Unit {0})
  stop id = store_instance host id >>= λ item. unit_action host stop_unit id

  unfoldable pub restart : ℕ → Action (Unit {0})
  restart id = store_instance host id >>= λ item. restart_and_wait host id

  -- ChangeRoom
  unfoldable pub change_room : ℕ → Text → Action Instance
  change_room id room = raw id >>= λ item.
      update host m
        (record item { room_id = room; auth_token = codes ""; outbound_proxy = codes "" }) false
        false

  -- one round of UpdateWBToken: the error, if the instance failed
  unfoldable pub update_token : Text → Instance → Action (Unit {0})
  update_token token item = given (λ e. e) (decrypt_secrets host item) >>= λ plain.
      update host m (with_secrets plain token (codes "")) false false >>= λ updated. return tt

  -- the loop of UpdateWBToken: of each WB instance, what became of it
  unfoldable pub update_tokens :
      Text → List Instance → World → World × List (ℕ × Check ManagerError)
  update_tokens token [] w = (w, [])
  update_tokens token (item ∷ items) w =
      let step = update_token token item w in
      let after_item = update_tokens token items step.0 in
      let passed_over = update_tokens token items w in
      if text_eq item.provider wbstream
      then (after_item.0, (item.id, step.1) ∷ after_item.1)
      else passed_over

  -- UpdateWBToken
  unfoldable pub update_wb_token : Text → Action (List (ℕ × Check ManagerError))
  update_wb_token token = store_instances host >>= λ items w.
      (let done = update_tokens token items w in (done.0, ok done.1))
