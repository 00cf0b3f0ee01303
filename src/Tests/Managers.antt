-- ===== src/Tests/Managers.antt =====
-- Sample runs of internal/instance/manager.go: a running unit that does not start again.
use olcrtc_panel_lite.Store.Instances.{
  with_client_id, new_counter, instance_count, fresh_row, create_instance, insert_instance,
  delete_instance, clashes, clashes_elsewhere, found_instance, instance, instances, joined,
  scan_instance, set_instance, update_instance, written,
}
use olcrtc_panel_lite.Security.Tokens.{random_hex}
use olcrtc_panel_lite.Security.Crypto.{text_bytes}
use olcrtc_panel_lite.Common.{
  ◌≡◌, ◌⊎◌, refl, true, false, none, some, [], ◌∷◌, ◌++◌, ok, err, if◌then◌else◌, All, arith,
}
use olcrtc_panel_lite.Text.{
  codes, text_eq, byte_len, has_prefix, is_space, split, trim_left, trim_prefix, trim_right,
  trim_space, utf8,
}
use olcrtc_panel_lite.Model.{Instance}
use olcrtc_panel_lite.Systemd.Service.{plain_status}
use olcrtc_panel_lite.Store.Integrity.Tables.{InstanceKeys}
use olcrtc_panel_lite.Manager.World.{
  World, Host, Manager, bad_yaml, unit_failed, restored, status_failed_for, given, kept, then_on,
}
use olcrtc_panel_lite.Manager.Files.{
  write_instance_files, config_path, key_path, atomic_write, effective_data_path, instance_path,
  key_of_file, put_file, read_file, read_key, rename_file, trim_line_ends, write_config,
}
use olcrtc_panel_lite.Manager.Update.{
  update, rotate_client_id, apply_update, new_key, new_secret, or_empty, prepared, restart_running,
  restart_with_client_id, stored_or_undone, undo_client_id, undo_if_failed, undo_update,
  update_from,
}
use olcrtc_panel_lite.Manager.Lifecycle.{
  create_item, with_shared_token, create_files, created_or_undone, undo_create,
}
use olcrtc_panel_lite.Manager.Created.{create_item-HasNoRow}
use olcrtc_panel_lite.Manager.Queries.{list, get, decorate_all}
use olcrtc_panel_lite.Manager.Reliable.{IsReliable}
use olcrtc_panel_lite.Manager.Rollback.{IsUndone}
use olcrtc_panel_lite.Manager.Atomic.{update-IsUndone}
use olcrtc_panel_lite.Manager.Identity.{rotate_client_id-IsUndone}
use olcrtc_panel_lite.Manager.Sanitized.{HasNoSecret, list-HasNoSecret, get-HasNoSecret}
use olcrtc_panel_lite.Instance.Config.Defaults.{
  apply_defaults, compact_or, default_liveness, default_options, is_not_digit, is_telemost_link,
  normalize_room_id, room_candidate, room_of_path,
}
use olcrtc_panel_lite.Instance.Config.Proxy.{parse_proxy}
use olcrtc_panel_lite.Instance.Config.Validate.{
  is_reset_policy, validate, validate_duration, validate_head, validate_optional, validate_proxy,
  validate_timing, validate_transport, validate_vp8,
}
use olcrtc_panel_lite.Instance.Config.Yaml.{marshal_failed, render_yaml, yaml_config, yaml_socks}
use olcrtc_panel_lite.Instance.Names.{providers, transports}
use olcrtc_panel_lite.Manager.Secrets.{
  encrypt_secrets, auth_token_expiration, decrypt_secrets, expiry_of, expiry_of_parts,
  expiry_of_payload, plain_text, sealed,
}
use olcrtc_panel_lite.Manager.Units.{
  store_create, store_count, store_delete, commit, decorate, decorate_with_error, failed_unit,
  store_instance, store_instances, store_update, with_status, with_token, with_expiry,
}
use olcrtc_panel_lite.Security.Secrets.{
  envelope, sealed as seal_box, envelope, decrypt, encrypt, open_envelope, opened,
}
use olcrtc_panel_lite.Store.Rows.{append_row, find_row, update_rows}
use olcrtc_panel_lite.Store.Traffic.{counter_of}
use olcrtc_panel_lite.Text.Number.{digits, format_uint, itoa}
use olcrtc_panel_lite.Tests.Samples.{sample_instance, sample_net, sample_key}
use olcrtc_panel_lite.Tests.Tables.{sample_db}
use olcrtc_panel_lite.Tests.Secrets.{sample_crypto}

abbrev sample_host : Host
sample_host = record {
  net = sample_net;
  crypto = sample_crypto;
  marshal = λ document. some (codes "yaml");
  parses = λ text. true;
  path_join = λ a b. a ++ (codes "/" ++ b);
  exists = λ path. false;
  expiry_claim = λ payload. none;
  disk = λ t. true;
  statement = λ t. true;
  draw = λ t. some (1 ∷ 2 ∷ []);
  uuid = λ t. codes "uuid";
  clock = λ t. 50;
  status = λ t id. (plain_status (codes "running") (codes ""), false);
  action = λ t verb id. some (codes "boom");
  polls = λ t id. [];
  journal = λ t id lines. none;
}

abbrev sample_manager : Manager
sample_manager = record {
  instances_dir = codes "/i";
  runtime_dir = codes "/r";
  release_dir = codes "/o";
  max_instances = 10;
}

-- its token is encrypted
abbrev stored_instance : Instance
stored_instance = record sample_instance { auth_token = codes "v1.xxtok" }

abbrev sample_world : World
sample_world = record {
  db = record sample_db { instances = stored_instance ∷ [] };
  settings = [];
  files = λ p.
      if text_eq p (codes "/i/7/config.yaml")
      then some (codes "old")
      else if text_eq p (codes "/i/7/key.hex")
      then some (sample_key ++ codes "\n")
      else none;
  tick = 0;
}

sample_host_IsReliable : IsReliable sample_host
sample_host_IsReliable = record { disk_works = λ t. refl; database_works = λ t. refl }

world_keys : InstanceKeys sample_world.db.instances 8
world_keys = record {
  numbered = ((tt, tt), (omega arith, tt));
  names = (tt, tt);
  client_ids = (tt, tt);
}

rotation_failed :
    (rotate_client_id sample_host sample_manager 7 sample_world).1
    ≡ err (restored (unit_failed (codes "boom")))
unfolding rotate_client_id restart_with_client_id undo_if_failed undo_client_id then_on given kept
    store_instance store_update commit failed_unit instance found_instance scan_instance joined
    update_instance clashes_elsewhere clashes set_instance written find_row update_rows counter_of
    text_eq
rotation_failed = refl

rotate_client_id-IsUndone_example :
    IsUndone 7 sample_world (rotate_client_id sample_host sample_manager 7 sample_world).0
rotate_client_id-IsUndone_example =
    rotate_client_id-IsUndone sample_host sample_manager 7 sample_world
      (restored (unit_failed (codes "boom"))) sample_host_IsReliable world_keys rotation_failed

abbrev sample_change : Instance
sample_change = record sample_instance { auth_token = codes ""; name = codes "away" }

update_failed :
    (update sample_host sample_manager sample_change false false sample_world).1
    ≡ err (restored (unit_failed (codes "boom")))
unfolding update update_from prepared new_secret apply_update or_empty stored_or_undone
    restart_running undo_update undo_if_failed then_on given kept store_instance store_update commit
    failed_unit instance found_instance scan_instance joined update_instance clashes_elsewhere
    clashes set_instance written find_row update_rows counter_of text_eq has_prefix trim_prefix
    byte_len utf8 trim_space trim_left trim_right is_space itoa format_uint digits decrypt_secrets
    plain_text sealed decrypt open_envelope opened encrypt read_file read_key key_of_file
    trim_line_ends config_path key_path instance_path effective_data_path write_config atomic_write
    rename_file put_file apply_defaults normalize_room_id default_options default_liveness
    compact_or room_candidate is_not_digit is_telemost_link room_of_path validate validate_head
    validate_proxy validate_timing validate_optional validate_duration validate_transport
    validate_vp8 is_reset_policy providers transports render_yaml yaml_socks yaml_config parse_proxy
update_failed = refl

config_there : sample_world.files (config_path sample_host sample_manager 7) ≡ some (codes "old")
unfolding config_path instance_path itoa format_uint digits text_eq
config_there = refl

update-IsUndone_example :
    ((shown : Instance) × (restored (unit_failed (codes "boom")) ≡ status_failed_for shown))
    ⊎ IsUndone 7 sample_world
        (update sample_host sample_manager sample_change false false sample_world).0
update-IsUndone_example =
    update-IsUndone sample_host sample_manager sample_change false false (codes "old") sample_world
      (restored (unit_failed (codes "boom"))) sample_host_IsReliable world_keys config_there
      update_failed

abbrev shown_instance : Instance
shown_instance = record sample_instance {
  auth_token = codes "";
  upload_bytes = 0;
  download_bytes = 0;
  total_bytes = 0;
}

sample_listed : (list sample_host sample_manager sample_world).1 ≡ ok (shown_instance ∷ [])
unfolding list get decorate_all store_instances store_instance decorate decorate_with_error
    with_status with_token then_on given kept instances instance found_instance scan_instance joined
    find_row counter_of plain_text auth_token_expiration expiry_of_parts expiry_of_payload expiry_of
    decrypt open_envelope opened text_eq has_prefix trim_prefix split with_expiry
sample_listed = refl

list-HasNoSecret_example : All HasNoSecret (shown_instance ∷ [])
list-HasNoSecret_example =
    list-HasNoSecret sample_host sample_manager sample_world (shown_instance ∷ []) sample_listed

sample_got : (get sample_host sample_manager 7 sample_world).1 ≡ ok shown_instance
unfolding list get decorate_all store_instances store_instance decorate decorate_with_error
    with_status with_token then_on given kept instances instance found_instance scan_instance joined
    find_row counter_of plain_text auth_token_expiration expiry_of_parts expiry_of_payload expiry_of
    decrypt open_envelope opened text_eq has_prefix trim_prefix split with_expiry
sample_got = refl

get-HasNoSecret_example : HasNoSecret shown_instance
get-HasNoSecret_example =
    get-HasNoSecret sample_host sample_manager sample_world 7 shown_instance sample_got

-- a document that yaml.Marshal refuses
abbrev unwritable_host : Host
unwritable_host = record sample_host { marshal = λ document. none }

abbrev unwritable_host_IsReliable : IsReliable unwritable_host
unwritable_host_IsReliable = record { disk_works = λ t. refl; database_works = λ t. refl }

abbrev second_instance : Instance
second_instance = record sample_instance { name = codes "second"; client_id = codes "" }

create_item_failed :
    (create_item unwritable_host sample_manager second_instance sample_world).1
    ≡ err (bad_yaml marshal_failed)
unfolding create_item with_shared_token create_files created_or_undone undo_create store_create
    store_count store_delete encrypt_secrets sealed new_key write_instance_files then_on given kept
    commit create_instance insert_instance delete_instance validate validate_head trim_space
    apply_defaults is_space providers text_eq transports normalize_room_id validate_proxy
    validate_timing validate_duration default_liveness validate_optional is_reset_policy
    validate_transport validate_vp8 default_options instance_count encrypt seal_box clashes
    with_client_id instance found_instance find_row append_row fresh_row random_hex atomic_write
    rename_file put_file decrypt_secrets plain_text decrypt scan_instance joined counter_of
    new_counter envelope has_prefix open_envelope trim_prefix text_bytes utf8 opened write_config
    render_yaml yaml_socks
create_item_failed = refl

create_item-HasNoRow_example :
    (create_item unwritable_host sample_manager second_instance sample_world).0.db.instances
    ≡ sample_world.db.instances
create_item-HasNoRow_example =
    create_item-HasNoRow unwritable_host sample_manager second_instance sample_world
      (bad_yaml marshal_failed) unwritable_host_IsReliable world_keys create_item_failed
