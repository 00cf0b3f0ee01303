-- ===== src/Manager/Files.antt =====
-- internal/instance/manager.go: the files of an instance. The owners and modes of files are no part of
-- the model, so applyOwnership, whose errors are all dropped, is left out; directories are not either,
-- so of MkdirAll only the failure counts, and a temporary file is known by its writer alone.
use olcrtc_panel_lite.Common.{
  ℕ, Bool, ◌||◌, ◌&&◌, Option, none, some, [], ◌∷◌, ◌++◌, ◌==◌, if◌then◌else◌, Result, ok, err,
}
use olcrtc_panel_lite.Text.{Text, codes, text_eq, is_empty, has_prefix, byte_len}
use olcrtc_panel_lite.Text.Number.{itoa}
use olcrtc_panel_lite.Model.{Instance}
use olcrtc_panel_lite.Instance.Config.Yaml.{render_yaml}
use olcrtc_panel_lite.Manager.World.{
  Host, Manager, ManagerError, disk_failed, no_key, bad_key_size, bad_yaml, Action, ◌>>=◌, ◌>>◌,
  return, given, now, unless,
}
use olcrtc_panel_lite.Manager.Secrets.{decrypt_secrets}

-- strip the ends of lines, as the loop of readKey does
unfoldable pub trim_line_ends : Text → Text
trim_line_ends [] = []
trim_line_ends (c ∷ s) =
    let rest = trim_line_ends s in
    if ((c == 10) || (c == 13)) && is_empty rest then [] else c ∷ rest

module _ (host : Host) where
  -- a call on a file: whether it works
  abbrev pub disk : Action Bool
  disk = now >>= λ t. return (host.disk t)

  abbrev pub must : Action (Unit {0})
  must = disk >>= λ works. unless works disk_failed

  -- os.ReadFile, `none` for an error
  unfoldable pub read_file : Text → Action (Option Text)
  read_file path = disk >>= λ works w. (w, ok (if works then w.files path else none))

  unfoldable pub put_file : Text → Text → Action (Unit {0})
  put_file path text w =
      (record w { files = λ p. if text_eq p path then some text else w.files p }, ok tt)

  unfoldable pub drop_file : Text → Action (Unit {0})
  drop_file path w = (record w { files = λ p. if text_eq p path then none else w.files p }, ok tt)

  -- os.RemoveAll of a directory
  unfoldable pub remove_all : Text → Action (Unit {0})
  remove_all dir = must >> λ w. (
    record w {
      files = λ p. if text_eq p dir || has_prefix p (dir ++ codes "/") then none else w.files p;
    },
    ok tt,
  )

  -- behind a failed rename: os.Remove, and the second rename
  unfoldable pub replace_file : Text → Text → Action (Unit {0})
  replace_file path text = disk >>= λ removed.
      (if removed then drop_file path else return tt) >> (must >> put_file path text)

  -- the rename at the end of atomicWrite
  unfoldable pub rename_file : Text → Text → Action (Unit {0})
  rename_file path text =
      disk >>= λ renamed. if renamed then put_file path text else replace_file path text

  -- atomicWrite: MkdirAll, CreateTemp, Chmod, Write, Sync, Close, Rename
  unfoldable pub atomic_write : Text → Text → Action (Unit {0})
  atomic_write path text =
      must >> (must >> (must >> (must >> (must >> (must >> rename_file path text)))))

  module _ (m : Manager) where
    unfoldable pub instance_path : ℕ → Text
    instance_path id = host.path_join m.instances_dir (itoa id)

    unfoldable pub runtime_path : ℕ → Text
    runtime_path id = host.path_join m.runtime_dir (itoa id)

    unfoldable pub config_path : ℕ → Text
    config_path id = host.path_join (instance_path id) (codes "config.yaml")

    unfoldable pub key_path : ℕ → Text
    key_path id = host.path_join (instance_path id) (codes "key.hex")

    -- effectiveDataPath
    unfoldable pub effective_data_path : Text
    effective_data_path =
        let shared = host.path_join m.release_dir (codes "data") in
        if host.exists (host.path_join shared (codes "names"))
          && host.exists (host.path_join shared (codes "surnames"))
        then shared
        else codes ""

    unfoldable pub key_of_file : Option Text → Result ManagerError Text
    key_of_file none = err no_key
    key_of_file (some text) =
        let key = trim_line_ends text in if byte_len key == 64 then ok key else err bad_key_size

    -- readKey
    unfoldable pub read_key : ℕ → Action Text
    read_key id = read_file (key_path id) >>= λ text. given (λ e. e) (key_of_file text)

    -- the file of a key
    abbrev pub key_file : Text → Text
    key_file key = key ++ codes "\n"

    -- writeConfig, which does not use its key
    unfoldable pub write_config : Instance → Action (Unit {0})
    write_config item =
        given bad_yaml (
          render_yaml host.net host.marshal host.parses item (key_path item.id) effective_data_path)
        >>= λ text. atomic_write (config_path item.id) text

    -- writeInstanceFiles
    unfoldable pub write_instance_files : Instance → Text → Action (Unit {0})
    write_instance_files item key =
        must
        >> (must
            >> (atomic_write (key_path item.id) (key_file key)
                >> (given (λ e. e) (decrypt_secrets host item) >>= λ plain. write_config plain)))
