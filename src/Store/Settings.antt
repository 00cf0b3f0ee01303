-- ===== src/Store/Settings.antt =====
-- internal/store/settings.go: the table of settings.
use olcrtc_panel_lite.Common.{
  Bool, false, Option, none, some, List, [], ◌∷◌, if◌then◌else◌, any, Result, ok, err,
}
use olcrtc_panel_lite.Text.{Text, text_eq}
use olcrtc_panel_lite.Model.{Time}
use olcrtc_panel_lite.Store.Rows.{find_row, update_rows, delete_rows, append_row}
use olcrtc_panel_lite.Store.Db.{StoreError, no_rows}

pub record SettingRow : Type 0 where
  pub key : Text
  pub value : Text
  pub encrypted : Bool
  pub updated_at : Time

abbrev pub has_key : Text → SettingRow → Bool
has_key key row = text_eq row.key key

-- SetSetting: INSERT ... ON CONFLICT(key) DO UPDATE
unfoldable pub set_setting : List SettingRow → Text → Text → Bool → Time → List SettingRow
set_setting rows key value encrypted now =
    if any (has_key key) rows
    then update_rows (has_key key)
        (λ row. record row { value = value; encrypted = encrypted; updated_at = now }) rows
    else append_row rows
        (record { key = key; value = value; encrypted = encrypted; updated_at = now })

-- SetSettings, on the pairs of the map in the order that the loop takes
unfoldable pub set_settings : List SettingRow → List (Text × Text) → Time → List SettingRow
set_settings rows [] now = rows
set_settings rows ((key, value) ∷ values) now =
    set_settings (set_setting rows key value false now) values now

unfoldable pub setting_of_row : Option SettingRow → Result StoreError (Text × Bool)
setting_of_row none = err no_rows
setting_of_row (some row) = ok (row.value, row.encrypted)

-- Setting
unfoldable pub setting : List SettingRow → Text → Result StoreError (Text × Bool)
setting rows key = setting_of_row (find_row (has_key key) rows)

-- DeleteSetting
unfoldable pub delete_setting : List SettingRow → Text → List SettingRow
delete_setting rows key = delete_rows (has_key key) rows

unfoldable pub value_or : Result StoreError (Text × Bool) → Text → Text
value_or (err problem) fallback = fallback
value_or (ok found) fallback = found.0

-- SettingOrDefault, where the database answers
unfoldable pub setting_or_default : List SettingRow → Text → Text → Text
setting_or_default rows key fallback = value_or (setting rows key) fallback
