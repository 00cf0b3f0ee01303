-- ===== src/Store/Overrides.antt =====
-- internal/store/settings.go: what is read after a group of settings was written.
use olcrtc_panel_lite.Common.{
  ◌≡◌, refl, sym, ap, ◌∙◌, Bool, true, false, List, [], ◌∷◌, if◌then◌else◌, any, Bool-cases,
  if_true, if_false, inl, inr, All, ok,
}
use olcrtc_panel_lite.Text.{Text, text_eq}
use olcrtc_panel_lite.Text.Equality.{text_eq→eq, text_eq_refl}
use olcrtc_panel_lite.Model.{Time}
use olcrtc_panel_lite.Store.Rows.{find_row, find_row-test}
use olcrtc_panel_lite.Store.Keys.{find_row-update_rows}
use olcrtc_panel_lite.Store.Found.{
  find_row_of_any, find_row-update_rows_apart, find_row-append_row, find_row-append_row_apart,
}
use olcrtc_panel_lite.Store.Settings.{
  SettingRow, has_key, set_setting, set_settings, setting_of_row, setting, value_or,
  setting_or_default,
}

-- the first value under a key
abbrev pub value_in : List (Text × Text) → Text → Text → Text
value_in [] key fallback = fallback
value_in ((k, v) ∷ values) key fallback = if text_eq k key then v else value_in values key fallback

has_key-apart :
    (key other : Text) (row : SettingRow)
    → text_eq key other ≡ false
    → has_key key row ≡ true
    → has_key other row ≡ false
has_key-apart key other row h e = let same : row.key ≡ key = text_eq→eq row.key key e in rw same h

-- the table under another key
find-set_setting_apart :
    (rows : List SettingRow) (key value other : Text) (encrypted : Bool) (now : Time)
    → text_eq key other ≡ false
    → find_row (has_key other) (set_setting rows key value encrypted now)
      ≡ find_row (has_key other) rows
unfolding set_setting
find-set_setting_apart rows key value other encrypted now h =
    elim (Bool-cases (any (has_key key) rows)) [
      | inl e ↦
          ap (find_row (has_key other)) (if_true _ _ _ e)
          ∙ find_row-update_rows_apart (has_key other) (has_key key) _ rows
              (λ row t. has_key-apart key other row h t) (λ row t. has_key-apart key other row h t)
      | inr e ↦
          ap (find_row (has_key other)) (if_false _ _ _ e)
          ∙ find_row-append_row_apart (has_key other) rows _ h
    ]

-- the row that was written
find-set_setting :
    (rows : List SettingRow) (key value : Text) (encrypted : Bool) (now : Time)
    → setting (set_setting rows key value encrypted now) key ≡ ok (value, encrypted)
unfolding set_setting setting setting_of_row
find-set_setting rows key value encrypted now = elim (Bool-cases (any (has_key key) rows)) [
  | inl e ↦
      let (row, f) = find_row_of_any (has_key key) rows e in
      let g =
        find_row-update_rows (has_key key) (has_key key)
          (λ r. record r { value = value; encrypted = encrypted; updated_at = now }) rows row
          (λ r. refl) f in
      rw (if_true _ _ _ e) (rw g (rw (if_true _ _ _ (find_row-test (has_key key) rows row f)) refl))
  | inr e ↦ rw (if_false _ _ _ e) (
      rw
        (find_row-append_row (has_key key) rows
          (record { key = key; value = value; encrypted = encrypted; updated_at = now }) e)
        (rw (text_eq_refl key) refl))
]

-- the pairs of a map: no key twice
abbrev pub IsMap : List (Text × Text) → Type 0
IsMap [] = Unit
IsMap ((k, v) ∷ values) = All (λ other. text_eq other.0 k ≡ false) values × IsMap values

set_settings_apart :
    (rows : List SettingRow) (values : List (Text × Text)) (now : Time) (key : Text)
    → All (λ other. text_eq other.0 key ≡ false) values
    → find_row (has_key key) (set_settings rows values now) ≡ find_row (has_key key) rows
unfolding set_settings
set_settings_apart rows [] now key h = refl
set_settings_apart rows ((k, v) ∷ values) now key h =
    set_settings_apart (set_setting rows k v false now) values now key h.1
    ∙ find-set_setting_apart rows k v key false now h.0

setting_unchanged :
    (rows : List SettingRow) (values : List (Text × Text)) (now : Time) (key : Text)
    → All (λ other. text_eq other.0 key ≡ false) values
    → setting (set_settings rows values now) key ≡ setting rows key
unfolding setting
setting_unchanged rows values now key h =
    ap setting_of_row (set_settings_apart rows values now key h)

value_or_ok : (v fallback : Text) → value_or (ok (v, false)) fallback ≡ v
unfolding value_or
value_or_ok v fallback = refl

setting_of_found :
    (rows : List SettingRow) (k v key : Text) (now : Time)
    → text_eq k key ≡ false
    → setting (set_setting rows k v false now) key ≡ setting rows key
unfolding setting
setting_of_found rows k v key now e =
    ap setting_of_row (find-set_setting_apart rows k v key false now e)

-- Behind SetSettings a setting reads as the value that the map gives it, and as before where the map
-- does not name it, whatever the order in which the loop takes the map.
pub setting_or_default-set_settings :
    (rows : List SettingRow) (values : List (Text × Text)) (now : Time) (key fallback : Text)
    → IsMap values
    → setting_or_default (set_settings rows values now) key fallback
      ≡ value_in values key (setting_or_default rows key fallback)
unfolding set_settings setting_or_default
setting_or_default-set_settings rows [] now key fallback h = refl
setting_or_default-set_settings rows ((k, v) ∷ values) now key fallback h =
    elim (Bool-cases (text_eq k key)) [
      | inl e ↦
          let same : k ≡ key = text_eq→eq k key e in
          ap (λ o. value_or o fallback)
            (setting_unchanged (set_setting rows k v false now) values now key (rw (← same) h.0)
              ∙ (ap (setting (set_setting rows k v false now)) (sym same)
                  ∙ find-set_setting rows k v false now))
          ∙ (value_or_ok v fallback ∙ sym (if_true _ _ _ e))
      | inr e ↦
          setting_or_default-set_settings (set_setting rows k v false now) values now key fallback
            h.1
          ∙ (ap (value_in values key)
                (ap (λ o. value_or o fallback) (setting_of_found rows k v key now e))
              ∙ sym (if_false _ _ _ e))
    ]
