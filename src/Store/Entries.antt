-- ===== src/Store/Entries.antt =====
-- internal/store/subscriptions.go: the entries of a subscription, on the same terms as Store.Instances.
use olcrtc_panel_lite.Common.{
  ℕ, suc, Bool, true, not, ◌&&◌, ◌||◌, Option, none, some, List, [], ◌∷◌, ◌==◌, if◌then◌else◌, any,
  Result, Check, ok, err, is_some,
}
use olcrtc_panel_lite.Text.{is_empty}
use olcrtc_panel_lite.Model.{Instance, SubscriptionEntry, Time}
use olcrtc_panel_lite.Store.Rows.{find_row, update_rows, delete_rows, append_row}
use olcrtc_panel_lite.Store.Db.{Db, StoreError, no_rows, broken_reference, broken_check}
use olcrtc_panel_lite.Store.Instances.{has_id}
use olcrtc_panel_lite.Store.Subscriptions.{has_subscription_id, subscription}

abbrev pub has_entry_id : ℕ → SubscriptionEntry → Bool
has_entry_id id e = e.id == id

-- the CHECK of subscription_entries, where an empty URI is stored as NULL
unfoldable pub has_one_source : SubscriptionEntry → Bool
has_one_source e =
    (is_some e.source_instance_id && is_empty e.raw_uri)
    || (not (is_some e.source_instance_id) && not (is_empty e.raw_uri))

-- the linked instance exists
unfoldable pub is_source : List Instance → Option ℕ → Bool
is_source rows none = true
is_source rows (some id) = any (has_id id) rows

-- SubscriptionEntry
unfoldable pub subscription_entry : Db → ℕ → Result StoreError SubscriptionEntry
subscription_entry db id = elim (find_row (has_entry_id id) db.entries) [
  | none ↦ err no_rows
  | some e ↦ ok e
]

unfoldable pub insert_entry_row : Db → SubscriptionEntry → Time → Db
insert_entry_row db item now = record db {
  entries =
      append_row db.entries
        (record item { id = db.next_entry; created_at = now; updated_at = now });
  next_entry = suc db.next_entry;
}

-- AddSubscriptionEntry
unfoldable pub add_subscription_entry :
    Db → SubscriptionEntry → Time → Db × Result StoreError SubscriptionEntry
add_subscription_entry db item now =
    if not (has_one_source item)
    then (db, err broken_check)
    else if db.foreign_keys
        && (not (is_source db.instances item.source_instance_id)
            || not (any (has_subscription_id item.subscription_id) db.subscriptions))
    then (db, err broken_reference)
    else (
      insert_entry_row db item now,
      subscription_entry (insert_entry_row db item now) db.next_entry,
    )

-- the columns that UpdateSubscriptionEntry writes
unfoldable pub edited_entry : SubscriptionEntry → Time → SubscriptionEntry → SubscriptionEntry
edited_entry item now row = record item {
  id = row.id;
  subscription_id = row.subscription_id;
  created_at = row.created_at;
  updated_at = now;
}

unfoldable pub set_entry : Db → SubscriptionEntry → Time → Db
set_entry db item now = record db {
  entries = update_rows (has_entry_id item.id) (edited_entry item now) db.entries;
}

-- UpdateSubscriptionEntry
unfoldable pub update_subscription_entry :
    Db → SubscriptionEntry → Time → Db × Result StoreError SubscriptionEntry
update_subscription_entry db item now =
    if not (any (has_entry_id item.id) db.entries)
    then (db, err no_rows)
    else if not (has_one_source item)
    then (db, err broken_check)
    else if db.foreign_keys && not (is_source db.instances item.source_instance_id)
    then (db, err broken_reference)
    else (set_entry db item now, subscription_entry (set_entry db item now) item.id)

-- subscription_id = subscription AND id = id
abbrev pub is_entry : ℕ → ℕ → SubscriptionEntry → Bool
is_entry subscription id e = (e.subscription_id == subscription) && (e.id == id)

-- DeleteSubscriptionEntry
unfoldable pub delete_subscription_entry : Db → ℕ → ℕ → Db × Check StoreError
delete_subscription_entry db subscription id =
    if any (is_entry subscription id) db.entries
    then (record db { entries = delete_rows (is_entry subscription id) db.entries }, ok tt)
    else (db, err no_rows)

unfoldable pub placed : ℕ → Time → SubscriptionEntry → SubscriptionEntry
placed order now e = record e { sort_order = order; updated_at = now }

-- the loop of ReorderSubscriptionEntries, `none` where an update finds no row
unfoldable pub reorder_from :
    ℕ → ℕ → List ℕ → Time → List SubscriptionEntry → Option (List SubscriptionEntry)
reorder_from subscription order [] now rows = some rows
reorder_from subscription order (id ∷ ids) now rows =
    let rest =
      reorder_from subscription (suc order) ids now
        (update_rows (is_entry subscription id) (placed order now) rows) in
    if any (is_entry subscription id) rows then rest else none

-- the end of its transaction
unfoldable pub reordered : Db → Option (List SubscriptionEntry) → Db × Check StoreError
reordered db none = (db, err no_rows)
reordered db (some rows) = (record db { entries = rows }, ok tt)

-- ReorderSubscriptionEntries
unfoldable pub reorder_subscription_entries : Db → ℕ → List ℕ → Time → Db × Check StoreError
reorder_subscription_entries db subscription ids now =
    reordered db (reorder_from subscription 0 ids now db.entries)
