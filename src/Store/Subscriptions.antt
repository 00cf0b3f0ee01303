-- ===== src/Store/Subscriptions.antt =====
-- internal/store/subscriptions.go, on the same terms as Store.Instances. A statement of a transaction
-- that fails rolls all of it back.
use olcrtc_panel_lite.Common.{
  ℕ, suc, ◌+◌, ◌*◌, ◌/◌, Bool, not, ◌&&◌, ◌||◌, Option, none, some, List, [], ◌∷◌, ◌==◌, leb,
  if◌then◌else◌, any, Result, Check, ok, err, map, slt,
}
use olcrtc_panel_lite.Text.{Text, text_eq}
use olcrtc_panel_lite.Model.{Subscription, SubscriptionEntry, Time}
use olcrtc_panel_lite.Store.Rows.{find_row, update_rows, select_rows, delete_rows, append_row}
use olcrtc_panel_lite.Store.Db.{cascaded, Db, SubscriptionRow, StoreError, no_rows, not_unique}
use olcrtc_panel_lite.Store.Instances.{is_linked_to}

abbrev pub has_slug : Text → SubscriptionRow → Bool
has_slug slug row = text_eq row.subscription.slug slug

abbrev pub has_subscription_id : ℕ → SubscriptionRow → Bool
has_subscription_id id row = row.subscription.id == id

abbrev pub is_of : ℕ → SubscriptionEntry → Bool
is_of subscription e = e.subscription_id == subscription

-- ORDER BY sort_order, id
unfoldable pub entry_le : SubscriptionEntry → SubscriptionEntry → Bool
entry_le a b =
    slt a.sort_order b.sort_order || (not (slt b.sort_order a.sort_order) && leb a.id b.id)

unfoldable pub insert_entry : SubscriptionEntry → List SubscriptionEntry → List SubscriptionEntry
insert_entry e [] = e ∷ []
insert_entry e (f ∷ fs) =
    let later = insert_entry e fs in if entry_le e f then e ∷ f ∷ fs else f ∷ later

unfoldable pub sort_entries : List SubscriptionEntry → List SubscriptionEntry
sort_entries [] = []
sort_entries (e ∷ es) = insert_entry e (sort_entries es)

-- SubscriptionEntries
unfoldable pub subscription_entries : Db → ℕ → List SubscriptionEntry
subscription_entries db subscription = sort_entries (select_rows (is_of subscription) db.entries)

-- scanSubscription with the entries
unfoldable pub scan_subscription : Db → SubscriptionRow → Subscription
scan_subscription db row =
    let sub = row.subscription in record sub { entries = subscription_entries db sub.id }

unfoldable pub scanned : Db → Option SubscriptionRow → Result StoreError Subscription
scanned db none = err no_rows
scanned db (some row) = ok (scan_subscription db row)

-- Subscription, SubscriptionByID and Subscriptions
unfoldable pub subscription : Db → Text → Result StoreError Subscription
subscription db slug = scanned db (find_row (has_slug slug) db.subscriptions)

unfoldable pub subscription_by_id : Db → ℕ → Result StoreError Subscription
subscription_by_id db id = scanned db (find_row (has_subscription_id id) db.subscriptions)

unfoldable pub subscriptions : Db → List Subscription
subscriptions db = map (scan_subscription db) db.subscriptions

unfoldable pub new_subscription : Subscription → ℕ → Time → Subscription
new_subscription item id now = record item {
  id = id;
  created_at = now;
  updated_at = now;
  entries = [];
  used_bytes = 0;
  upload_bytes = 0;
  download_bytes = 0;
  available_bytes = none;
  expires_at = none;
}

unfoldable pub insert_subscription : Db → Subscription → Text → Time → Db
insert_subscription db item key now = record db {
  subscriptions =
      append_row db.subscriptions (record {
        subscription = new_subscription item db.next_subscription now;
        mirror_key = key;
      });
  next_subscription = suc db.next_subscription;
}

-- CreateSubscription
unfoldable pub create_subscription :
    Db → Subscription → Text → Time → Db × Result StoreError Subscription
create_subscription db item key now =
    if any (has_slug item.slug) db.subscriptions
    then (db, err not_unique)
    else (let db' = insert_subscription db item key now in
        (db', subscription_by_id db' db.next_subscription))

-- the columns that UpdateSubscription writes
unfoldable pub edited : Subscription → Time → SubscriptionRow → SubscriptionRow
edited item now row =
    let sub = row.subscription in
    record row {
      subscription = record sub {
        name = item.name;
        refresh_interval = item.refresh_interval;
        color = item.color;
        icon = item.icon;
        enabled = item.enabled;
        mirror_enabled = item.mirror_enabled;
        mirror_public_url = item.mirror_public_url;
        mirror_status = item.mirror_status;
        omit_client_auth_token = item.omit_client_auth_token;
        updated_at = now;
      };
    }

unfoldable pub set_subscription : Db → Subscription → Time → Db
set_subscription db item now = record db {
  subscriptions = update_rows (has_slug item.slug) (edited item now) db.subscriptions;
}

-- UpdateSubscription
unfoldable pub update_subscription : Db → Subscription → Time → Db × Result StoreError Subscription
update_subscription db item now =
    if any (has_slug item.slug) db.subscriptions
    then (set_subscription db item now, subscription (set_subscription db item now) item.slug)
    else (db, err no_rows)

-- the subscription of an entry stands in a list of removed ones
unfoldable pub is_in : List SubscriptionRow → SubscriptionEntry → Bool
is_in rows e = any (has_subscription_id e.subscription_id) rows

-- DELETE with its cascade
unfoldable pub remove_subscription : Db → Text → Db
remove_subscription db slug = record db {
  subscriptions = delete_rows (has_slug slug) db.subscriptions;
  entries =
      cascaded db.foreign_keys (is_in (select_rows (has_slug slug) db.subscriptions)) db.entries;
}

-- DeleteSubscription
unfoldable pub delete_subscription : Db → Text → Db × Check StoreError
delete_subscription db slug =
    if any (has_slug slug) db.subscriptions
    then (remove_subscription db slug, ok tt)
    else (db, err no_rows)

-- SubscriptionMirrorKey
unfoldable pub subscription_mirror_key : Db → ℕ → Result StoreError Text
subscription_mirror_key db id = elim (find_row (has_subscription_id id) db.subscriptions) [
  | none ↦ err no_rows
  | some row ↦ ok row.mirror_key
]

unfoldable pub mirrored : Text → Text → SubscriptionRow → SubscriptionRow
mirrored url status row =
    let sub = row.subscription in
    record row { subscription = record sub { mirror_public_url = url; mirror_status = status } }

-- SetSubscriptionMirror
unfoldable pub set_subscription_mirror : Db → ℕ → Text → Text → Db
set_subscription_mirror db id url status = record db {
  subscriptions = update_rows (has_subscription_id id) (mirrored url status) db.subscriptions;
}

-- the subscription has an entry that is linked to the instance
unfoldable pub shows_instance : Db → ℕ → SubscriptionRow → Bool
shows_instance db id row = any (λ e. is_of row.subscription.id e && is_linked_to id e) db.entries

-- SubscriptionSlugsForInstance; its order is not specified
unfoldable pub subscription_slugs_for_instance : Db → ℕ → List Text
subscription_slugs_for_instance db id =
    map (λ row. row.subscription.slug) (select_rows (shows_instance db id) db.subscriptions)

-- whole seconds of a time
abbrev pub seconds : Time → ℕ
seconds t = t / 1000000000

-- `next` of TouchSubscriptions
unfoldable pub next_update : Time → Time → Time
next_update now current =
    if leb (seconds now) (seconds current) then (seconds current + 1) * 1000000000 else now

unfoldable pub touched : Time → SubscriptionRow → SubscriptionRow
touched now row =
    let sub = row.subscription in
    record row { subscription = record sub { updated_at = next_update now sub.updated_at } }

-- the loop of TouchSubscriptions, with the clock readings; a slug without a row is passed over
unfoldable pub touch_rows : List (Text × Time) → List SubscriptionRow → List SubscriptionRow
touch_rows [] rows = rows
touch_rows ((slug, now) ∷ slugs) rows =
    touch_rows slugs (update_rows (has_slug slug) (touched now) rows)

-- TouchSubscriptions
unfoldable pub touch_subscriptions : Db → List (Text × Time) → Db
touch_subscriptions db slugs = record db { subscriptions = touch_rows slugs db.subscriptions }
