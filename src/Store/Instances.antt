-- ===== src/Store/Instances.antt =====
-- internal/store/instances.go. A statement that breaks a constraint changes nothing; a failure of the
-- disk is left to the caller's model.
use olcrtc_panel_lite.Common.{
  ℕ, suc, Bool, false, not, ◌&&◌, ◌||◌, Option, none, some, List, [], ◌==◌, if◌then◌else◌, any,
  Result, Check, ok, err, length, map,
}
use olcrtc_panel_lite.Text.{Text, text_eq, is_empty}
use olcrtc_panel_lite.Model.{Instance, TrafficCounter, SubscriptionEntry, Time}
use olcrtc_panel_lite.Store.Traffic.{counter_of}
use olcrtc_panel_lite.Store.Rows.{find_row, update_rows, delete_rows, append_row}
use olcrtc_panel_lite.Store.Db.{Db, cascaded, StoreError, no_rows, not_unique}

abbrev pub has_id : ℕ → Instance → Bool
has_id id item = item.id == id

-- the columns of an instance that INSERT and UPDATE write, over the row that was there
unfoldable pub written : Instance → Instance → Instance
written item row = record row {
  client_id = item.client_id;
  name = item.name;
  provider = item.provider;
  transport = item.transport;
  room_id = item.room_id;
  room_channel = item.room_channel;
  auth_token = item.auth_token;
  dns = item.dns;
  outbound_proxy = item.outbound_proxy;
  options = item.options;
  liveness = item.liveness;
  max_session_duration = item.max_session_duration;
  traffic = item.traffic;
  debug = item.debug;
  omit_client_auth_token = item.omit_client_auth_token;
  reset_policy = item.reset_policy;
  quota_bytes = item.quota_bytes;
  expires_at = item.expires_at;
}

-- a fresh row: the columns that are not written by `written`, and zeros
unfoldable pub fresh_row : Instance → ℕ → Time → Instance
fresh_row item id now = record item {
  id = id;
  auth_token_set = false;
  auth_token_expires_at = none;
  auth_token_expired = false;
  created_at = now;
  updated_at = now;
  status = [];
  uptime_seconds = 0;
  process_uptime_seconds = 0;
  uptime_source = [];
  process_uptime_source = [];
  started_at = none;
  observed_at = none;
  main_pid = 0;
  restart_count = 0;
  invocation_id = [];
  upload_bytes = 0;
  download_bytes = 0;
  total_bytes = 0;
  last_traffic_at = none;
  network_ingress_bytes = 0;
  network_egress_bytes = 0;
}

-- the columns of the joined counter, COALESCEd to zero
unfoldable pub joined : Instance → Option TrafficCounter → Instance
joined row none = record row {
  upload_bytes = 0;
  download_bytes = 0;
  total_bytes = 0;
  last_traffic_at = none;
}
joined row (some c) = record row {
  upload_bytes = c.upload_bytes;
  download_bytes = c.download_bytes;
  total_bytes = c.total_bytes;
  last_traffic_at = c.last_event_at;
}

-- scanInstance on a row of the join
unfoldable pub scan_instance : Db → Instance → Instance
scan_instance db row = joined row (counter_of db.counters row.id)

unfoldable pub found_instance : Db → Option Instance → Result StoreError Instance
found_instance db none = err no_rows
found_instance db (some row) = ok (scan_instance db row)

-- Instance
unfoldable pub instance : Db → ℕ → Result StoreError Instance
instance db id = found_instance db (find_row (has_id id) db.instances)

-- Instances, in the order of their identifiers, which is that of their creation
unfoldable pub instances : Db → List Instance
instances db = map (scan_instance db) db.instances

-- InstanceCount
unfoldable pub instance_count : Db → ℕ
instance_count db = length db.instances

unfoldable pub new_counter : ℕ → Time → TrafficCounter
new_counter id now = record {
  instance_id = id;
  upload_bytes = 0;
  download_bytes = 0;
  total_bytes = 0;
  period_started_at = now;
  last_event_at = none;
  updated_at = now;
}

-- the row has a name or a client identifier of the item
unfoldable pub clashes : Instance → Instance → Bool
clashes item row = text_eq row.name item.name || text_eq row.client_id item.client_id

unfoldable pub with_client_id : Text → Instance → Instance
with_client_id uuid item = record item {
  client_id = if is_empty item.client_id then uuid else item.client_id;
}

unfoldable pub insert_instance : Db → Instance → Time → Db
insert_instance db item now = record db {
  instances = append_row db.instances (fresh_row item db.next_instance now);
  next_instance = suc db.next_instance;
  counters = append_row db.counters (new_counter db.next_instance now);
}

-- CreateInstance, with the UUID that it may draw
unfoldable pub create_instance : Db → Text → Instance → Time → Db × Result StoreError Instance
create_instance db uuid item now =
    if any (clashes (with_client_id uuid item)) db.instances
    then (db, err not_unique)
    else (let db' = insert_instance db (with_client_id uuid item) now in
        (db', instance db' db.next_instance))

-- another row than the updated one clashes
unfoldable pub clashes_elsewhere : Instance → Instance → Bool
clashes_elsewhere item row = not (row.id == item.id) && clashes item row

unfoldable pub set_instance : Db → Instance → Time → Db
set_instance db item now = record db {
  instances =
      update_rows (has_id item.id) (λ row. record (written item row) { updated_at = now })
        db.instances;
}

-- UpdateInstance
unfoldable pub update_instance : Db → Instance → Time → Db × Result StoreError Instance
update_instance db item now =
    if not (any (has_id item.id) db.instances)
    then (db, err no_rows)
    else if any (clashes_elsewhere item) db.instances
    then (db, err not_unique)
    else (set_instance db item now, instance (set_instance db item now) item.id)

-- source_instance_id = id
unfoldable pub is_linked_to : ℕ → SubscriptionEntry → Bool
is_linked_to id e = elim e.source_instance_id [ none ↦ false | some i ↦ i == id ]

-- DELETE with its cascades
unfoldable pub remove_instance : Db → ℕ → Db
remove_instance db id = record db {
  instances = delete_rows (has_id id) db.instances;
  counters = cascaded db.foreign_keys (λ c. c.instance_id == id) db.counters;
  events = cascaded db.foreign_keys (λ e. e.instance_id == id) db.events;
  entries = cascaded db.foreign_keys (is_linked_to id) db.entries;
}

-- DeleteInstance
unfoldable pub delete_instance : Db → ℕ → Db × Check StoreError
delete_instance db id =
    if any (has_id id) db.instances then (remove_instance db id, ok tt) else (db, err no_rows)
