-- ===== src/Store/Integrity/Statements.antt =====
-- internal/store: every statement keeps the constraints of the tables.
use olcrtc_panel_lite.Common.{refl, List, [], ◌∷◌}
use olcrtc_panel_lite.Store.Db.{Db}
use olcrtc_panel_lite.Store.Traffic.{Database}
use olcrtc_panel_lite.Store.Integrity.Traffic.{
  apply_traffic_event-Integrity, reset_traffic-Integrity,
}
use olcrtc_panel_lite.Store.Statements.{
  Statement, create_instance_with, update_instance_to, delete_instance_of, create_subscription_with,
  update_subscription_to, delete_subscription_of, add_entry, update_entry_to, delete_entry_of,
  reorder_entries, set_mirror, touch_all, apply_event, reset_counter, execute, execute_all,
  empty_db,
}
use olcrtc_panel_lite.Store.Integrity.Tables.{Integrity}
use olcrtc_panel_lite.Store.Integrity.Instances.{
  create_instance-Integrity, update_instance-Integrity, delete_instance-Integrity,
}
use olcrtc_panel_lite.Store.Integrity.Subscriptions.{
  create_subscription-Integrity, update_subscription-Integrity, delete_subscription-Integrity,
  set_subscription_mirror-Integrity, touch_subscriptions-Integrity,
}
use olcrtc_panel_lite.Store.Integrity.Entries.{
  add_subscription_entry-Integrity, update_subscription_entry-Integrity,
  delete_subscription_entry-Integrity, reorder_subscription_entries-Integrity,
}

execute-Integrity :
    (sqlite : Database) (db : Db) (statement : Statement)
    → Integrity db
    → Integrity (execute sqlite db statement)
unfolding execute
execute-Integrity sqlite db (create_instance_with uuid item now) i =
    create_instance-Integrity db uuid item now i
execute-Integrity sqlite db (update_instance_to item now) i =
    update_instance-Integrity db item now i
execute-Integrity sqlite db (delete_instance_of id) i = delete_instance-Integrity db id i
execute-Integrity sqlite db (create_subscription_with item key now) i =
    create_subscription-Integrity db item key now i
execute-Integrity sqlite db (update_subscription_to item now) i =
    update_subscription-Integrity db item now i
execute-Integrity sqlite db (delete_subscription_of slug) i =
    delete_subscription-Integrity db slug i
execute-Integrity sqlite db (add_entry item now) i = add_subscription_entry-Integrity db item now i
execute-Integrity sqlite db (update_entry_to item now) i =
    update_subscription_entry-Integrity db item now i
execute-Integrity sqlite db (delete_entry_of subscription id) i =
    delete_subscription_entry-Integrity db subscription id i
execute-Integrity sqlite db (reorder_entries subscription ids now) i =
    reorder_subscription_entries-Integrity db subscription ids now i
execute-Integrity sqlite db (set_mirror id url status) i =
    set_subscription_mirror-Integrity db id url status i
execute-Integrity sqlite db (touch_all slugs) i = touch_subscriptions-Integrity db slugs i
execute-Integrity sqlite db (apply_event report now) i =
    apply_traffic_event-Integrity sqlite db report now i
execute-Integrity sqlite db (reset_counter id at) i = reset_traffic-Integrity db id at i

-- Operations on instances, traffic, subscriptions and entries, run one after another, failing ones
-- included, on a connection that enforces foreign keys, leave tables that meet their constraints where
-- they met them: identifiers, names, client identifiers, slugs and cursors stay unique, every counter and
-- every event has its instance, and every entry has its subscription and either an instance that exists
-- or a URI.
pub execute_all-Integrity :
    (sqlite : Database) (db : Db) (statements : List Statement)
    → Integrity db
    → Integrity (execute_all sqlite db statements)
unfolding execute_all
execute_all-Integrity sqlite db [] i = i
execute_all-Integrity sqlite db (statement ∷ statements) i =
    execute_all-Integrity sqlite (execute sqlite db statement) statements
      (execute-Integrity sqlite db statement i)

pub empty_db-Integrity : Integrity empty_db
unfolding empty_db
empty_db-Integrity = record {
  enforced = refl;
  event_keys = record { cursors = tt; sources = tt };
  instance_keys = record { numbered = (tt, tt); names = tt; client_ids = tt };
  counter_keys = record { counted = tt; counts = tt };
  subscription_keys = record { numbered = (tt, tt); slugs = tt };
  entry_keys = record { numbered = (tt, tt); entries = tt };
}
