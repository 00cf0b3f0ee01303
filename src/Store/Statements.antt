-- ===== src/Store/Statements.antt =====
-- internal/store: the exported operations that write instances, traffic, subscriptions and entries, one
-- after another. An operation that returns an
-- error is a statement like any other; a time is the reading of the clock at its start.
use olcrtc_panel_lite.Common.{ℕ, List, [], ◌∷◌, true, map}
use olcrtc_panel_lite.Text.{Text}
use olcrtc_panel_lite.Model.{Instance, Subscription, SubscriptionEntry, Time}
use olcrtc_panel_lite.Store.Db.{Db}
use olcrtc_panel_lite.Store.Traffic.{Tables, Database, Report, apply_traffic_event, reset_traffic}
use olcrtc_panel_lite.Store.Instances.{create_instance, update_instance, delete_instance}
use olcrtc_panel_lite.Store.Subscriptions.{
  create_subscription, update_subscription, delete_subscription, set_subscription_mirror,
  touch_subscriptions,
}
use olcrtc_panel_lite.Store.Entries.{
  add_subscription_entry, update_subscription_entry, delete_subscription_entry,
  reorder_subscription_entries,
}

pub data Statement : Type 0 where
  create_instance_with : Text → Instance → Time → Statement
  update_instance_to : Instance → Time → Statement
  delete_instance_of : ℕ → Statement
  create_subscription_with : Subscription → Text → Time → Statement
  update_subscription_to : Subscription → Time → Statement
  delete_subscription_of : Text → Statement
  add_entry : SubscriptionEntry → Time → Statement
  update_entry_to : SubscriptionEntry → Time → Statement
  delete_entry_of : ℕ → ℕ → Statement
  reorder_entries : ℕ → List ℕ → Time → Statement
  set_mirror : ℕ → Text → Text → Statement
  touch_all : List (Text × Time) → Statement
  apply_event : Report → Time → Statement
  reset_counter : ℕ → Time → Statement

-- the tables that the ledger reads and writes
unfoldable pub tables_of : Db → Tables
tables_of db = record {
  foreign_keys = db.foreign_keys;
  events = db.events;
  counters = db.counters;
  instances = map (λ row. row.id) db.instances;
}

unfoldable pub with_tables : Db → Tables → Db
with_tables db tables = record db { events = tables.events; counters = tables.counters }

unfoldable pub execute : Database → Db → Statement → Db
execute sqlite db (create_instance_with uuid item now) = (create_instance db uuid item now).0
execute sqlite db (update_instance_to item now) = (update_instance db item now).0
execute sqlite db (delete_instance_of id) = (delete_instance db id).0
execute sqlite db (create_subscription_with item key now) = (create_subscription db item key now).0
execute sqlite db (update_subscription_to item now) = (update_subscription db item now).0
execute sqlite db (delete_subscription_of slug) = (delete_subscription db slug).0
execute sqlite db (add_entry item now) = (add_subscription_entry db item now).0
execute sqlite db (update_entry_to item now) = (update_subscription_entry db item now).0
execute sqlite db (delete_entry_of subscription id) =
    (delete_subscription_entry db subscription id).0
execute sqlite db (reorder_entries subscription ids now) =
    (reorder_subscription_entries db subscription ids now).0
execute sqlite db (set_mirror id url status) = set_subscription_mirror db id url status
execute sqlite db (touch_all slugs) = touch_subscriptions db slugs
execute sqlite db (apply_event report now) =
    with_tables db ((apply_traffic_event sqlite (tables_of db) report now).0)
execute sqlite db (reset_counter id at) = with_tables db ((reset_traffic (tables_of db) id at).0)

unfoldable pub execute_all : Database → Db → List Statement → Db
execute_all sqlite db [] = db
execute_all sqlite db (statement ∷ statements) =
    execute_all sqlite (execute sqlite db statement) statements

-- the tables as the migrations leave them
unfoldable pub empty_db : Db
empty_db = record {
  foreign_keys = true;
  instances = [];
  next_instance = 1;
  counters = [];
  events = [];
  subscriptions = [];
  next_subscription = 1;
  entries = [];
  next_entry = 1;
}
