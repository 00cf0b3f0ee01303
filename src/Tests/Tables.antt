-- ===== src/Tests/Tables.antt =====
-- Sample runs of internal/store.
use olcrtc_panel_lite.Common.{
  ◌+◌, ◌≤◌, ◌<◌, ◌≡◌, refl, true, none, List, [], ◌∷◌, ok, err, map, if◌then◌else◌, length, outside,
  arith,
}
use olcrtc_panel_lite.Text.{codes, text_eq, Text}
use olcrtc_panel_lite.Model.{Instance, Subscription, Time}
use olcrtc_panel_lite.Store.Rows.{find_row, update_rows, select_rows}
use olcrtc_panel_lite.Store.Db.{Db, no_rows}
use olcrtc_panel_lite.Store.Instances.{
  instance, found_instance, scan_instance, joined, set_instance, update_instance,
}
use olcrtc_panel_lite.Store.Traffic.{Database, Report, counter_of}
use olcrtc_panel_lite.Store.Subscriptions.{
  subscription, scanned, scan_subscription, subscription_entries, sort_entries, insert_entry,
  entry_le, touch_subscriptions, seconds,
}
use olcrtc_panel_lite.Store.Entries.{reorder_subscription_entries, reordered, reorder_from, placed}
use olcrtc_panel_lite.Store.Settings.{set_settings, setting_or_default}
use olcrtc_panel_lite.Store.Sessions.{
  AuthDb, audit, session, cleanup_sessions, delete_session, delete_sessions,
  update_admin_credentials,
}
use olcrtc_panel_lite.Store.Statements.{
  Statement, create_instance_with, create_subscription_with, add_entry, delete_instance_of,
  apply_event, reset_counter, execute_all, empty_db,
}
use olcrtc_panel_lite.Store.Integrity.Tables.{Integrity, InstanceKeys}
use olcrtc_panel_lite.Store.Integrity.Statements.{execute_all-Integrity, empty_db-Integrity}
use olcrtc_panel_lite.Store.Restore.{stamped, update_instance_restores}
use olcrtc_panel_lite.Store.Touch.{touch_subscriptions_later}
use olcrtc_panel_lite.Store.Sorting.{Pairwise}
use olcrtc_panel_lite.Store.Reorder.{position, reorder_subscription_entries_sorts}
use olcrtc_panel_lite.Store.Overrides.{value_in, setting_or_default-set_settings}
use olcrtc_panel_lite.Store.Revoked.{length-audit, session_revoked}
use olcrtc_panel_lite.Tests.Samples.{
  sample_instance, sample_subscription, linked_entry, manual_entry,
}

abbrev sample_report : Report
sample_report = record {
  cursor = codes "c";
  instance_id = 1;
  session_id = codes "s";
  target = codes "t";
  upload = 10;
  download = 20;
  event_at = 3;
}

abbrev sample_statements : List Statement
sample_statements =
    create_instance_with (codes "u") sample_instance 5
    ∷ create_instance_with (codes "u") sample_instance 6
    ∷ create_subscription_with sample_subscription (codes "k") 7
    ∷ add_entry manual_entry 8
    ∷ apply_event sample_report 9
    ∷ apply_event sample_report 10
    ∷ reset_counter 1 11
    ∷ delete_instance_of 1
    ∷ []

abbrev sample_sqlite : Database
sample_sqlite = record { plus = λ a b. a + b; hash = λ t. t }

execute_all-Integrity_example : Integrity (execute_all sample_sqlite empty_db sample_statements)
execute_all-Integrity_example =
    execute_all-Integrity sample_sqlite empty_db sample_statements empty_db-Integrity

-- an instance, a subscription and its two entries
abbrev pub sample_db : Db
sample_db = record {
  foreign_keys = true;
  instances = sample_instance ∷ [];
  next_instance = 8;
  counters = [];
  events = [];
  subscriptions = (record { subscription = sample_subscription; mirror_key = codes "" }) ∷ [];
  next_subscription = 2;
  entries = linked_entry ∷ manual_entry ∷ [];
  next_entry = 3;
}

pub sample_keys : InstanceKeys sample_db.instances 8
sample_keys = record {
  numbered = ((tt, tt), (omega arith, tt));
  names = (tt, tt);
  client_ids = (tt, tt);
}

abbrev pub sample_read : Instance
sample_read = record sample_instance {
  upload_bytes = 0;
  download_bytes = 0;
  total_bytes = 0;
  last_traffic_at = none;
}

pub sample_instance_is_read : instance sample_db 7 ≡ ok sample_read
unfolding instance found_instance scan_instance joined counter_of find_row
sample_instance_is_read = refl

update_instance_restores_example :
    (update_instance
      (set_instance sample_db (record sample_instance { room_id = codes "r2" }) 50)
      sample_read
      60).0
    ≡ stamped sample_db 7 60
update_instance_restores_example =
    update_instance_restores sample_db (record sample_instance { room_id = codes "r2" }) sample_read
      50 60 sample_keys sample_instance_is_read

abbrev sample_shown : Subscription
sample_shown = record sample_subscription { entries = linked_entry ∷ manual_entry ∷ [] }

sample_subscription_is_read : subscription sample_db (codes "s") ≡ ok sample_shown
unfolding subscription scanned scan_subscription subscription_entries find_row select_rows
    sort_entries insert_entry entry_le text_eq
sample_subscription_is_read = refl

touch_subscriptions_later_example :
    (t : Time) × (subscription (touch_subscriptions sample_db ((codes "s", 3) ∷ [])) (codes "s")
      ≡ ok (record sample_shown { updated_at = t }))
    × (seconds sample_shown.updated_at < seconds t)
unfolding text_eq
touch_subscriptions_later_example =
    touch_subscriptions_later sample_db ((codes "s", 3) ∷ []) (codes "s") sample_shown
      sample_subscription_is_read refl

reordered_sample : (reorder_subscription_entries sample_db 1 (2 ∷ 1 ∷ []) 9).1 ≡ ok tt
unfolding reorder_subscription_entries reordered reorder_from update_rows placed
reordered_sample = refl

reorder_subscription_entries_sorts_example :
    Pairwise
      (λ e f. position e.id (2 ∷ 1 ∷ []) ≤ position f.id (2 ∷ 1 ∷ []))
      (subscription_entries ((reorder_subscription_entries sample_db 1 (2 ∷ 1 ∷ []) 9).0) 1)
    × (map (λ e. e.id) (reorder_subscription_entries sample_db 1 (2 ∷ 1 ∷ []) 9).0.entries
        ≡ map (λ e. e.id) sample_db.entries)
reorder_subscription_entries_sorts_example =
    reorder_subscription_entries_sorts sample_db 1 (2 ∷ 1 ∷ []) 9 ((λ e. cc, tt), (tt, tt))
      (omega arith) ((λ e. refl), ((λ e. refl), tt)) reordered_sample

setting_or_default-set_settings_example :
    setting_or_default
      (set_settings [] ((codes "a", codes "1") ∷ (codes "b", codes "2") ∷ []) 4)
      (codes "b")
      (codes "f")
    ≡ value_in
        ((codes "a", codes "1") ∷ (codes "b", codes "2") ∷ [])
        (codes "b")
        (setting_or_default [] (codes "b") (codes "f"))
unfolding text_eq
setting_or_default-set_settings_example =
    setting_or_default-set_settings [] ((codes "a", codes "1") ∷ (codes "b", codes "2") ∷ []) 4
      (codes "b") (codes "f") ((refl, tt), (tt, tt))

abbrev sample_auth : AuthDb
sample_auth = record {
  foreign_keys = true;
  admins = [];
  sessions = [];
  audit_log = [];
  next_event = 1;
}

length-audit_example :
    (length (audit sample_auth 2000) ≤ 1000)
    × (length (audit sample_auth 2000) ≤ (if outside 1 1000 2000 then 200 else 2000))
length-audit_example = length-audit sample_auth 2000 (omega arith)

abbrev sample_sessions : AuthDb
sample_sessions = record {
  foreign_keys = true;
  admins =
      (record {
        id = 1;
        username = codes "a";
        password_hash = codes "p";
        created_at = 1;
        updated_at = 1;
      })
      ∷ [];
  sessions =
      (record {
        id_hash = codes "h";
        admin_id = 1;
        csrf_hash = codes "c";
        created_at = 1;
        expires_at = 9;
        last_seen_at = 1;
        ip = codes "";
        user_agent = codes "";
      })
      ∷ [];
  audit_log = [];
  next_event = 1;
}

abbrev sample_time : Time → Text
sample_time t = t ∷ []

session_revoked_example :
    (session sample_time (cleanup_sessions sample_time sample_sessions 5) (codes "h") 5
      ≡ session sample_time sample_sessions (codes "h") 5)
    × (session sample_time (delete_session sample_sessions (codes "h")) (codes "h") 6 ≡ err no_rows)
    × (session sample_time (delete_sessions sample_sessions) (codes "h") 6 ≡ err no_rows)
    × (session sample_time
          (update_admin_credentials sample_sessions (codes "n") (codes "p") 5)
          (codes "h")
          6
        ≡ err no_rows)
session_revoked_example =
    session_revoked sample_time sample_sessions (codes "h") (codes "n") (codes "p") 5 6
