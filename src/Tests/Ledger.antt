-- ===== src/Tests/Ledger.antt =====
-- Sample runs for internal/store/traffic.go.
use olcrtc_panel_lite.Common.{◌+◌, ◌≡◌, refl, ok, [], ◌∷◌, none, true, false, arith}
use olcrtc_panel_lite.Text.{codes}
use olcrtc_panel_lite.Model.{TrafficCounter}
use olcrtc_panel_lite.Store.Traffic.{
  Tables, Database, Report, apply_traffic_event, reset_traffic, is_recorded, counter_of,
}
use olcrtc_panel_lite.Store.Accounts.{
  Period, period, IsExact, Room, apply_traffic_event-Period, apply_traffic_event_once,
  reset_traffic-Period,
}

abbrev sample_database : Database
sample_database = record { plus = λ a b. a + b; hash = λ t. t }

abbrev sample_counter : TrafficCounter
sample_counter = record {
  instance_id = 7;
  upload_bytes = 0;
  download_bytes = 0;
  total_bytes = 0;
  period_started_at = 1;
  last_event_at = none;
  updated_at = 1;
}

abbrev empty_tables : Tables
empty_tables = record {
  foreign_keys = true;
  events = [];
  counters = sample_counter ∷ [];
  instances = 7 ∷ [];
}

abbrev sample_report : Report
sample_report = record {
  cursor = codes "c";
  instance_id = 7;
  session_id = codes "s";
  target = codes "t";
  upload = 10;
  download = 20;
  event_at = 3;
}

database_IsExact : IsExact sample_database
unfolding IsExact
database_IsExact a b h = refl

sample_Room : Room empty_tables 7 sample_counter sample_report
unfolding counter_of
sample_Room = record { counter = refl; total = omega arith }

sample_Period : Period [] empty_tables 7
unfolding counter_of
sample_Period = period [] sample_counter refl refl refl refl refl

apply_traffic_event-Period_example :
    Period [] ((apply_traffic_event sample_database empty_tables sample_report 4).0) 7
apply_traffic_event-Period_example =
    apply_traffic_event-Period sample_database [] empty_tables 7 sample_counter sample_report 4
      database_IsExact sample_Room sample_Period

sample_accepted : (apply_traffic_event sample_database empty_tables sample_report 4).1 ≡ ok true
unfolding apply_traffic_event is_recorded
sample_accepted = refl

apply_traffic_event_once_example :
    apply_traffic_event sample_database
      ((apply_traffic_event sample_database empty_tables sample_report 4).0)
      sample_report
      5
    ≡ ((apply_traffic_event sample_database empty_tables sample_report 4).0, ok false)
apply_traffic_event_once_example =
    apply_traffic_event_once sample_database empty_tables sample_report sample_report 4 5
      sample_accepted refl refl

reset_traffic-Period_example :
    ((reset_traffic empty_tables 7 9).0.events ≡ empty_tables.events)
    × Period empty_tables.events ((reset_traffic empty_tables 7 9).0) 7
unfolding counter_of
reset_traffic-Period_example = reset_traffic-Period empty_tables 7 9 sample_counter refl
