-- ===== src/Store/Traffic.antt =====
-- internal/store/traffic.go: the ledger of traffic events and the counters. The tables are lists, the
-- newest row first; every operation is one transaction, so that an error leaves the tables as they
-- were. SQLite's sum of two integers and the hash of a target are parameters.
use olcrtc_panel_lite.Common.{
  ℕ, Bool, true, false, not, ◌&&◌, ◌||◌, Option, none, some, List, [], ◌∷◌, ◌==◌, if◌then◌else◌,
  any, add64, slt, Result, ok, err,
}
use olcrtc_panel_lite.Text.{Text, text_eq, is_empty}
use olcrtc_panel_lite.Model.{Time, TrafficCounter}

-- a row of traffic_events
pub record Event : Type 0 where
  pub cursor : Text
  pub instance_id : ℕ
  pub session_id : Text
  pub target_hash : Text
  pub upload_bytes : ℕ
  pub download_bytes : ℕ
  pub event_at : Time

-- traffic_events, traffic_counters, the identifiers in instances, and PRAGMA foreign_keys
pub record Tables : Type 0 where
  pub foreign_keys : Bool
  pub events : List Event
  pub counters : List TrafficCounter
  pub instances : List ℕ

-- a + b in SQLite, and sha256 in hexadecimal
pub record Database : Type 0 where
  pub plus : ℕ → ℕ → ℕ
  pub hash : Text → Text

pub data TrafficError : Type 0 where
  invalid_event no_such_instance no_rows : TrafficError

-- the first row under a key
unfoldable pub counter_of : List TrafficCounter → ℕ → Option TrafficCounter
counter_of [] id = none
counter_of (c ∷ cs) id =
    let later = counter_of cs id in if c.instance_id == id then some c else later

-- UPDATE ... WHERE instance_id = id
unfoldable pub update_where :
    ℕ → (TrafficCounter → TrafficCounter) → List TrafficCounter → List TrafficCounter
update_where id f [] = []
update_where id f (c ∷ cs) = (if c.instance_id == id then f c else c) ∷ update_where id f cs

unfoldable pub add_to_counter : Database → ℕ → ℕ → Time → Time → TrafficCounter → TrafficCounter
add_to_counter db upload download event_at now c = record c {
  upload_bytes = db.plus c.upload_bytes upload;
  download_bytes = db.plus c.download_bytes download;
  total_bytes = db.plus c.total_bytes (add64 upload download);
  last_event_at = some event_at;
  updated_at = now;
}

-- INSERT OR IGNORE found the cursor
unfoldable pub is_recorded : Tables → Text → Bool
is_recorded tables cursor = any (λ e. text_eq e.cursor cursor) tables.events

-- the transaction behind the insert
unfoldable pub record_event : Database → Tables → Event → Time → Tables
record_event db tables e now = record tables {
  events = e ∷ tables.events;
  counters =
      update_where e.instance_id (add_to_counter db e.upload_bytes e.download_bytes e.event_at now)
        tables.counters;
}

-- an event as the collector reports it
pub record Report : Type 0 where
  pub cursor : Text
  pub instance_id : ℕ
  pub session_id : Text
  pub target : Text
  pub upload : ℕ
  pub download : ℕ
  pub event_at : Time

unfoldable pub event_of : Database → Report → Event
event_of db r = record {
  cursor = r.cursor;
  instance_id = r.instance_id;
  session_id = r.session_id;
  target_hash = db.hash r.target;
  upload_bytes = r.upload;
  download_bytes = r.download;
  event_at = r.event_at;
}

-- ApplyTrafficEvent; a row without an instance breaks the foreign key, where it is enforced
unfoldable pub apply_traffic_event :
    Database → Tables → Report → Time → Tables × Result TrafficError Bool
apply_traffic_event db tables r now =
    if is_empty r.cursor || slt r.upload 0 || slt r.download 0
    then (tables, err invalid_event)
    else if is_recorded tables r.cursor
    then (tables, ok false)
    else if tables.foreign_keys && not (any (λ i. i == r.instance_id) tables.instances)
    then (tables, err no_such_instance)
    else (record_event db tables (event_of db r) now, ok true)

unfoldable pub zeroed : Time → TrafficCounter → TrafficCounter
zeroed at c = record c {
  upload_bytes = 0;
  download_bytes = 0;
  total_bytes = 0;
  period_started_at = at;
  last_event_at = none;
  updated_at = at;
}

-- ResetTraffic
unfoldable pub reset_traffic : Tables → ℕ → Time → Tables × Result TrafficError (Unit {0})
reset_traffic tables id at = elim (counter_of tables.counters id) [
  | none ↦ (tables, err no_rows)
  | some c ↦ (record tables { counters = update_where id (zeroed at) tables.counters }, ok tt)
]

-- TrafficCounter
unfoldable pub traffic_counter : Tables → ℕ → Result TrafficError TrafficCounter
traffic_counter tables id = elim (counter_of tables.counters id) [
  | none ↦ err no_rows
  | some c ↦ ok c
]

-- LastTrafficCursor, for an order on the stored times
unfoldable pub newest_from : (Time → Time → Bool) → Event → List Event → Event
newest_from before best [] = best
newest_from before best (e ∷ es) =
    newest_from before (if before best.event_at e.event_at then e else best) es

unfoldable pub last_traffic_cursor : (Time → Time → Bool) → Tables → Option (Text × Time)
last_traffic_cursor before tables = elim tables.events [
  | [] ↦ none
  | e ∷ es ↦ let best = newest_from before e es in some (best.cursor, best.event_at)
]
