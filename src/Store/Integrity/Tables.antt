-- ===== src/Store/Integrity/Tables.antt =====
-- internal/store/migrations: the constraints, as a predicate on the tables.
use olcrtc_panel_lite.Common.{ℕ, ◌≡◌, true, List, any, All}
use olcrtc_panel_lite.Model.{Instance, SubscriptionEntry, TrafficCounter}
use olcrtc_panel_lite.Store.Rows.{Unique}
use olcrtc_panel_lite.Store.Traffic.{Event}
use olcrtc_panel_lite.Store.Keys.{Numbered}
use olcrtc_panel_lite.Store.Db.{Db, SubscriptionRow}
use olcrtc_panel_lite.Store.Instances.{has_id}
use olcrtc_panel_lite.Store.Subscriptions.{has_subscription_id}
use olcrtc_panel_lite.Store.Entries.{has_one_source, is_source}

-- no instance has the identifier, name or client identifier of another
pub record InstanceKeys (rows : List Instance) (next : ℕ) : Type 0 where
  pub numbered : Numbered (λ row. row.id) rows next
  pub names : Unique (λ row. row.name) rows
  pub client_ids : Unique (λ row. row.client_id) rows

-- at most one counter for an instance, and an instance for each counter
pub record CounterKeys (instances : List Instance) (counters : List TrafficCounter) : Type 0 where
  pub counted : Unique (λ c. c.instance_id) counters
  pub counts : All (λ c. any (has_id c.instance_id) instances ≡ true) counters

pub record SubscriptionKeys (rows : List SubscriptionRow) (next : ℕ) : Type 0 where
  pub numbered : Numbered (λ row. row.subscription.id) rows next
  pub slugs : Unique (λ row. row.subscription.slug) rows

-- what one entry refers to: a subscription, and an instance or a URI but never both
pub record IsEntryOf (instances : List Instance) (subscriptions : List SubscriptionRow)
    (e : SubscriptionEntry) : Type 0 where
  pub one_source : has_one_source e ≡ true
  pub source : is_source instances e.source_instance_id ≡ true
  pub owner : any (has_subscription_id e.subscription_id) subscriptions ≡ true

pub record EntryKeys (instances : List Instance) (subscriptions : List SubscriptionRow)
    (rows : List SubscriptionEntry) (next : ℕ) : Type 0 where
  pub numbered : Numbered (λ e. e.id) rows next
  pub entries : All (IsEntryOf instances subscriptions) rows

-- no cursor is recorded twice, and every event has its instance
pub record EventKeys (instances : List Instance) (events : List Event) : Type 0 where
  pub cursors : Unique (λ e. e.cursor) events
  pub sources : All (λ e. any (has_id e.instance_id) instances ≡ true) events

-- the connection enforces foreign keys, and the tables meet their constraints
pub record Integrity (db : Db) : Type 0 where
  pub enforced : db.foreign_keys ≡ true
  pub instance_keys : InstanceKeys db.instances db.next_instance
  pub counter_keys : CounterKeys db.instances db.counters
  pub event_keys : EventKeys db.instances db.events
  pub subscription_keys : SubscriptionKeys db.subscriptions db.next_subscription
  pub entry_keys : EntryKeys db.instances db.subscriptions db.entries db.next_entry
