-- ===== src/Store/Db.antt =====
-- internal/store/migrations: the tables of instances, traffic and subscriptions. A row of instances is
-- a model.Instance whose other fields are zero; of subscriptions, with no entries. The JSON columns
-- hold what encoding/json reads back, and a time reads back from its text.
use olcrtc_panel_lite.Common.{ℕ, Bool, List, if◌then◌else◌}
use olcrtc_panel_lite.Text.{Text}
use olcrtc_panel_lite.Model.{Instance, Subscription, SubscriptionEntry, TrafficCounter}
use olcrtc_panel_lite.Store.Rows.{delete_rows}
use olcrtc_panel_lite.Store.Traffic.{Event}

-- a row of subscriptions: the model, and the encrypted key of its mirror
pub record SubscriptionRow : Type 0 where
  pub subscription : Subscription
  pub mirror_key : Text

-- the tables, with the identifiers that AUTOINCREMENT gives next, and PRAGMA foreign_keys of the
-- connection
pub record Db : Type 0 where
  pub foreign_keys : Bool
  pub instances : List Instance
  pub next_instance : ℕ
  pub counters : List TrafficCounter
  pub events : List Event
  pub subscriptions : List SubscriptionRow
  pub next_subscription : ℕ
  pub entries : List SubscriptionEntry
  pub next_entry : ℕ

-- ON DELETE CASCADE, where foreign keys are enforced
unfoldable pub cascaded : {A : Type 0} → Bool → (A → Bool) → List A → List A
cascaded enforced p rows = if enforced then delete_rows p rows else rows

-- sql.ErrNoRows, and the constraints that a statement can break
pub data StoreError : Type 0 where
  no_rows not_unique broken_reference broken_check : StoreError
