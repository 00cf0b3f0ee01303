-- ===== src/Subscription/Totals.antt =====
-- internal/subscription/service.go: resolvedEntry, trafficAggregate, aggregateEntries, earliest and
-- TrafficHeader.
use olcrtc_panel_lite.Common.{
  ℕ, Bool, true, false, Option, none, some, List, [], ◌∷◌, ◌++◌, ltb, if◌then◌else◌, add64, slt,
}
use olcrtc_panel_lite.Text.{Text, codes}
use olcrtc_panel_lite.Text.Number.{itoa}
use olcrtc_panel_lite.Model.{Instance, Subscription, SubscriptionEntry, Time}
use olcrtc_panel_lite.Subscription.Lines.{left_of, unix_of}

-- resolvedEntry
pub record Resolved : Type 0 where
  pub entry : SubscriptionEntry
  pub uri : Text
  pub source : Option Instance

-- trafficAggregate
pub record Aggregate : Type 0 where
  pub used : ℕ
  pub upload : ℕ
  pub download : ℕ
  pub available : ℕ
  pub all_limited : Bool
  pub expires : Option Time

-- earliest
unfoldable pub earliest : Option Time → Option Time → Option Time
earliest current none = current
earliest none (some t) = some t
earliest (some c) (some t) = if ltb t c then some t else some c

-- the traffic of an instance, added
unfoldable pub add_instance : Aggregate → SubscriptionEntry → Instance → Aggregate
add_instance r entry item = record {
  used = add64 r.used item.total_bytes;
  upload = add64 r.upload item.upload_bytes;
  download = add64 r.download item.download_bytes;
  available = if slt 0 item.quota_bytes then add64 r.available (left_of item) else r.available;
  all_limited = if slt 0 item.quota_bytes then r.all_limited else false;
  expires = earliest (earliest r.expires item.expires_at) entry.expires_at;
}

-- *p added where p is set
unfoldable pub add_optional : ℕ → Option ℕ → ℕ
add_optional n none = n
add_optional n (some m) = add64 n m

unfoldable pub keep_limited : Bool → Option ℕ → Bool
keep_limited b none = false
keep_limited b (some m) = b

-- the traffic of a manual entry, added
unfoldable pub add_manual : Aggregate → SubscriptionEntry → Aggregate
add_manual r entry = record {
  used = add_optional r.used entry.manual_used;
  upload = add_optional r.upload entry.manual_used;
  download = r.download;
  available = add_optional r.available entry.manual_available;
  all_limited = keep_limited r.all_limited entry.manual_available;
  expires = earliest r.expires entry.expires_at;
}

-- the instance of a linked entry: the one resolved with it, or the one loaded now
unfoldable pub loaded : (ℕ → Option Instance) → Option Instance → ℕ → Option Instance
loaded get (some item) id = some item
loaded get none id = get id

unfoldable pub add_loaded : Aggregate → SubscriptionEntry → Option Instance → Aggregate
add_loaded r entry none = r
add_loaded r entry (some item) = add_instance r entry item

-- the two ways of an entry, by its instance
unfoldable pub add_source : (ℕ → Option Instance) → Aggregate → Resolved → Option ℕ → Aggregate
add_source get r resolved none = add_manual r resolved.entry
add_source get r resolved (some id) = add_loaded r resolved.entry (loaded get resolved.source id)

-- one round of aggregateEntries
unfoldable pub add_entry : (ℕ → Option Instance) → Aggregate → Resolved → Aggregate
add_entry get r resolved = add_source get r resolved resolved.entry.source_instance_id

-- trafficAggregate{allLimited: true}
unfoldable pub no_traffic : Aggregate
no_traffic = record {
  used = 0;
  upload = 0;
  download = 0;
  available = 0;
  all_limited = true;
  expires = none;
}

unfoldable pub aggregate_from : (ℕ → Option Instance) → Aggregate → List Resolved → Aggregate
aggregate_from get r [] = r
aggregate_from get r (e ∷ es) = aggregate_from get (add_entry get r e) es

-- aggregateEntries
unfoldable pub aggregate_entries : (ℕ → Option Instance) → List Resolved → Aggregate
aggregate_entries get entries = aggregate_from get no_traffic entries

-- the totals written into a subscription
unfoldable pub with_totals : Subscription → Aggregate → Subscription
with_totals sub r = record sub {
  used_bytes = r.used;
  upload_bytes = r.upload;
  download_bytes = r.download;
  expires_at = r.expires;
  available_bytes = if r.all_limited then some r.available else none;
}

unfoldable pub total_of : Subscription → ℕ
total_of sub = elim sub.available_bytes [
  | none ↦ 0
  | some available ↦ add64 sub.used_bytes available
]

unfoldable pub expiry_of : Subscription → ℕ
expiry_of sub = elim sub.expires_at [ none ↦ 0 | some t ↦ unix_of t ]

-- TrafficHeader
unfoldable pub traffic_header : Subscription → Text
traffic_header sub =
    codes "upload="
    ++ (itoa sub.upload_bytes
        ++ (codes "; download="
            ++ (itoa sub.download_bytes
                ++ (codes "; total="
                    ++ (itoa (total_of sub) ++ (codes "; expire=" ++ itoa (expiry_of sub)))))))
