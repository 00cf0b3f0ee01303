-- ===== src/Tests/Feeds.antt =====
-- Sample runs for internal/subscription/service.go.
use mathlib.Core.List.{Permᴰ}
use olcrtc_panel_lite.Common.{ℕ, ◌≡◌, refl, ok, List, [], ◌∷◌, Option, some, none, true, false, All}
use olcrtc_panel_lite.Text.{codes, text_eq}
use olcrtc_panel_lite.Model.{Instance, Subscription}
use olcrtc_panel_lite.Instance.Uri.Client.{client_compatible}
use olcrtc_panel_lite.Tests.Samples.{
  sample_instance, sample_net, linked_entry, manual_entry, sample_subscription,
}
use olcrtc_panel_lite.Subscription.Lines.{header_lines, entry_metadata}
use olcrtc_panel_lite.Subscription.Totals.{Resolved, aggregate_entries}
use olcrtc_panel_lite.Subscription.Feed.{
  Sources, resolve_all, resolve_entry_for_format, resolve_linked, is_left_out, feed_uri, keep,
}
use olcrtc_panel_lite.Subscription.Mirror.{
  Backend, missing, delete, delete_found, delete_local, mirror_may_exist,
}
use olcrtc_panel_lite.Subscription.Safe.{OneLine, entry_metadata-OneLine, header_lines-OneLine}
use olcrtc_panel_lite.Subscription.Order.{aggregate-order}
use olcrtc_panel_lite.Subscription.Choice.{Included, resolve_all-Included}
use olcrtc_panel_lite.Subscription.Cleanup.{Deleted, delete-Deleted}

entry_metadata-OneLine_example : All OneLine (entry_metadata linked_entry (some sample_instance))
entry_metadata-OneLine_example = entry_metadata-OneLine linked_entry (some sample_instance)

header_lines-OneLine_example : All OneLine (header_lines sample_subscription)
header_lines-OneLine_example = header_lines-OneLine sample_subscription

abbrev first_resolved : Resolved
first_resolved = record { entry = linked_entry; uri = codes "u"; source = some sample_instance }

abbrev second_resolved : Resolved
second_resolved = record { entry = manual_entry; uri = codes "v"; source = none }

abbrev get_none : ℕ → Option Instance
get_none id = none

aggregate-order_example :
    aggregate_entries get_none (first_resolved ∷ second_resolved ∷ [])
    ≡ aggregate_entries get_none (second_resolved ∷ first_resolved ∷ [])
aggregate-order_example =
    aggregate-order get_none {xs = first_resolved ∷ second_resolved ∷ []}
      {ys = second_resolved ∷ first_resolved ∷ []} (Permᴰ.swap refl refl)

abbrev sample_sources : Sources
sample_sources = record {
  subscription = λ slug. some sample_subscription;
  get = λ id. some sample_instance;
  uri = λ id format. some (codes "u");
}

abbrev linked_resolved : Resolved
linked_resolved = record {
  entry = linked_entry;
  uri = feed_uri sample_net sample_sources sample_instance (codes "client") false (codes "u");
  source = some sample_instance;
}

linked_included :
    resolve_all sample_net sample_sources (linked_entry ∷ []) (codes "client") false
    ≡ ok (linked_resolved ∷ [])
unfolding resolve_all resolve_entry_for_format resolve_linked is_left_out keep client_compatible
    text_eq
linked_included = refl

resolve_all-Included_example :
    All (Included sample_net sample_sources (codes "client") false) (linked_resolved ∷ [])
resolve_all-Included_example =
    resolve_all-Included sample_net sample_sources (codes "client") false (linked_entry ∷ [])
      (linked_resolved ∷ []) linked_included

-- a world that is its list of subscriptions
abbrev sample_backend : Backend
sample_backend = record {
  World = List Subscription;
  sources = λ w. record {
    subscription = λ slug. elim w [ [] ↦ none | s ∷ rest ↦ some s ];
    get = λ id. none;
    uri = λ id format. none;
  };
  setting = λ w key. missing;
  mirror_key = λ w id. none;
  decrypt = λ t. none;
  decode_key = λ t. none;
  encrypt = λ w key t. none;
  upload = λ w client slug payload. (w, none);
  remote_delete = λ w client slug. (w, true);
  set_mirror = λ w id url status. (w, true);
  delete_subscription = λ w slug. ([], true);
}

deleted_sample : (delete sample_backend (sample_subscription ∷ []) (codes "s")).1 ≡ ok tt
unfolding delete delete_found delete_local mirror_may_exist text_eq
deleted_sample = refl

delete-Deleted_example :
    Deleted sample_backend
      (sample_subscription ∷ [])
      (codes "s")
      (delete sample_backend (sample_subscription ∷ []) (codes "s"))
delete-Deleted_example =
    delete-Deleted sample_backend (sample_subscription ∷ []) (codes "s") deleted_sample
