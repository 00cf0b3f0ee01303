-- ===== src/Subscription/Feed.antt =====
-- internal/subscription/service.go: Summary, render and resolveEntryForFormat, over the store and the
-- manager of instances that a Service holds.
use olcrtc_panel_lite.Common.{
  ℕ, Bool, true, false, not, ◌&&◌, ◌||◌, Option, none, some, List, [], ◌∷◌, ◌++◌, if◌then◌else◌,
  Result, ok, err, ◌>>=◌, ◌>>◌, reject,
}
use olcrtc_panel_lite.Text.{Text, codes, text_eq, join, trim_space}
use olcrtc_panel_lite.Model.{Instance, Subscription, SubscriptionEntry}
use olcrtc_panel_lite.Instance.Names.{wbstream}
use olcrtc_panel_lite.Instance.Net.{NetLib}
use olcrtc_panel_lite.Instance.Uri.Client.{client_compatible, strip_auth_token}
use olcrtc_panel_lite.Instance.Uri.Accept.{validate_client_uri}
use olcrtc_panel_lite.Instance.Uri.Standard.Check.{validate_standard_uri}
use olcrtc_panel_lite.Subscription.Lines.{header_lines, total_lines, entry_metadata}
use olcrtc_panel_lite.Subscription.Totals.{Resolved, aggregate_entries, with_totals}

-- what a Service reads: Store.Subscription, Manager.Get and Manager.URI, `none` on an error
pub record Sources : Type 0 where
  pub subscription : Text → Option Subscription
  pub get : ℕ → Option Instance
  pub uri : ℕ → Text → Option Text

pub data FeedError : Type 0 where
  no_subscription disabled unsupported_format no_instance no_uri : FeedError

-- err == nil
unfoldable pub is_ok : {E A : Type 0} → Result E A → Bool
is_ok (ok a) = true
is_ok (err e) = false

unfoldable pub found : {A : Type 0} → FeedError → Option A → Result FeedError A
found e none = err e
found e (some a) = ok a

-- the entries that the code skips by `continue` are left out
unfoldable pub keep : {A : Type 0} → Option A → List A → List A
keep none rest = rest
keep (some a) rest = a ∷ rest

module _ (net : NetLib) (sources : Sources) where
  -- resolveEntryForFormat on an entry without an instance
  unfoldable pub resolve_manual : SubscriptionEntry → Text → Option Resolved
  resolve_manual entry format =
      let raw = trim_space entry.raw_uri in
      if (text_eq format (codes "client") && is_ok (validate_client_uri net raw))
        || (text_eq format (codes "olcbox") && is_ok (validate_standard_uri raw))
      then some (record { entry = entry; uri = raw; source = none })
      else none

  -- an instance that the client's feed leaves out
  unfoldable pub is_left_out : Instance → Text → Bool → Bool
  is_left_out item format omit =
      text_eq format (codes "client")
      && (not (client_compatible item.provider item.transport)
          || (text_eq item.provider wbstream
              && not item.auth_token_set
              && not item.omit_client_auth_token
              && not omit))

  unfoldable pub feed_uri : Instance → Text → Bool → Text → Text
  feed_uri item format omit uri =
      if text_eq format (codes "client") && text_eq item.provider wbstream && omit
      then strip_auth_token uri
      else uri

  unfoldable pub resolve_linked :
      SubscriptionEntry → Text → Bool → ℕ → Option Instance → Result FeedError (Option Resolved)
  resolve_linked entry format omit id none = ok none
  resolve_linked entry format omit id (some item) =
      if is_left_out item format omit then ok none else elim (sources.uri id format) [
        | none ↦ err no_uri
        | some uri ↦ ok (
            some
              (record { entry = entry; uri = feed_uri item format omit uri; source = some item }))
      ]

  -- resolveEntryForFormat, `ok none` where the entry is not included
  unfoldable pub resolve_entry_for_format :
      SubscriptionEntry → Text → Bool → Result FeedError (Option Resolved)
  resolve_entry_for_format entry format omit =
      if not (text_eq format (codes "client")) && not (text_eq format (codes "olcbox"))
      then err unsupported_format
      else elim entry.source_instance_id [
        | none ↦ ok (resolve_manual entry format)
        | some id ↦ resolve_linked entry format omit id (sources.get id)
      ]

  -- the loop of render over the entries
  unfoldable pub resolve_all :
      List SubscriptionEntry → Text → Bool → Result FeedError (List Resolved)
  resolve_all [] format omit = ok []
  resolve_all (entry ∷ entries) format omit =
      let others = resolve_all entries format omit in
      let both = resolve_entry_for_format entry format omit >>= λ resolved.
      others >>= λ rest. ok (keep resolved rest) in
      if entry.enabled then both else others

  unfoldable pub entry_lines : List Resolved → List Text
  entry_lines [] = []
  entry_lines (r ∷ rs) = r.uri ∷ (entry_metadata r.entry r.source ++ ([] ∷ entry_lines rs))

  -- all lines of a feed whose totals are in `sub`
  unfoldable pub feed_lines : Subscription → List Resolved → List Text
  feed_lines sub resolved =
      header_lines sub
      ++ (total_lines sub.used_bytes sub.available_bytes ++ ([] ∷ entry_lines resolved))

  -- render
  unfoldable pub render : Text → Text → Result FeedError (Text × Subscription)
  render slug format = do
    sub ← found no_subscription (sources.subscription slug)
    reject (not sub.enabled) disabled
    resolved ← resolve_all sub.entries format sub.omit_client_auth_token
    let summed = with_totals sub (aggregate_entries sources.get resolved)
    ok (trim_space (join (feed_lines summed resolved) (codes "\n")) ++ codes "\n", summed)

  -- Standard and OLCBOX
  unfoldable pub standard : Text → Result FeedError (Text × Subscription)
  standard slug = render slug (codes "client")

  unfoldable pub olcbox : Text → Result FeedError (Text × Subscription)
  olcbox slug = render slug (codes "olcbox")

  -- one enabled entry of Summary
  unfoldable pub summary_entry : SubscriptionEntry → Result FeedError (Option Resolved)
  summary_entry entry = elim entry.source_instance_id [
    | some id ↦ elim (sources.get id) [
      | none ↦ err no_instance
      | some item ↦ ok (some (record { entry = entry; uri = []; source = some item }))
    ]
    | none ↦
        let raw = trim_space entry.raw_uri in
        if not (is_ok (validate_client_uri net raw)) && not (is_ok (validate_standard_uri raw))
        then ok none
        else ok (some (record { entry = entry; uri = raw; source = none }))
  ]

  unfoldable pub summary_entries : List SubscriptionEntry → Result FeedError (List Resolved)
  summary_entries [] = ok []
  summary_entries (entry ∷ entries) =
      let others = summary_entries entries in
      let both = summary_entry entry >>= λ resolved. others >>= λ rest. ok (keep resolved rest) in
      if entry.enabled then both else others

  -- Summary
  unfoldable pub summary : Text → Result FeedError Subscription
  summary slug = do
    sub ← found no_subscription (sources.subscription slug)
    reject (not sub.enabled) disabled
    resolved ← summary_entries sub.entries
    ok (with_totals sub (aggregate_entries sources.get resolved))
