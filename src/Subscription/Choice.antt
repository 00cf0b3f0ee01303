-- ===== src/Subscription/Choice.antt =====
-- internal/subscription/service.go: which entries a feed includes.
use olcrtc_panel_lite.Common.{
  ℕ, ◌≡◌, refl, sym, ◌∙◌, if_true, if_false, Bool, true, false, not, ◌&&◌, ◌||◌, ◌⊎◌, Option, none,
  some, List, [], ◌∷◌, if◌then◌else◌, ok, All, Bool-cases, Option-cases, inl, inr, arith, >>=-eq-ok,
  ok-injective,
}
use olcrtc_panel_lite.Text.{Text, codes, text_eq, trim_space}
use olcrtc_panel_lite.Text.Equality.{text_eq→eq, text_eq_refl}
use olcrtc_panel_lite.Model.{Instance, SubscriptionEntry}
use olcrtc_panel_lite.Instance.Names.{wbstream}
use olcrtc_panel_lite.Instance.Net.{NetLib}
use olcrtc_panel_lite.Instance.Uri.Client.{client_compatible}
use olcrtc_panel_lite.Instance.Uri.Accept.{validate_client_uri}
use olcrtc_panel_lite.Instance.Uri.Standard.Check.{validate_standard_uri}
use olcrtc_panel_lite.Subscription.Totals.{Resolved}
use olcrtc_panel_lite.Subscription.Feed.{
  Sources, is_ok, keep, resolve_manual, is_left_out, feed_uri, resolve_linked,
  resolve_entry_for_format, resolve_all,
}

-- a token is set, or the instance or the subscription leaves it out on purpose
abbrev pub HasTokenChoice : Instance → Bool → Type 0
HasTokenChoice item omit = (item.auth_token_set || (item.omit_client_auth_token || omit)) ≡ true

-- an entry of a feed: a manual one whose URI is valid in the format, or a linked one whose instance
-- the client can use, with the URI that the manager gives; a WB instance has a choice for its token
pub data Included (net : NetLib) (sources : Sources) (format : Text) (omit : Bool) (r : Resolved)
    : Type 0 where
  manual_client :
      format ≡ codes "client"
      → r.entry.enabled ≡ true
      → r.entry.source_instance_id ≡ none
      → is_ok (validate_client_uri net r.uri) ≡ true
      → Included net sources format omit r
  manual_olcbox :
      format ≡ codes "olcbox"
      → r.entry.enabled ≡ true
      → r.entry.source_instance_id ≡ none
      → is_ok (validate_standard_uri r.uri) ≡ true
      → Included net sources format omit r
  linked :
      (id : ℕ) (item : Instance) (uri : Text)
      → r.entry.enabled ≡ true
      → r.entry.source_instance_id ≡ some id
      → sources.get id ≡ some item
      → sources.uri id format ≡ some uri
      → r.source ≡ some item
      → (not (text_eq format (codes "client")) || client_compatible item.provider item.transport)
        ≡ true
      → (format ≡ codes "client" → item.provider ≡ wbstream → HasTokenChoice item omit)
      → r.uri ≡ feed_uri net sources item format omit uri
      → Included net sources format omit r

if_some :
    {A : Type 0} (b : Bool) (a c : A)
    → ◌≡◌ {A = Option A} (if b then some a else none) (some c)
    → (b ≡ true) × (a ≡ c)
if_some true a c h = (refl, cc)
if_some false a c h = cc

token_of_tests :
    (client pair wb set kept omit : Bool)
    → client ≡ true
    → wb ≡ true
    → (client && (not pair || (wb && not set && not kept && not omit))) ≡ false
    → (set || (kept || omit)) ≡ true
token_of_tests client pair wb set kept omit f p h = ground arith

or_cases :
    (a b c d : Bool)
    → ((a && b) || (c && d)) ≡ true
    → ((a ≡ true) × (b ≡ true)) ⊎ ((c ≡ true) × (d ≡ true))
or_cases true b c d h = elim (Bool-cases b) [ inl e ↦ inl (refl, e) | inr e ↦ inr (ground arith) ]
or_cases false b c d h = inr (ground arith)

module _ (net : NetLib) (sources : Sources) (format : Text) (omit : Bool) where
  resolve_manual-Included :
      (entry : SubscriptionEntry) (r : Resolved)
      → entry.enabled ≡ true
      → entry.source_instance_id ≡ none
      → resolve_manual net sources entry format ≡ some r
      → Included net sources format omit r
  unfolding resolve_manual
  resolve_manual-Included entry r on e h =
      let p = if_some _ _ _ h in
      rw (← p.1)
        (elim (or_cases (text_eq format (codes "client"))
          (is_ok (validate_client_uri net (trim_space entry.raw_uri)))
          (text_eq format (codes "olcbox"))
          (is_ok (validate_standard_uri (trim_space entry.raw_uri))) p.0) [
            | inl (f, v) ↦ manual_client (text_eq→eq _ _ f) on e v
            | inr (f, v) ↦ manual_olcbox (text_eq→eq _ _ f) on e v
          ])

  left_in :
      (item : Instance)
      → is_left_out net sources item format omit ≡ false
      → (not (text_eq format (codes "client")) || client_compatible item.provider item.transport)
        ≡ true
  unfolding is_left_out
  left_in item h = ground arith

  token_in :
      (item : Instance)
      → is_left_out net sources item format omit ≡ false
      → format ≡ codes "client"
      → item.provider ≡ wbstream
      → HasTokenChoice item omit
  unfolding is_left_out
  token_in item h f p =
      let g : text_eq format (codes "client") ≡ true = rw f (text_eq_refl (codes "client")) in
      let q : text_eq item.provider wbstream ≡ true = rw p (text_eq_refl wbstream) in
      token_of_tests _ _ _ _ _ _ g q h

  resolve_linked-Included :
      (entry : SubscriptionEntry) (id : ℕ) (o : Option Instance) (r : Resolved)
      → entry.enabled ≡ true
      → entry.source_instance_id ≡ some id
      → sources.get id ≡ o
      → resolve_linked net sources entry format omit id o ≡ ok (some r)
      → Included net sources format omit r
  unfolding resolve_linked
  resolve_linked-Included entry id none r on e g h = cc
  resolve_linked-Included entry id (some item) r on e g h =
      elim (Bool-cases (is_left_out net sources item format omit)) [
        | inl x ↦ absurd (ground arith)
        | inr x ↦ elim (Option-cases (sources.uri id format)) [
          | inl u ↦ absurd (ground arith)
          | inr (uri, u) ↦
              let q : record {
                entry = entry;
                uri = feed_uri net sources item format omit uri;
                source = some item;
              }
                  ≡ r =
                ground arith in
              rw (← q) (linked id item uri on e g u refl (left_in item x) (token_in item x) refl)
        ]
      ]

  resolve_entry-Included :
      (entry : SubscriptionEntry) (r : Resolved)
      → entry.enabled ≡ true
      → resolve_entry_for_format net sources entry format omit ≡ ok (some r)
      → Included net sources format omit r
  unfolding resolve_entry_for_format
  resolve_entry-Included entry r on h =
      elim (Bool-cases
        (not (text_eq format (codes "client")) && not (text_eq format (codes "olcbox")))) [
          | inl x ↦ absurd (ground arith)
          | inr x ↦ elim (Option-cases entry.source_instance_id) [
            | inl e ↦ resolve_manual-Included entry r on e (ground arith)
            | inr (id, e) ↦
                resolve_linked-Included entry id (sources.get id) r on e refl (ground arith)
          ]
        ]

  keep-Included :
      (o : Option Resolved) (rs : List Resolved)
      → ((r : Resolved) → o ≡ some r → Included net sources format omit r)
      → All (Included net sources format omit) rs
      → All (Included net sources format omit) (keep o rs)
  unfolding keep
  keep-Included none rs f h = h
  keep-Included (some r) rs f h = (f r refl, h)

  -- Every entry that resolveEntryForFormat includes in a feed is enabled, and a manual one whose URI the
  -- validator of the format accepts, or a linked one with the URI of its instance, without its token
  -- where the subscription omits it. In a feed for OLCRTC Client the client implements the pair of that
  -- instance, and a WB instance has a token, or it or the subscription omits the token.
  pub resolve_all-Included :
      (entries : List SubscriptionEntry) (resolved : List Resolved)
      → resolve_all net sources entries format omit ≡ ok resolved
      → All (Included net sources format omit) resolved
  unfolding resolve_all
  resolve_all-Included [] resolved h = rw (← ok-injective h, All) tt
  resolve_all-Included (entry ∷ entries) resolved h = elim (Bool-cases entry.enabled) [
    | inr e ↦ resolve_all-Included entries resolved (sym (if_false entry.enabled _ _ e) ∙ h)
    | inl e ↦
        let p = >>=-eq-ok _ _ (sym (if_true entry.enabled _ _ e) ∙ h) in
        let q = >>=-eq-ok _ _ p.2 in
        let k : keep p.0 q.0 ≡ resolved = ok-injective q.2 in
        rw (← k) (
          keep-Included p.0 q.0 (λ r o. resolve_entry-Included entry r e (rw (← o) p.1))
            (resolve_all-Included entries q.0 q.1))
  ]
