-- ===== src/Store/Touch.antt =====
-- TouchSubscriptions of internal/store/subscriptions.go: a client that compares whole seconds sees every
-- touch.
use olcrtc_panel_lite.Common.{
  ◌≤◌, ◌<◌, ◌≡◌, refl, sym, ap, ◌∙◌, true, false, ◌||◌, none, some, List, [], ◌∷◌, Result, ok,
  ok-injective, any, Option-cases, Bool-cases, if_true, if_false, inl, inr, arith,
}
use olcrtc_panel_lite.Text.{Text, text_eq}
use olcrtc_panel_lite.Text.Equality.{text_eq→eq, text_eq_refl}
use olcrtc_panel_lite.Model.{Subscription, Time}
use olcrtc_panel_lite.Store.Rows.{find_row, find_row-test}
use olcrtc_panel_lite.Store.Keys.{find_row-update_rows}
use olcrtc_panel_lite.Store.Db.{Db, SubscriptionRow, StoreError}
use olcrtc_panel_lite.Store.Subscriptions.{
  has_slug, scan_subscription, scanned, subscription, subscription_entries, seconds, next_update,
  touched, touch_rows, touch_subscriptions,
}

next_update_later : (now current : Time) → seconds current < seconds (next_update now current)
unfolding next_update
next_update_later now current = ground arith

abbrev updated : Time → SubscriptionRow → SubscriptionRow
updated t row =
    let sub = row.subscription in record row { subscription = record sub { updated_at = t } }

kept_slug :
    (slug : Text) (now : Time) (row : SubscriptionRow)
    → has_slug slug (touched now row) ≡ has_slug slug row
unfolding touched
kept_slug slug now row = refl

seconds-touched :
    (now : Time) (row : SubscriptionRow)
    → seconds row.subscription.updated_at < seconds (touched now row).subscription.updated_at
unfolding touched
seconds-touched now row = next_update_later now row.subscription.updated_at

updated-touched :
    (t now : Time) (row : SubscriptionRow) → updated t (touched now row) ≡ updated t row
unfolding touched
updated-touched t now row = refl

slug_of_row :
    (s slug : Text) (row : SubscriptionRow)
    → has_slug slug row ≡ true
    → has_slug s row ≡ false
    → text_eq s slug ≡ false
slug_of_row s slug row h k =
    let q = text_eq→eq row.subscription.slug slug h in
    elim (Bool-cases (text_eq s slug)) [
      | inl e ↦
          let r : row.subscription.slug ≡ s = q ∙ sym (text_eq→eq s slug e) in
          let t : has_slug s row ≡ true = rw r (text_eq_refl s) in cc
      | inr e ↦ e
    ]

-- the row of a slug, however often the loop meets it
touch_rows-find_row :
    (slugs : List (Text × Time)) (rows : List SubscriptionRow) (slug : Text) (row : SubscriptionRow)
    → find_row (has_slug slug) rows ≡ some row
    → (t : Time) × (find_row (has_slug slug) (touch_rows slugs rows) ≡ some (updated t row))
      × (seconds row.subscription.updated_at ≤ seconds t)
      × (any (λ s. text_eq s.0 slug) slugs ≡ true → seconds row.subscription.updated_at < seconds t)
unfolding touch_rows
touch_rows-find_row [] rows slug row e = (row.subscription.updated_at, e, omega arith, λ h. cc)
touch_rows-find_row ((s, now) ∷ slugs) rows slug row e =
    let found =
      find_row-update_rows (has_slug slug) (has_slug s) (touched now) rows row (kept_slug slug now)
        e in
    elim (Bool-cases (has_slug s row)) [
      | inl t ↦
          let (later, f, le, lt) =
            touch_rows-find_row slugs _ slug (touched now row)
              (found ∙ ap some (if_true _ _ _ t)) in
          let first = seconds-touched now row in
          (later, f ∙ ap some (updated-touched later now row), omega arith, λ h. omega arith)
      | inr t ↦
          let (later, f, le, lt) =
            touch_rows-find_row slugs _ slug row (found ∙ ap some (if_false _ _ _ t)) in
          (
            later,
            f,
            le,
            λ h. lt (
                sym (
                  ap (λ b. b || any (λ q. text_eq q.0 slug) slugs)
                    (slug_of_row s slug row (find_row-test (has_slug slug) rows row e) t))
                ∙ h),
          )
    ]

nothing_scanned : (db : Db) (sub : Subscription) → scanned db none ≡ ok sub → ⊥
unfolding scanned
nothing_scanned db sub e = cc

some-scanned :
    (db : Db) (row : SubscriptionRow) (sub : Subscription)
    → scanned db (some row) ≡ ok sub
    → scan_subscription db row ≡ sub
unfolding scanned
some-scanned db row sub e = ok-injective e

scan-updated_at :
    (db : Db) (row : SubscriptionRow)
    → (scan_subscription db row).updated_at ≡ row.subscription.updated_at
unfolding scan_subscription
scan-updated_at db row = refl

abbrev at_time : Time → Subscription → Result StoreError Subscription
at_time t sub = ok (record sub { updated_at = t })

-- the entries of a subscription do not depend on its row
scanned-updated :
    (db : Db) (slugs : List (Text × Time)) (t : Time) (row : SubscriptionRow)
    → scanned (touch_subscriptions db slugs) (some (updated t row))
      ≡ ok (record (scan_subscription db row) { updated_at = t })
unfolding scanned scan_subscription touch_subscriptions subscription_entries
scanned-updated db slugs t row = refl

-- Every touch of a subscription that exists moves its time of update to a later whole second, whatever
-- the clock reads, and changes nothing else of it.
pub touch_subscriptions_later :
    (db : Db) (slugs : List (Text × Time)) (slug : Text) (sub : Subscription)
    → subscription db slug ≡ ok sub
    → any (λ s. text_eq s.0 slug) slugs ≡ true
    → (t : Time) × (subscription (touch_subscriptions db slugs) slug
        ≡ ok (record sub { updated_at = t }))
      × (seconds sub.updated_at < seconds t)
unfolding subscription touch_subscriptions
touch_subscriptions_later db slugs slug sub e h =
    elim (Option-cases (find_row (has_slug slug) db.subscriptions)) [
      | inl none_found ↦ absurd (nothing_scanned db sub (sym (ap (scanned db) none_found) ∙ e))
      | inr (row, found) ↦
          let (t, f, le, lt) = touch_rows-find_row slugs db.subscriptions slug row found in
          let same : scan_subscription db row ≡ sub =
            some-scanned db row sub (sym (ap (scanned db) found) ∙ e) in
          let kept : sub.updated_at ≡ row.subscription.updated_at =
            ap (λ s. s.updated_at) (sym same) ∙ scan-updated_at db row in
          (
            t,
            ap (scanned (touch_subscriptions db slugs)) f
                ∙ (scanned-updated db slugs t row ∙ ap (at_time t) same),
            rw kept (lt h),
          )
    ]
