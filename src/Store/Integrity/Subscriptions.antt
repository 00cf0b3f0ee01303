-- ===== src/Store/Integrity/Subscriptions.antt =====
-- internal/store/subscriptions.go: the operations on subscriptions keep the constraints of the tables.
use olcrtc_panel_lite.Common.{
  ℕ, ◌≡◌, refl, ap, ◌∙◌, Bool, true, false, List, [], ◌∷◌, ◌==◌, any, All, All-mono, Bool-cases,
  inl, inr,
}
use olcrtc_panel_lite.Text.{Text}
use olcrtc_panel_lite.Model.{Instance, Subscription, SubscriptionEntry, Time}
use olcrtc_panel_lite.Store.Rows.{
  All-update_rows, All-delete_rows, delete_rows-All, Unique-delete_rows, Unique-update_rows,
  Unique-append_row, update_rows, select_rows, delete_rows,
}
use olcrtc_panel_lite.Store.Keys.{
  All-of_any-false, any-append_row_old, any-update_rows, any-delete_rows_rest, All-both,
  ≢-of_text_eq,
}
use olcrtc_panel_lite.Store.Db.{cascaded, Db, SubscriptionRow}
use olcrtc_panel_lite.Store.Subscriptions.{
  has_slug, has_subscription_id, new_subscription, insert_subscription, create_subscription, edited,
  set_subscription, update_subscription, is_in, remove_subscription, delete_subscription, mirrored,
  set_subscription_mirror, touched, touch_rows, touch_subscriptions,
}
use olcrtc_panel_lite.Store.Integrity.Tables.{IsEntryOf, Integrity}
use olcrtc_panel_lite.Store.Integrity.Kept.{Numbered-append_row}

-- the entries refer to the subscriptions that they referred to
with_owners :
    (instances : List Instance) (before after : List SubscriptionRow)
    (entries : List SubscriptionEntry)
    → ((id : ℕ)
        → any (has_subscription_id id) before ≡ true
        → any (has_subscription_id id) after ≡ true)
    → All (IsEntryOf instances before) entries
    → All (IsEntryOf instances after) entries
with_owners instances before after entries kept h =
    All-mono entries
      (λ e k. record {
        one_source = k.one_source;
        source = k.source;
        owner = kept e.subscription_id k.owner;
      })
      h

-- an update of rows that leaves identifiers and slugs alone
update_rows-Integrity :
    (db : Db) (p : SubscriptionRow → Bool) (f : SubscriptionRow → SubscriptionRow)
    → ((row : SubscriptionRow) → (f row).subscription.id ≡ row.subscription.id)
    → ((row : SubscriptionRow) → (f row).subscription.slug ≡ row.subscription.slug)
    → Integrity db
    → Integrity (record db { subscriptions = update_rows p f db.subscriptions })
update_rows-Integrity db p f same_id same_slug i =
    let keys = i.subscription_keys in
    record {
      instance_keys = i.instance_keys;
      counter_keys = i.counter_keys;
      event_keys = i.event_keys;
      enforced = i.enforced;
      subscription_keys = record {
        numbered = (
          Unique-update_rows (λ row. row.subscription.id) p f db.subscriptions same_id
              keys.numbered.0,
          All-update_rows p _ f db.subscriptions (λ row e k. rw (same_id row) k) keys.numbered.1,
        );
        slugs =
            Unique-update_rows (λ row. row.subscription.slug) p f db.subscriptions same_slug
              keys.slugs;
      };
      entry_keys = record {
        numbered = i.entry_keys.numbered;
        entries =
            with_owners db.instances db.subscriptions _ db.entries
              (λ id k.
                any-update_rows (has_subscription_id id) p f db.subscriptions
                  (λ row. ap (λ n. n == id) (same_id row))
                ∙ k)
              i.entry_keys.entries;
      };
    }

insert_subscription-Integrity :
    (db : Db) (item : Subscription) (key : Text) (now : Time)
    → any (has_slug item.slug) db.subscriptions ≡ false
    → Integrity db
    → Integrity (insert_subscription db item key now)
unfolding insert_subscription new_subscription
insert_subscription-Integrity db item key now h i =
    let keys = i.subscription_keys in
    let rows = db.subscriptions in
    record {
      instance_keys = i.instance_keys;
      counter_keys = i.counter_keys;
      event_keys = i.event_keys;
      enforced = i.enforced;
      subscription_keys = record {
        numbered =
            Numbered-append_row (λ row. row.subscription.id) rows _ db.next_subscription refl
              keys.numbered;
        slugs =
            Unique-append_row (λ row. row.subscription.slug) rows _
              (All-mono rows (λ row e. ≢-of_text_eq _ _ e)
                (All-of_any-false (has_slug item.slug) rows h))
              keys.slugs;
      };
      entry_keys = record {
        numbered = i.entry_keys.numbered;
        entries =
            with_owners db.instances db.subscriptions _ db.entries
              (λ id k. any-append_row_old (has_subscription_id id) rows _ k) i.entry_keys.entries;
      };
    }

-- the tables behind the cascade
abbrev removed : Db → Text → Db
removed db slug = record db {
  subscriptions = delete_rows (has_slug slug) db.subscriptions;
  entries = delete_rows (is_in (select_rows (has_slug slug) db.subscriptions)) db.entries;
}

remove_subscription_enforced :
    (db : Db) (slug : Text) → db.foreign_keys ≡ true → remove_subscription db slug ≡ removed db slug
unfolding remove_subscription cascaded
remove_subscription_enforced db slug h =
    ap
      (λ on. record db {
        subscriptions = delete_rows (has_slug slug) db.subscriptions;
        entries = cascaded on (is_in (select_rows (has_slug slug) db.subscriptions)) db.entries;
      })
      h

removed-Integrity : (db : Db) (slug : Text) → Integrity db → Integrity (removed db slug)
unfolding is_in
removed-Integrity db slug i =
    let keys = i.subscription_keys in
    let rows = db.subscriptions in
    let gone = is_in (select_rows (has_slug slug) rows) in
    let kept =
      All-both _ _ _ (All-delete_rows gone _ db.entries i.entry_keys.entries)
        (delete_rows-All gone (λ e. gone e ≡ false) db.entries (λ e d. d)) in
    record {
      instance_keys = i.instance_keys;
      counter_keys = i.counter_keys;
      event_keys = i.event_keys;
      enforced = i.enforced;
      subscription_keys = record {
        numbered = (
          Unique-delete_rows _ (has_slug slug) rows keys.numbered.0,
          All-delete_rows (has_slug slug) _ rows keys.numbered.1,
        );
        slugs = Unique-delete_rows _ (has_slug slug) rows keys.slugs;
      };
      entry_keys = record {
        numbered = (
          Unique-delete_rows _ gone db.entries i.entry_keys.numbered.0,
          All-delete_rows gone _ db.entries i.entry_keys.numbered.1,
        );
        entries =
            All-mono _
              (λ e k. record {
                one_source = k.0.one_source;
                source = k.0.source;
                owner =
                    any-delete_rows_rest (has_subscription_id e.subscription_id) (has_slug slug)
                      rows k.0.owner k.1;
              })
              kept;
      };
    }

pub create_subscription-Integrity :
    (db : Db) (item : Subscription) (key : Text) (now : Time)
    → Integrity db
    → Integrity ((create_subscription db item key now).0)
unfolding create_subscription
create_subscription-Integrity db item key now i =
    elim (Bool-cases (any (has_slug item.slug) db.subscriptions)) [
      | inl e ↦ rw e i
      | inr e ↦ rw e (insert_subscription-Integrity db item key now e i)
    ]

pub update_subscription-Integrity :
    (db : Db) (item : Subscription) (now : Time)
    → Integrity db
    → Integrity ((update_subscription db item now).0)
unfolding update_subscription set_subscription edited
update_subscription-Integrity db item now i =
    elim (Bool-cases (any (has_slug item.slug) db.subscriptions)) [
      | inl e ↦ rw e (
          update_rows-Integrity db (has_slug item.slug) (edited item now) (λ row. refl)
            (λ row. refl) i)
      | inr e ↦ rw e i
    ]

pub delete_subscription-Integrity :
    (db : Db) (slug : Text) → Integrity db → Integrity ((delete_subscription db slug).0)
unfolding delete_subscription
delete_subscription-Integrity db slug i = elim (Bool-cases (any (has_slug slug) db.subscriptions)) [
  | inl e ↦
      rw e (rw (remove_subscription_enforced db slug i.enforced) (removed-Integrity db slug i))
  | inr e ↦ rw e i
]

pub set_subscription_mirror-Integrity :
    (db : Db) (id : ℕ) (url status : Text)
    → Integrity db
    → Integrity (set_subscription_mirror db id url status)
unfolding set_subscription_mirror mirrored
set_subscription_mirror-Integrity db id url status i =
    update_rows-Integrity db (has_subscription_id id) (mirrored url status) (λ row. refl)
      (λ row. refl) i

pub touch_subscriptions-Integrity :
    (db : Db) (slugs : List (Text × Time)) → Integrity db → Integrity (touch_subscriptions db slugs)
unfolding touch_subscriptions touch_rows touched
touch_subscriptions-Integrity db [] i = i
touch_subscriptions-Integrity db ((slug, now) ∷ slugs) i =
    touch_subscriptions-Integrity
      (record db { subscriptions = update_rows (has_slug slug) (touched now) db.subscriptions })
      slugs (update_rows-Integrity db (has_slug slug) (touched now) (λ row. refl) (λ row. refl) i)
