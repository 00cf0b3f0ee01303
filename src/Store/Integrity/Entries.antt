-- ===== src/Store/Integrity/Entries.antt =====
-- internal/store/subscriptions.go: the operations on entries keep the constraints of the tables.
use olcrtc_panel_lite.Common.{
  ℕ, suc, ◌≡◌, refl, sym, ◌∙◌, Bool, true, false, not, ◌&&◌, ◌||◌, Option, none, some, Option-cases,
  List, [], ◌∷◌, any, Bool-cases, if_true, if_false, inl, inr,
}
use olcrtc_panel_lite.Model.{Instance, SubscriptionEntry, Time}
use olcrtc_panel_lite.Store.Rows.{
  All-update_rows, All-delete_rows, Unique-delete_rows, Unique-update_rows, All-append_row,
  update_rows, delete_rows,
}
use olcrtc_panel_lite.Store.Db.{Db, SubscriptionRow}
use olcrtc_panel_lite.Store.Subscriptions.{has_subscription_id}
use olcrtc_panel_lite.Store.Entries.{
  has_entry_id, has_one_source, is_source, insert_entry_row, add_subscription_entry, edited_entry,
  set_entry, update_subscription_entry, is_entry, delete_subscription_entry, placed, reorder_from,
  reordered, reorder_subscription_entries,
}
use olcrtc_panel_lite.Store.Integrity.Tables.{IsEntryOf, EntryKeys, Integrity}
use olcrtc_panel_lite.Store.Integrity.Kept.{Numbered-append_row}

enforced_test : (enforced c : Bool) → enforced ≡ true → (enforced && c) ≡ c
enforced_test true c h = refl
enforced_test false c h = cc

with_entries :
    (db : Db) (entries : List SubscriptionEntry) (next : ℕ)
    → EntryKeys db.instances db.subscriptions entries next
    → Integrity db
    → Integrity (record db { entries = entries; next_entry = next })
with_entries db entries next keys i = record {
  instance_keys = i.instance_keys;
  counter_keys = i.counter_keys;
  event_keys = i.event_keys;
  enforced = i.enforced;
  subscription_keys = i.subscription_keys;
  entry_keys = keys;
}

-- an update that keeps the identifiers, and makes of an entry an entry
update_rows-EntryKeys :
    (instances : List Instance) (subscriptions : List SubscriptionRow)
    (p : SubscriptionEntry → Bool) (f : SubscriptionEntry → SubscriptionEntry)
    (rows : List SubscriptionEntry) (next : ℕ)
    → ((e : SubscriptionEntry) → (f e).id ≡ e.id)
    → ((e : SubscriptionEntry)
        → IsEntryOf instances subscriptions e
        → IsEntryOf instances subscriptions (f e))
    → EntryKeys instances subscriptions rows next
    → EntryKeys instances subscriptions (update_rows p f rows) next
update_rows-EntryKeys instances subscriptions p f rows next same keep k = record {
  numbered = (
    Unique-update_rows (λ e. e.id) p f rows same k.numbered.0,
    All-update_rows p _ f rows (λ e t h. rw (same e) h) k.numbered.1,
  );
  entries = All-update_rows p _ f rows (λ e t h. keep e h) k.entries;
}

pub add_subscription_entry-Integrity :
    (db : Db) (item : SubscriptionEntry) (now : Time)
    → Integrity db
    → Integrity ((add_subscription_entry db item now).0)
unfolding add_subscription_entry insert_entry_row has_one_source
add_subscription_entry-Integrity db item now i = elim (Bool-cases (has_one_source item)) [
  | inr e ↦ rw e i
  | inl e ↦
      rw
        (
          e,
          enforced_test db.foreign_keys
              (not (is_source db.instances item.source_instance_id)
                || not (any (has_subscription_id item.subscription_id) db.subscriptions))
              i.enforced,
        )
        (elim (Bool-cases (is_source db.instances item.source_instance_id)) [
          | inr d ↦ rw d i
          | inl d ↦
              rw d
                (elim (Bool-cases
                  (any (has_subscription_id item.subscription_id) db.subscriptions)) [
                    | inr c ↦ rw c i
                    | inl c ↦ rw c (
                        with_entries db _ (suc db.next_entry)
                          (record {
                            numbered =
                                Numbered-append_row (λ row. row.id) db.entries _ db.next_entry refl
                                  i.entry_keys.numbered;
                            entries =
                                All-append_row _ db.entries _ i.entry_keys.entries
                                  (record { one_source = e; source = d; owner = c });
                          })
                          i)
                  ])
        ])
]

pub update_subscription_entry-Integrity :
    (db : Db) (item : SubscriptionEntry) (now : Time)
    → Integrity db
    → Integrity ((update_subscription_entry db item now).0)
unfolding update_subscription_entry set_entry edited_entry has_one_source
update_subscription_entry-Integrity db item now i =
    elim (Bool-cases (any (has_entry_id item.id) db.entries)) [
      | inr c ↦ rw c i
      | inl c ↦ rw c (elim (Bool-cases (has_one_source item)) [
        | inr e ↦ rw e i
        | inl e ↦
            rw
              (
                e,
                enforced_test db.foreign_keys (not (is_source db.instances item.source_instance_id))
                    i.enforced,
              )
              (elim (Bool-cases (is_source db.instances item.source_instance_id)) [
                | inr d ↦ rw d i
                | inl d ↦ rw d (
                    with_entries db _ db.next_entry
                      (update_rows-EntryKeys db.instances db.subscriptions (has_entry_id item.id)
                        (edited_entry item now) db.entries db.next_entry (λ row. refl)
                        (λ row k. record { one_source = e; source = d; owner = k.owner })
                        i.entry_keys)
                      i)
              ])
      ])
    ]

pub delete_subscription_entry-Integrity :
    (db : Db) (subscription id : ℕ)
    → Integrity db
    → Integrity ((delete_subscription_entry db subscription id).0)
unfolding delete_subscription_entry
delete_subscription_entry-Integrity db subscription id i =
    let p = is_entry subscription id in
    let keys = i.entry_keys in
    elim (Bool-cases (any p db.entries)) [
      | inr e ↦ rw e i
      | inl e ↦ rw e (
          with_entries db (delete_rows p db.entries) db.next_entry
            (record {
              numbered = (
                Unique-delete_rows _ p db.entries keys.numbered.0,
                All-delete_rows p _ db.entries keys.numbered.1,
              );
              entries = All-delete_rows p _ db.entries keys.entries;
            })
            i)
    ]

reorder_from-EntryKeys :
    (instances : List Instance) (subscriptions : List SubscriptionRow) (subscription order : ℕ)
    (ids : List ℕ) (now : Time) (rows later : List SubscriptionEntry) (next : ℕ)
    → reorder_from subscription order ids now rows ≡ some later
    → EntryKeys instances subscriptions rows next
    → EntryKeys instances subscriptions later next
unfolding reorder_from placed has_one_source
reorder_from-EntryKeys instances subscriptions subscription order [] now rows later next e k =
    let same : rows ≡ later = cc in rw (← same) k
reorder_from-EntryKeys instances subscriptions subscription order (id ∷ ids) now rows later next e
      k =
    let moved = update_rows (is_entry subscription id) (placed order now) rows in
    elim (Bool-cases (any (is_entry subscription id) rows)) [
      | inl t ↦
          reorder_from-EntryKeys instances subscriptions subscription (suc order) ids now moved
            later next (sym (if_true _ _ _ t) ∙ e)
            (update_rows-EntryKeys instances subscriptions (is_entry subscription id)
              (placed order now) rows next (λ row. refl)
              (λ row h. record { one_source = h.one_source; source = h.source; owner = h.owner }) k)
      | inr t ↦
          let q : ◌≡◌ {A = Option (List SubscriptionEntry)} none (some later) =
            sym (if_false _ _ _ t) ∙ e in
          cc
    ]

pub reorder_subscription_entries-Integrity :
    (db : Db) (subscription : ℕ) (ids : List ℕ) (now : Time)
    → Integrity db
    → Integrity ((reorder_subscription_entries db subscription ids now).0)
unfolding reorder_subscription_entries reordered
reorder_subscription_entries-Integrity db subscription ids now i =
    elim (Option-cases (reorder_from subscription 0 ids now db.entries)) [
      | inl e ↦ rw e i
      | inr (later, e) ↦ rw e (
          with_entries db later db.next_entry
            (reorder_from-EntryKeys db.instances db.subscriptions subscription 0 ids now db.entries
              later db.next_entry e i.entry_keys)
            i)
    ]
