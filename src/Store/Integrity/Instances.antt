-- ===== src/Store/Integrity/Instances.antt =====
-- internal/store/instances.go: the constraints of the tables are kept.
use olcrtc_panel_lite.Common.{
  ℕ, ◌≡◌, refl, ap, ◌∙◌, true, false, ◌==◌, any, All-mono, Bool-cases, if_true, if_false, inl, inr,
}
use olcrtc_panel_lite.Text.{Text, text_eq}
use olcrtc_panel_lite.Model.{Instance, Time}
use olcrtc_panel_lite.Store.Rows.{
  delete_rows, All-update_rows, All-delete_rows, delete_rows-All, Unique-delete_rows,
  Unique-update_rows, Unique-append_row,
}
use olcrtc_panel_lite.Store.Keys.{
  any-append_row_old, any-update_rows, Unique-set_key, All-both, ≢-of_text_eq, or_false,
}
use olcrtc_panel_lite.Store.Db.{Db, cascaded}
use olcrtc_panel_lite.Store.Instances.{
  has_id, written, fresh_row, new_counter, clashes, with_client_id, insert_instance,
  create_instance, clashes_elsewhere, set_instance, update_instance, is_linked_to, remove_instance,
  delete_instance,
}
use olcrtc_panel_lite.Store.Integrity.Tables.{Integrity}
use olcrtc_panel_lite.Store.Integrity.Kept.{
  Numbered-append_row, not_left, names_of_clashes, source_appended, counters_appended,
  source_updated, instance_left, source_left, elsewhere_apart,
}

insert_instance-Integrity :
    (db : Db) (item : Instance) (now : Time)
    → any (clashes item) db.instances ≡ false
    → Integrity db
    → Integrity (insert_instance db item now)
unfolding insert_instance fresh_row new_counter
insert_instance-Integrity db item now h i =
    let apart = names_of_clashes item db.instances h in
    let keys = i.instance_keys in
    record {
      instance_keys = record {
        numbered =
            Numbered-append_row (λ row. row.id) db.instances _ db.next_instance refl keys.numbered;
        names = Unique-append_row (λ row. row.name) db.instances _ apart.0 keys.names;
        client_ids =
            Unique-append_row (λ row. row.client_id) db.instances _ apart.1 keys.client_ids;
      };
      counter_keys =
          counters_appended db.instances _ db.counters _ db.next_instance refl refl keys.numbered
            i.counter_keys;
      event_keys = record {
        cursors = i.event_keys.cursors;
        sources =
            All-mono db.events (λ e k. any-append_row_old (has_id e.instance_id) db.instances _ k)
              i.event_keys.sources;
      };
      enforced = i.enforced;
      subscription_keys = i.subscription_keys;
      entry_keys = record {
        numbered = i.entry_keys.numbered;
        entries =
            All-mono db.entries
              (λ e k. record {
                one_source = k.one_source;
                source = source_appended db.instances _ e.source_instance_id k.source;
                owner = k.owner;
              })
              i.entry_keys.entries;
      };
    }

set_instance-Integrity :
    (db : Db) (item : Instance) (now : Time)
    → any (clashes_elsewhere item) db.instances ≡ false
    → Integrity db
    → Integrity (set_instance db item now)
unfolding set_instance written clashes
set_instance-Integrity db item now h i =
    let f : Instance → Instance = λ row. record (written item row) { updated_at = now } in
    let apart = elsewhere_apart item db.instances h in
    let keys = i.instance_keys in
    let same =
      λ (id : ℕ). any-update_rows (has_id id) (has_id item.id) f db.instances (λ row. refl) in
    record {
      instance_keys = record {
        numbered = (
          Unique-update_rows _ (has_id item.id) f db.instances (λ row. refl) keys.numbered.0,
          All-update_rows (has_id item.id) _ f db.instances (λ row e k. k) keys.numbered.1,
        );
        names =
            Unique-set_key (λ row. row.id) item.id (λ row. row.name) item.name f db.instances
              (λ row. refl)
              (All-mono db.instances (λ row k d. ≢-of_text_eq _ _ (not_left _ _ (k d))) apart)
              keys.numbered.0 keys.names;
        client_ids =
            Unique-set_key (λ row. row.id) item.id (λ row. row.client_id) item.client_id f
              db.instances (λ row. refl)
              (All-mono db.instances
                (λ row k d. ≢-of_text_eq _ _ (or_false (text_eq row.name item.name) _ (k d))) apart)
              keys.numbered.0 keys.client_ids;
      };
      counter_keys = record {
        counted = i.counter_keys.counted;
        counts = All-mono db.counters (λ c k. same c.instance_id ∙ k) i.counter_keys.counts;
      };
      event_keys = record {
        cursors = i.event_keys.cursors;
        sources = All-mono db.events (λ e k. same e.instance_id ∙ k) i.event_keys.sources;
      };
      enforced = i.enforced;
      subscription_keys = i.subscription_keys;
      entry_keys = record {
        numbered = i.entry_keys.numbered;
        entries =
            All-mono db.entries
              (λ e k. record {
                one_source = k.one_source;
                source = source_updated db.instances _ e.source_instance_id same k.source;
                owner = k.owner;
              })
              i.entry_keys.entries;
      };
    }

-- the tables behind the cascades
abbrev removed : Db → ℕ → Db
removed db id = record db {
  instances = delete_rows (has_id id) db.instances;
  counters = delete_rows (λ c. c.instance_id == id) db.counters;
  events = delete_rows (λ e. e.instance_id == id) db.events;
  entries = delete_rows (is_linked_to id) db.entries;
}

remove_instance_enforced :
    (db : Db) (id : ℕ) → db.foreign_keys ≡ true → remove_instance db id ≡ removed db id
unfolding remove_instance cascaded
remove_instance_enforced db id h =
    ap
      (λ on. record db {
        instances = delete_rows (has_id id) db.instances;
        counters = cascaded on (λ c. c.instance_id == id) db.counters;
        events = cascaded on (λ e. e.instance_id == id) db.events;
        entries = cascaded on (is_linked_to id) db.entries;
      })
      h

removed-Integrity : (db : Db) (id : ℕ) → Integrity db → Integrity (removed db id)
removed-Integrity db id i =
    let keys = i.instance_keys in
    let kept =
      All-both _ _ _ (All-delete_rows (is_linked_to id) _ db.entries i.entry_keys.entries) (
        delete_rows-All (is_linked_to id) (λ e. is_linked_to id e ≡ false) db.entries (λ e d. d)) in
    let counted =
      All-both _ _ _
        (All-delete_rows (λ c. c.instance_id == id) _ db.counters i.counter_keys.counts)
        (delete_rows-All (λ c. c.instance_id == id) (λ c. (c.instance_id == id) ≡ false) db.counters
          (λ c d. d)) in
    let recorded =
      All-both _ _ _ (All-delete_rows (λ e. e.instance_id == id) _ db.events i.event_keys.sources) (
        delete_rows-All (λ e. e.instance_id == id) (λ e. (e.instance_id == id) ≡ false) db.events
          (λ e d. d)) in
    record {
      enforced = i.enforced;
      event_keys = record {
        cursors = Unique-delete_rows _ (λ e. e.instance_id == id) db.events i.event_keys.cursors;
        sources = All-mono _ (λ e k. instance_left db.instances id e.instance_id k.1 k.0) recorded;
      };
      instance_keys = record {
        numbered = (
          Unique-delete_rows _ (has_id id) db.instances keys.numbered.0,
          All-delete_rows (has_id id) _ db.instances keys.numbered.1,
        );
        names = Unique-delete_rows _ (has_id id) db.instances keys.names;
        client_ids = Unique-delete_rows _ (has_id id) db.instances keys.client_ids;
      };
      counter_keys = record {
        counted =
            Unique-delete_rows _ (λ c. c.instance_id == id) db.counters i.counter_keys.counted;
        counts = All-mono _ (λ c k. instance_left db.instances id c.instance_id k.1 k.0) counted;
      };
      subscription_keys = i.subscription_keys;
      entry_keys = record {
        numbered = (
          Unique-delete_rows _ (is_linked_to id) db.entries i.entry_keys.numbered.0,
          All-delete_rows (is_linked_to id) _ db.entries i.entry_keys.numbered.1,
        );
        entries =
            All-mono _
              (λ e k. record {
                one_source = k.0.one_source;
                source = source_left db.instances id e k.1 k.0.source;
                owner = k.0.owner;
              })
              kept;
      };
    }

pub create_instance-Integrity :
    (db : Db) (uuid : Text) (item : Instance) (now : Time)
    → Integrity db
    → Integrity ((create_instance db uuid item now).0)
unfolding create_instance
create_instance-Integrity db uuid item now i =
    elim (Bool-cases (any (clashes (with_client_id uuid item)) db.instances)) [
      | inl e ↦ rw (if_true _ _ _ e) i
      | inr e ↦
          rw (if_false _ _ _ e) (insert_instance-Integrity db (with_client_id uuid item) now e i)
    ]

pub update_instance-Integrity :
    (db : Db) (item : Instance) (now : Time)
    → Integrity db
    → Integrity ((update_instance db item now).0)
unfolding update_instance
update_instance-Integrity db item now i = elim (Bool-cases (any (has_id item.id) db.instances)) [
  | inr e ↦ rw e i
  | inl e ↦ rw e (elim (Bool-cases (any (clashes_elsewhere item) db.instances)) [
    | inl d ↦ rw d i
    | inr d ↦ rw d (set_instance-Integrity db item now d i)
  ])
]

pub delete_instance-Integrity :
    (db : Db) (id : ℕ) → Integrity db → Integrity ((delete_instance db id).0)
unfolding delete_instance
delete_instance-Integrity db id i = elim (Bool-cases (any (has_id id) db.instances)) [
  | inl e ↦ rw e (rw (remove_instance_enforced db id i.enforced) (removed-Integrity db id i))
  | inr e ↦ rw e i
]
