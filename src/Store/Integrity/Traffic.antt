-- ===== src/Store/Integrity/Traffic.antt =====
-- internal/store/traffic.go: the ledger keeps the constraints of the tables.
use olcrtc_panel_lite.Common.{
  ℕ, ◌≡◌, ◌≢◌, refl, ap, ◌∙◌, Bool, true, false, not, ◌&&◌, ◌||◌, List, [], ◌∷◌, ◌==◌,
  if◌then◌else◌, any, map, All, All-mono, Bool-cases, Option-cases, if_true, if_false, inl, inr,
  slt, arith,
}
use olcrtc_panel_lite.Text.{text_eq, is_empty}
use olcrtc_panel_lite.Model.{Instance, TrafficCounter, Time}
use olcrtc_panel_lite.Store.Rows.{Unique}
use olcrtc_panel_lite.Store.Keys.{All-of_any-false, ≢-of_text_eq}
use olcrtc_panel_lite.Store.Db.{Db}
use olcrtc_panel_lite.Store.Instances.{has_id}
use olcrtc_panel_lite.Store.Traffic.{
  Tables, Database, Report, event_of, counter_of, update_where, add_to_counter, is_recorded,
  record_event, apply_traffic_event, zeroed, reset_traffic,
}
use olcrtc_panel_lite.Store.Statements.{tables_of, with_tables}
use olcrtc_panel_lite.Store.Integrity.Tables.{CounterKeys, EventKeys, Integrity}

-- UPDATE keeps what the rows were, where it keeps their instance
All-update_where :
    (P : ℕ → Type 0) (id : ℕ) (f : TrafficCounter → TrafficCounter) (cs : List TrafficCounter)
    → ((c : TrafficCounter) → (f c).instance_id ≡ c.instance_id)
    → All (λ c. P c.instance_id) cs
    → All (λ c. P c.instance_id) (update_where id f cs)
unfolding update_where
All-update_where P id f [] same h = tt
All-update_where P id f (c ∷ cs) same h = (
  elim (Bool-cases (c.instance_id == id)) [
    | inl e ↦ rw (if_true _ (f c) c e) (rw (same c) h.0)
    | inr e ↦ rw (if_false _ (f c) c e) h.0
  ],
  All-update_where P id f cs same h.1,
)

same_instance :
    (id : ℕ) (f : TrafficCounter → TrafficCounter) (c : TrafficCounter)
    → ((d : TrafficCounter) → (f d).instance_id ≡ d.instance_id)
    → (if c.instance_id == id then f c else c).instance_id ≡ c.instance_id
same_instance id f c same = elim (Bool-cases (c.instance_id == id)) [
  | inl e ↦ ap (λ (d : TrafficCounter). d.instance_id) (if_true _ (f c) c e) ∙ same c
  | inr e ↦ ap (λ (d : TrafficCounter). d.instance_id) (if_false _ (f c) c e)
]

Unique-update_where :
    (id : ℕ) (f : TrafficCounter → TrafficCounter) (cs : List TrafficCounter)
    → ((c : TrafficCounter) → (f c).instance_id ≡ c.instance_id)
    → Unique (λ c. c.instance_id) cs
    → Unique (λ c. c.instance_id) (update_where id f cs)
unfolding update_where
Unique-update_where id f [] same h = tt
Unique-update_where id f (c ∷ cs) same h = (
  rw (same_instance id f c same) (All-update_where (λ n. n ≢ c.instance_id) id f cs same h.0),
  Unique-update_where id f cs same h.1,
)

update_where-CounterKeys :
    (instances : List Instance) (id : ℕ) (f : TrafficCounter → TrafficCounter)
    (cs : List TrafficCounter)
    → ((c : TrafficCounter) → (f c).instance_id ≡ c.instance_id)
    → CounterKeys instances cs
    → CounterKeys instances (update_where id f cs)
update_where-CounterKeys instances id f cs same k = record {
  counted = Unique-update_where id f cs same k.counted;
  counts = All-update_where (λ n. any (has_id n) instances ≡ true) id f cs same k.counts;
}

-- the identifiers of the instances hold those that the rows have
identified :
    (rows : List Instance) (id : ℕ)
    → any (λ i. i == id) (map (λ (row : Instance). row.id) rows) ≡ any (has_id id) rows
identified [] id = refl
identified (row ∷ rows) id = ap (λ b. (row.id == id) || b) (identified rows id)

with_ledger :
    (db : Db) (tables : Tables)
    → CounterKeys db.instances tables.counters
    → EventKeys db.instances tables.events
    → Integrity db
    → Integrity (with_tables db tables)
unfolding with_tables
with_ledger db tables counters events i = record {
  enforced = i.enforced;
  instance_keys = i.instance_keys;
  counter_keys = counters;
  event_keys = events;
  subscription_keys = i.subscription_keys;
  entry_keys = i.entry_keys;
}

recorded-Integrity :
    (sqlite : Database) (db : Db) (r : Report) (now : Time)
    → is_recorded (tables_of db) r.cursor ≡ false
    → any (has_id r.instance_id) db.instances ≡ true
    → Integrity db
    → Integrity (with_tables db (record_event sqlite (tables_of db) (event_of sqlite r) now))
unfolding record_event event_of is_recorded tables_of add_to_counter
recorded-Integrity sqlite db r now fresh there i =
    with_ledger db _
      (update_where-CounterKeys db.instances r.instance_id _ db.counters (λ c. refl) i.counter_keys)
      (record {
        cursors = (
          All-mono db.events (λ e k. ≢-of_text_eq _ _ k)
              (All-of_any-false (λ e. text_eq e.cursor r.cursor) db.events fresh),
          i.event_keys.cursors,
        );
        sources = (there, i.event_keys.sources);
      })
      i

kept_tables : (db : Db) → Integrity db → Integrity (with_tables db (tables_of db))
unfolding with_tables tables_of
kept_tables db i = i

there_if_enforced :
    (enforced b c : Bool) → enforced ≡ true → b ≡ c → (enforced && not b) ≡ false → c ≡ true
there_if_enforced enforced b c e same h = ground arith

pub apply_traffic_event-Integrity :
    (sqlite : Database) (db : Db) (r : Report) (now : Time)
    → Integrity db
    → Integrity (with_tables db ((apply_traffic_event sqlite (tables_of db) r now).0))
unfolding apply_traffic_event
apply_traffic_event-Integrity sqlite db r now i =
    elim (Bool-cases (is_empty r.cursor || slt r.upload 0 || slt r.download 0)) [
      | inl e ↦ rw e (kept_tables db i)
      | inr e ↦ rw e (elim (Bool-cases (is_recorded (tables_of db) r.cursor)) [
        | inl f ↦ rw f (kept_tables db i)
        | inr f ↦
            rw f
              (elim (Bool-cases (
                (tables_of db).foreign_keys
                && not (any (λ i. i == r.instance_id) (tables_of db).instances))) [
                  | inl g ↦ rw g (kept_tables db i)
                  | inr g ↦ rw g (
                      recorded-Integrity sqlite db r now f
                        (there_if_enforced db.foreign_keys _ _ i.enforced
                          (identified db.instances r.instance_id) (unfold tables_of in g))
                        i)
                ])
      ])
    ]

pub reset_traffic-Integrity :
    (db : Db) (id : ℕ) (at : Time)
    → Integrity db
    → Integrity (with_tables db ((reset_traffic (tables_of db) id at).0))
unfolding reset_traffic zeroed
reset_traffic-Integrity db id at i = elim (Option-cases (counter_of (tables_of db).counters id)) [
  | inl e ↦ rw (e, reset_traffic) (kept_tables db i)
  | inr (c, e) ↦
      rw (e, reset_traffic)
        (with_ledger db _
          (unfold tables_of in
            update_where-CounterKeys db.instances id _ db.counters (λ d. refl) i.counter_keys)
          (unfold tables_of in i.event_keys) i)
]
