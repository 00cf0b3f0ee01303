-- ===== src/Store/Accounts.antt =====
-- internal/store/traffic.go: the counters against the ledger.
use olcrtc_panel_lite.Common.{
  ℕ, ◌+◌, ◌<◌, ◌≡◌, ◌≢◌, refl, sym, ap, ◌∙◌, true, false, not, ◌&&◌, ◌||◌, Option, some, List, [],
  ◌∷◌, ◌++◌, ◌==◌, if◌then◌else◌, any, add64, slt, ok, Bool-cases, inl, inr, arith, two_63, if_true,
  if_false,
}
use olcrtc_panel_lite.Text.{text_eq, is_empty}
use olcrtc_panel_lite.Text.Equality.{text_eq_refl}
use olcrtc_panel_lite.Model.{Time, TrafficCounter}
use olcrtc_panel_lite.Store.Traffic.{
  Event, Tables, Database, counter_of, update_where, add_to_counter, is_recorded, record_event,
  Report, event_of, apply_traffic_event, zeroed, reset_traffic,
}

-- the bytes of an instance in a part of the ledger
abbrev pub uploads : ℕ → List Event → ℕ
uploads id [] = 0
uploads id (e ∷ es) = (if e.instance_id == id then e.upload_bytes else 0) + uploads id es

abbrev pub downloads : ℕ → List Event → ℕ
downloads id [] = 0
downloads id (e ∷ es) = (if e.instance_id == id then e.download_bytes else 0) + downloads id es

-- the counter of an instance shows the sums of the events that follow `old` in the ledger
pub data Period (old : List Event) (tables : Tables) (id : ℕ) : Type 0 where
  period :
      (new : List Event) (c : TrafficCounter)
      → tables.events ≡ new ++ old
      → counter_of tables.counters id ≡ some c
      → c.upload_bytes ≡ uploads id new
      → c.download_bytes ≡ downloads id new
      → c.total_bytes ≡ uploads id new + downloads id new
      → Period old tables id

-- SQLite's sum is exact as long as it stays below 2 ^ 63
unfoldable pub IsExact : Database → Type 0
IsExact db = (a b : ℕ) → a + b < two_63 → db.plus a b ≡ a + b

counter_of-update_where :
    (id : ℕ) (f : TrafficCounter → TrafficCounter) (cs : List TrafficCounter) (c : TrafficCounter)
    → ((d : TrafficCounter) → (f d).instance_id ≡ d.instance_id)
    → counter_of cs id ≡ some c
    → counter_of (update_where id f cs) id ≡ some (f c)
unfolding counter_of update_where
counter_of-update_where id f [] c k h = cc
counter_of-update_where id f (d ∷ cs) c k h = elim (Bool-cases (d.instance_id == id)) [
  | inl e ↦
      let g : ((f d).instance_id == id) ≡ true = rw (k d) e in
      let q : ◌≡◌ {A = Option TrafficCounter} (some d) (some c) = sym (if_true _ _ _ e) ∙ h in
      let r : d ≡ c = cc in
      ap (λ x. if x.instance_id == id then some x else counter_of (update_where id f cs) id)
        (if_true _ _ _ e)
      ∙ (if_true _ _ _ g ∙ ap (λ x. some (f x)) r)
  | inr e ↦
      ap (λ x. if x.instance_id == id then some x else counter_of (update_where id f cs) id)
        (if_false _ _ _ e)
      ∙ (if_false _ _ _ e ∙ counter_of-update_where id f cs c k (sym (if_false _ _ _ e) ∙ h))
]

-- a row of another instance stays
counter_of-other :
    (id other : ℕ) (f : TrafficCounter → TrafficCounter) (cs : List TrafficCounter)
    → ((d : TrafficCounter) → (f d).instance_id ≡ d.instance_id)
    → other ≢ id
    → counter_of (update_where id f cs) other ≡ counter_of cs other
unfolding counter_of update_where
counter_of-other id other f [] k ne = refl
counter_of-other id other f (d ∷ cs) k ne = elim (Bool-cases (d.instance_id == id)) [
  | inl e ↦
      let g : (d.instance_id == other) ≡ false = ground arith in
      let g' : ((f d).instance_id == other) ≡ false = rw (k d) g in
      ap (λ x. if x.instance_id == other then some x else counter_of (update_where id f cs) other)
        (if_true _ _ _ e)
      ∙ (if_false _ _ _ g' ∙ (counter_of-other id other f cs k ne ∙ sym (if_false _ _ _ g)))
  | inr e ↦
      ap (λ x. if x.instance_id == other then some x else counter_of (update_where id f cs) other)
        (if_false _ _ _ e)
      ∙ ap (λ o. if d.instance_id == other then some d else o) (counter_of-other id other f cs k ne)
]

-- the counter of the event's instance has room for it
pub record Room (tables : Tables) (id : ℕ) (c : TrafficCounter) (r : Report) : Type 0 where
  pub counter : counter_of tables.counters id ≡ some c
  pub total : c.upload_bytes + c.download_bytes + (r.upload + r.download) < two_63

record_event-Period :
    (db : Database) (old : List Event) (tables : Tables) (id : ℕ) (c : TrafficCounter) (r : Report)
    (now : Time)
    → IsExact db
    → Room tables id c r
    → Period old tables id
    → Period old (record_event db tables (event_of db r) now) id
unfolding record_event event_of add_to_counter IsExact
record_event-Period db old tables id c r now exact room (period new d ev cd up down total) =
    let same : ◌≡◌ {A = Option TrafficCounter} (some c) (some d) = sym room.counter ∙ cd in
    let s : c ≡ d = cc in
    let su : c.upload_bytes ≡ d.upload_bytes = ap (λ x. x.upload_bytes) s in
    let sd : c.download_bytes ≡ d.download_bytes = ap (λ x. x.download_bytes) s in
    let rt = room.total in
    let f = add_to_counter db r.upload r.download r.event_at now in
    elim (Bool-cases (r.instance_id == id)) [
      | inl e ↦
          let same_id : r.instance_id ≡ id = ground arith in
          period (event_of db r ∷ new) (f d) (ap (λ l. event_of db r ∷ l) ev)
            (rw same_id (counter_of-update_where id f tables.counters d (λ x. refl) cd))
            (rw e (exact d.upload_bytes r.upload (omega arith) ∙ omega arith))
            (rw e (exact d.download_bytes r.download (omega arith) ∙ omega arith))
            (rw e (
              let a : add64 r.upload r.download ≡ r.upload + r.download = omega arith in
              rw a (exact d.total_bytes (r.upload + r.download) (omega arith) ∙ omega arith)))
      | inr e ↦
          let ne : id ≢ r.instance_id = ground arith in
          period (event_of db r ∷ new) d (ap (λ l. event_of db r ∷ l) ev)
            (counter_of-other r.instance_id id f tables.counters (λ x. refl) ne ∙ cd)
            (rw e (omega arith)) (rw e (omega arith)) (rw e (omega arith))
    ]

-- Where SQLite's sum is exact below 2 ^ 63, the counter shows the sums of its period and has room for
-- the reported bytes below that bound, the counter shows after ApplyTrafficEvent, accepted, repeated
-- or refused, the sums of exactly the events that the ledger has recorded since its period began.
pub apply_traffic_event-Period :
    (db : Database) (old : List Event) (tables : Tables) (id : ℕ) (c : TrafficCounter) (r : Report)
    (now : Time)
    → IsExact db
    → Room tables id c r
    → Period old tables id
    → Period old ((apply_traffic_event db tables r now).0) id
unfolding apply_traffic_event
apply_traffic_event-Period db old tables id c r now exact room p =
    elim (Bool-cases (is_empty r.cursor || slt r.upload 0 || slt r.download 0)) [
      | inl e ↦ rw e p
      | inr e ↦ rw e (elim (Bool-cases (is_recorded tables r.cursor)) [
        | inl f ↦ rw f p
        | inr f ↦
            rw f
              (elim (Bool-cases
                (tables.foreign_keys && not (any (λ i. i == r.instance_id) tables.instances))) [
                  | inl g ↦ rw g p
                  | inr g ↦ rw g (record_event-Period db old tables id c r now exact room p)
                ])
      ])
    ]

-- an event that was just recorded is found
recorded :
    (db : Database) (tables : Tables) (r : Report) (now : Time)
    → is_recorded (record_event db tables (event_of db r) now) r.cursor ≡ true
unfolding is_recorded record_event event_of
recorded db tables r now = let t : text_eq r.cursor r.cursor ≡ true = text_eq_refl r.cursor in rw t

-- A second report under the cursor of a recorded event, with amounts that are not negative, changes
-- neither the ledger nor a counter and is answered with false, whatever else it says.
pub apply_traffic_event_once :
    (db : Database) (tables : Tables) (first again : Report) (now later : Time)
    → (apply_traffic_event db tables first now).1 ≡ ok true
    → again.cursor ≡ first.cursor
    → (slt again.upload 0 || slt again.download 0) ≡ false
    → apply_traffic_event db ((apply_traffic_event db tables first now).0) again later
      ≡ ((apply_traffic_event db tables first now).0, ok false)
unfolding apply_traffic_event
apply_traffic_event_once db tables first again now later h same pos =
    elim (Bool-cases (is_empty first.cursor || slt first.upload 0 || slt first.download 0)) [
      | inl e ↦ absurd (ground arith)
      | inr e ↦ elim (Bool-cases (is_recorded tables first.cursor)) [
        | inl f ↦ absurd (ground arith)
        | inr f ↦
            elim (Bool-cases
              (tables.foreign_keys && not (any (λ i. i == first.instance_id) tables.instances))) [
                | inl g ↦ absurd (ground arith)
                | inr g ↦
                    let full : is_empty again.cursor ≡ false = rw same (ground arith) in
                    let clean : (is_empty again.cursor
                          || slt again.upload 0
                          || slt again.download 0)
                        ≡ false =
                      ground arith in
                    let seen : is_recorded (record_event db tables (event_of db first) now)
                          again.cursor
                        ≡ true =
                      rw same (recorded db tables first now) in
                    rw e (rw f (rw g (rw clean (rw seen))))
              ]
      ]
    ]

-- ResetTraffic on an instance with a counter begins a new period behind all recorded events, which
-- it leaves in the ledger.
pub reset_traffic-Period :
    (tables : Tables) (id : ℕ) (at : Time) (c : TrafficCounter)
    → counter_of tables.counters id ≡ some c
    → ((reset_traffic tables id at).0.events ≡ tables.events)
      × Period tables.events ((reset_traffic tables id at).0) id
unfolding reset_traffic
reset_traffic-Period tables id at c h = (
  rw (h, reset_traffic),
  rw (h, reset_traffic)
      (period [] (zeroed at c) refl
        (counter_of-update_where id (zeroed at) tables.counters c (λ x. unfold zeroed in refl) h)
        (unfold zeroed in refl) (unfold zeroed in refl) (unfold zeroed in refl)),
)
