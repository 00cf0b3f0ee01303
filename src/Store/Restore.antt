-- ===== src/Store/Restore.antt =====
-- internal/store/instances.go: an update of a row that is followed by an update with what was read
-- before.
use olcrtc_panel_lite.Common.{
  ℕ, ◌≡◌, ◌≢◌, refl, sym, ap, ◌∙◌, Bool, true, false, not, ◌||◌, Option, none, some, List, [], ◌∷◌,
  ◌==◌, ==_iff, if◌then◌else◌, any, Result, ok, err, All, All-mono, Bool-cases, Option-cases,
  if_true, if_false, inl, inr, ok-injective,
}
use olcrtc_panel_lite.Text.{Text, text_eq}
use olcrtc_panel_lite.Text.Equality.{text_eq-cases}
use olcrtc_panel_lite.Model.{Instance, Time, TrafficCounter}
use olcrtc_panel_lite.Store.Rows.{
  find_row, update_rows, All-update_rows, find_row-All, find_row-test, Unique,
}
use olcrtc_panel_lite.Store.Keys.{All-both, any-update_rows}
use olcrtc_panel_lite.Store.Found.{any_of_find_row}
use olcrtc_panel_lite.Store.Traffic.{counter_of}
use olcrtc_panel_lite.Store.Db.{Db, StoreError, no_rows}
use olcrtc_panel_lite.Store.Instances.{
  has_id, written, joined, scan_instance, found_instance, instance, clashes, clashes_elsewhere,
  set_instance, update_instance,
}
use olcrtc_panel_lite.Store.Integrity.Tables.{InstanceKeys}

module _ {A : Type 0} where
  -- no row that a search passes over shares a unique key with the row that it finds
  find_row-apart :
      {K : Type 0} (key : A → K) (p : A → Bool) (rows : List A) (row : A)
      → Unique key rows
      → find_row p rows ≡ some row
      → All (λ a. p a ≡ false → key a ≢ key row) rows
  unfolding find_row
  find_row-apart key p [] row u e = tt
  find_row-apart key p (a ∷ rows) row u e = elim (Bool-cases (p a)) [
    | inl t ↦
        let q : ◌≡◌ {A = Option A} (some a) (some row) = sym (if_true (p a) _ _ t) ∙ e in
        let r : a ≡ row = cc in
        (
          (λ f. let s : true ≡ false = sym t ∙ f in cc),
          All-mono rows (λ b ne f same. ne (same ∙ ap key (sym r))) u.0,
        )
    | inr t ↦
        let found = sym (if_false (p a) _ _ t) ∙ e in
        (
          (λ f same. find_row-All p (λ b. key b ≢ key a) rows row u.0 found (sym same)),
          find_row-apart key p rows row u.1 found,
        )
  ]

  -- the row of a unique number is the only one
  find_row-only :
      (key : A → ℕ) (k : ℕ) (rows : List A) (row : A)
      → Unique key rows
      → find_row (λ a. key a == k) rows ≡ some row
      → All (λ a. (key a == k) ≡ true → a ≡ row) rows
  unfolding find_row
  find_row-only key k [] row u e = tt
  find_row-only key k (a ∷ rows) row u e = elim (Bool-cases (key a == k)) [
    | inl t ↦
        let q : ◌≡◌ {A = Option A} (some a) (some row) = sym (if_true (key a == k) _ _ t) ∙ e in
        let r : a ≡ row = cc in
        (
          (λ h. r),
          All-mono rows
              (λ b ne h. absurd (ne ((==_iff (key b) k).0 h ∙ sym ((==_iff (key a) k).0 t)))) u.0,
        )
    | inr t ↦ (
      (λ h. let s : true ≡ false = sym h ∙ t in cc),
      find_row-only key k rows row u.1 (sym (if_false (key a == k) _ _ t) ∙ e),
    )
  ]

  update_rows-twice :
      (p : A → Bool) (f g h : A → A) (rows : List A)
      → All (λ a. p a ≡ true → (p (f a) ≡ true) × (g (f a) ≡ h a)) rows
      → update_rows p g (update_rows p f rows) ≡ update_rows p h rows
  unfolding update_rows
  update_rows-twice p f g h [] k = refl
  update_rows-twice p f g h (a ∷ rows) k =
      let rest = update_rows-twice p f g h rows k.1 in
      let head : (if p (if p a then f a else a)
            then g (if p a then f a else a)
            else (if p a then f a else a))
          ≡ (if p a then h a else a) =
        elim (Bool-cases (p a)) [
          | inl t ↦
              rw (if_true (p a) (f a) a t)
                (if_true _ _ _ ((k.0 t).0) ∙ ((k.0 t).1 ∙ sym (if_true (p a) (h a) a t)))
          | inr t ↦
              rw (if_false (p a) (f a) a t) (if_false _ _ _ t ∙ sym (if_false (p a) (h a) a t))
        ] in
      ap (λ x. x ∷ update_rows p g (update_rows p f rows)) head
      ∙ ap (λ l. (if p a then h a else a) ∷ l) rest

  any-false_of_All :
      (p : A → Bool) (rows : List A) → All (λ a. p a ≡ false) rows → any p rows ≡ false
  any-false_of_All p [] h = refl
  any-false_of_All p (a ∷ rows) h = ap (λ b. b || any p rows) h.0 ∙ any-false_of_All p rows h.1

-- the row of an identifier with another time of update
abbrev pub stamped : Db → ℕ → Time → Db
stamped db id t = record db {
  instances = update_rows (has_id id) (λ row. record row { updated_at = t }) db.instances;
}

-- the columns that are written back are those of the row
written_joined :
    (row item : Instance) (o : Option TrafficCounter) (t t2 : Time)
    → record (written (joined row o) (record (written item row) { updated_at = t })) {
      updated_at = t2;
    }
      ≡ record row { updated_at = t2 }
unfolding written joined
written_joined row item none t t2 = refl
written_joined row item (some c) t t2 = refl

pub joined-keys :
    (row : Instance) (o : Option TrafficCounter)
    → ((joined row o).id ≡ row.id)
      × ((joined row o).name ≡ row.name)
      × ((joined row o).client_id ≡ row.client_id)
unfolding joined
joined-keys row none = (refl, refl, refl)
joined-keys row (some c) = (refl, refl, refl)

instance-none :
    (db : Db) (id : ℕ) → find_row (has_id id) db.instances ≡ none → instance db id ≡ err no_rows
unfolding instance found_instance
instance-none db id e = ap (found_instance db) e

instance-some :
    (db : Db) (id : ℕ) (row : Instance)
    → find_row (has_id id) db.instances ≡ some row
    → instance db id ≡ ok (joined row (counter_of db.counters row.id))
unfolding instance found_instance scan_instance
instance-some db id row e = ap (found_instance db) e

text_differs : (s t : Text) → s ≢ t → text_eq s t ≡ false
text_differs s t h = elim (text_eq-cases s t) [ inl e ↦ absurd (h e) | inr e ↦ e ]

-- the row that an instance was read from
pub row_of_instance :
    (db : Db) (id : ℕ) (old : Instance)
    → instance db id ≡ ok old
    → (row : Instance) × (find_row (has_id id) db.instances ≡ some row)
      × (joined row (counter_of db.counters row.id) ≡ old)
unfolding instance scan_instance
row_of_instance db id old e = elim (Option-cases (find_row (has_id id) db.instances)) [
  | inl n ↦
      let q : ◌≡◌ {A = Result StoreError Instance} (err no_rows) (ok old) =
        sym (instance-none db id n) ∙ e in
      cc
  | inr (row, f) ↦ (row, f, ok-injective (sym (instance-some db id row f) ∙ e))
]

-- nothing stands in the way of writing back what was read
no_clash :
    (db : Db) (id : ℕ) (old row : Instance)
    → InstanceKeys db.instances db.next_instance
    → find_row (has_id id) db.instances ≡ some row
    → old.id ≡ id
    → old.name ≡ row.name
    → old.client_id ≡ row.client_id
    → All (λ a. clashes_elsewhere old a ≡ false) db.instances
unfolding clashes_elsewhere clashes
no_clash db id old row keys found same_id same_name same_client =
    All-mono db.instances
      (λ a k. elim (Bool-cases (a.id == id)) [
        | inl t ↦ rw same_id (rw t refl)
        | inr t ↦ rw same_id (
            rw t (
              rw (same_name, same_client)
                (rw
                  (
                    text_differs a.name row.name (k.0 t),
                    text_differs a.client_id row.client_id (k.1 t),
                  )
                  refl)))
      ])
      (All-both _ _ db.instances
        (find_row-apart (λ a. a.name) (has_id id) db.instances row keys.names found)
        (find_row-apart (λ a. a.client_id) (has_id id) db.instances row keys.client_ids found))

module _ (db : Db) (item old : Instance) (t t2 : Time) (row : Instance)
    (keys : InstanceKeys db.instances db.next_instance)
    (found : find_row (has_id item.id) db.instances ≡ some row)
    (same : joined row (counter_of db.counters row.id) ≡ old) where
  row_id : row.id ≡ item.id
  row_id = (==_iff row.id item.id).0 (find_row-test (has_id item.id) db.instances row found)

  old_id : old.id ≡ item.id
  old_id =
      ap (λ a. a.id) (sym same) ∙ ((joined-keys row (counter_of db.counters row.id)).0 ∙ row_id)

  still_there : any (has_id old.id) (set_instance db item t).instances ≡ true
  unfolding set_instance written
  still_there =
      any-update_rows (has_id old.id) (has_id item.id) _ db.instances (λ a. refl)
      ∙ rw old_id (any_of_find_row (has_id item.id) db.instances row found)

  in_the_way : any (clashes_elsewhere old) (set_instance db item t).instances ≡ false
  unfolding set_instance written clashes_elsewhere
  in_the_way =
      let names = joined-keys row (counter_of db.counters row.id) in
      any-false_of_All (clashes_elsewhere old) _ (
        All-update_rows (has_id item.id) (λ a. clashes_elsewhere old a ≡ false) _ db.instances
          (λ a h k. rw old_id (rw h refl))
          (no_clash db item.id old row keys found old_id (ap (λ a. a.name) (sym same) ∙ names.1)
            (ap (λ a. a.client_id) (sym same) ∙ names.2)))

  back :
      (a : Instance)
      → a ≡ row
      → record (written old (record (written item a) { updated_at = t })) { updated_at = t2 }
        ≡ record a { updated_at = t2 }
  back a e = rw e (rw (← same) (written_joined row item (counter_of db.counters row.id) t t2))

  twice : set_instance (set_instance db item t) old t2 ≡ stamped db item.id t2
  unfolding set_instance written
  twice =
      let only = find_row-only (λ a. a.id) item.id db.instances row keys.numbered.0 found in
      ap (λ rows. record db { instances = rows })
        (rw old_id (
          update_rows-twice (has_id item.id) _ _ _ db.instances
            (All-mono db.instances (λ a k h. (h, back a (k h))) only)))

-- An update of the row of an instance, followed by an update with what was read before it, leaves the
-- tables as they were but for the time of update.
pub update_instance_restores :
    (db : Db) (item old : Instance) (t t2 : Time)
    → InstanceKeys db.instances db.next_instance
    → instance db item.id ≡ ok old
    → (update_instance (set_instance db item t) old t2).0 ≡ stamped db item.id t2
unfolding update_instance
update_instance_restores db item old t t2 keys e =
    let (row, found, same) = row_of_instance db item.id old e in
    ap (λ (r : Db × Result StoreError Instance). r.0)
      (if_false _ _ _ (ap not (still_there db item old t t2 row keys found same))
        ∙ if_false _ _ _ (in_the_way db item old t t2 row keys found same))
    ∙ twice db item old t t2 row keys found same
