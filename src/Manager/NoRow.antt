-- ===== src/Manager/NoRow.antt =====
-- internal/instance/manager.go: the calls of Create that leave the database alone, and DeleteInstance
-- behind CreateInstance.
use olcrtc_panel_lite.Common.{
  ℕ, suc, ◌<◌, ◌≡◌, refl, ap, ◌∙◌, Bool, true, false, List, [], ◌∷◌, ◌==◌, ==_iff, if◌then◌else◌,
  any, Result, ok, err, All, Bool-cases, if_true, if_false, inl, inr, arith, ◌⊎◌,
}
use olcrtc_panel_lite.Text.{Text}
use olcrtc_panel_lite.Model.{Instance, Time}
use olcrtc_panel_lite.Store.Rows.{append_row, delete_rows}
use olcrtc_panel_lite.Store.Keys.{any-append_row_new}
use olcrtc_panel_lite.Store.Db.{Db, StoreError, not_unique}
use olcrtc_panel_lite.Store.Instances.{
  has_id, fresh_row, clashes, with_client_id, insert_instance, create_instance, found_instance,
  instance, remove_instance, delete_instance,
}
use olcrtc_panel_lite.Manager.World.{
  World, Host, Manager, ManagerError, Action, then_on, kept, given, unless, ◌>>=◌, ◌>>◌, return,
  disk_failed,
}
use olcrtc_panel_lite.Manager.Files.{
  disk, must, put_file, drop_file, replace_file, rename_file, atomic_write, remove_all,
  write_config, write_instance_files, instance_path, runtime_path,
}
use olcrtc_panel_lite.Manager.Units.{commit, store_delete}
use olcrtc_panel_lite.Manager.Update.{new_key}
use olcrtc_panel_lite.Manager.Lifecycle.{undo_create, created_or_undone}
use olcrtc_panel_lite.Manager.Reliable.{IsReliable, at_tick, pair_with, statement_works, commit-db}
use olcrtc_panel_lite.Manager.Atomic.{instance-id}
use olcrtc_panel_lite.Store.Found.{find_row_of_any}

-- the tables are left alone
abbrev pub KeepsDb : {A : Type 0} → Action A → Type 0
KeepsDb call = (w : World) → (call w).0.db ≡ w.db

pub then_on-db :
    {A B : Type 0} (o : World × Result ManagerError A) (next : A → Action B) (db : Db)
    → o.0.db ≡ db
    → ((a : A) → KeepsDb (next a))
    → (then_on o next).0.db ≡ db
unfolding then_on
then_on-db (v, err e) next db h k = h
then_on-db (v, ok a) next db h k = k a v ∙ h

pub bind-KeepsDb :
    {A B : Type 0} (call : Action A) (next : A → Action B)
    → KeepsDb call
    → ((a : A) → KeepsDb (next a))
    → KeepsDb (call >>= next)
bind-KeepsDb call next h k w = then_on-db (call w) next w.db (h w) k

pub given-KeepsDb :
    {E A : Type 0} (wrap : E → ManagerError) (o : Result E A) → KeepsDb (given wrap o)
unfolding given
given-KeepsDb wrap (ok a) w = refl
given-KeepsDb wrap (err e) w = refl

pub unless-KeepsDb : (b : Bool) (problem : ManagerError) → KeepsDb (unless b problem)
unless-KeepsDb true problem w = refl
unless-KeepsDb false problem w = refl

module _ (host : Host) (m : Manager) where
  disk-KeepsDb : KeepsDb (disk host)
  unfolding then_on
  disk-KeepsDb w = refl

  must-KeepsDb : KeepsDb (must host)
  must-KeepsDb =
      bind-KeepsDb (disk host) (λ works. unless works disk_failed) disk-KeepsDb
        (λ works. unless-KeepsDb works disk_failed)

  must_then-KeepsDb : (next : Action (Unit {0})) → KeepsDb next → KeepsDb (must host >> next)
  must_then-KeepsDb next k = bind-KeepsDb (must host) (λ works. next) must-KeepsDb (λ works. k)

  put_file-KeepsDb : (path text : Text) → KeepsDb (put_file host path text)
  unfolding put_file
  put_file-KeepsDb path text w = refl

  removed-KeepsDb :
      (b : Bool) (path : Text) → KeepsDb (if b then drop_file host path else return tt)
  unfolding drop_file
  removed-KeepsDb true path w = refl
  removed-KeepsDb false path w = refl

  replace_file-KeepsDb : (path text : Text) → KeepsDb (replace_file host path text)
  unfolding replace_file
  replace_file-KeepsDb path text =
      let last = must host >> put_file host path text in
      let first = λ (b : Bool). if b then drop_file host path else return tt in
      bind-KeepsDb (disk host) (λ b. first b >> last) disk-KeepsDb
        (λ b.
          bind-KeepsDb (first b) (λ done. last) (removed-KeepsDb b path)
            (λ done. must_then-KeepsDb (put_file host path text) (put_file-KeepsDb path text)))

  renamed-KeepsDb :
      (b : Bool) (path text : Text)
      → KeepsDb (if b then put_file host path text else replace_file host path text)
  renamed-KeepsDb true path text = put_file-KeepsDb path text
  renamed-KeepsDb false path text = replace_file-KeepsDb path text

  rename_file-KeepsDb : (path text : Text) → KeepsDb (rename_file host path text)
  unfolding rename_file
  rename_file-KeepsDb path text =
      bind-KeepsDb (disk host)
        (λ b. if b then put_file host path text else replace_file host path text) disk-KeepsDb
        (λ b. renamed-KeepsDb b path text)

  atomic_write-KeepsDb : (path text : Text) → KeepsDb (atomic_write host path text)
  unfolding atomic_write
  atomic_write-KeepsDb path text =
      let renamed = rename_file host path text in
      let closed = must host >> renamed in
      let synced = must host >> closed in
      let written = must host >> synced in
      let changed = must host >> written in
      let created = must host >> changed in
      must_then-KeepsDb created (
        must_then-KeepsDb changed (
          must_then-KeepsDb written (
            must_then-KeepsDb synced (
              must_then-KeepsDb closed
                (must_then-KeepsDb renamed (rename_file-KeepsDb path text))))))

  remove_all-KeepsDb : (dir : Text) → KeepsDb (remove_all host dir)
  unfolding remove_all
  remove_all-KeepsDb dir = bind-KeepsDb _ _ must-KeepsDb (λ works w. refl)

  write_config-KeepsDb : (item : Instance) → KeepsDb (write_config host m item)
  unfolding write_config
  write_config-KeepsDb item =
      bind-KeepsDb _ _ (given-KeepsDb _ _) (λ text. atomic_write-KeepsDb _ text)

  pub write_instance_files-KeepsDb :
      (item : Instance) (key : Text) → KeepsDb (write_instance_files host m item key)
  unfolding write_instance_files
  write_instance_files-KeepsDb item key = bind-KeepsDb _ _ must-KeepsDb (λ a.
      bind-KeepsDb _ _ must-KeepsDb (λ b.
        bind-KeepsDb _ _ (atomic_write-KeepsDb _ _)
          (λ c. bind-KeepsDb _ _ (given-KeepsDb _ _) (λ plain. write_config-KeepsDb plain))))

  pub new_key-KeepsDb : KeepsDb (new_key host m)
  unfolding new_key
  new_key-KeepsDb = bind-KeepsDb _ _ (λ w. refl) (λ t. given-KeepsDb _ _)

-- the new row is the one that is deleted
delete-append :
    (rows : List Instance) (row : Instance) (next : ℕ)
    → row.id ≡ next
    → All (λ r. r.id < next) rows
    → delete_rows (has_id next) (append_row rows row) ≡ rows
unfolding delete_rows append_row
delete-append [] row next e h = if_true _ _ _ ((==_iff row.id next).1 e)
delete-append (r ∷ rows) row next e h =
    let other : (r.id == next) ≡ false = let lt = h.0 in ground arith in
    if_false _ _ _ other ∙ ap (λ l. r ∷ l) (delete-append rows row next e h.1)

-- DeleteInstance behind CreateInstance
deleted_again :
    (db : Db) (item : Instance) (t : Time)
    → All (λ r. r.id < db.next_instance) db.instances
    → (delete_instance (insert_instance db item t) db.next_instance).0.instances ≡ db.instances
unfolding delete_instance insert_instance remove_instance fresh_row
deleted_again db item t h =
    let there =
      any-append_row_new (has_id db.next_instance) db.instances (fresh_row item db.next_instance t)
        ((==_iff _ _).1 refl) in
    ap (λ (o : Db × Result StoreError (Unit {0})). o.0.instances) (if_true _ _ _ there)
    ∙ delete-append db.instances (fresh_row item db.next_instance t) db.next_instance refl h

-- the row of CreateInstance
inserted_row :
    (db : Db) (item : Instance) (t : Time)
    → (created : Instance) × (instance (insert_instance db item t) db.next_instance ≡ ok created)
unfolding instance found_instance insert_instance fresh_row
inserted_row db item t =
    let (row, f) = find_row_of_any (has_id db.next_instance) _ (
      any-append_row_new (has_id db.next_instance) db.instances (fresh_row item db.next_instance t)
        ((==_iff _ _).1 refl)) in
    (_, ap (found_instance (insert_instance db item t)) f)

pub create_instance-cases :
    (db : Db) (uuid : Text) (item : Instance) (t : Time)
    → ((problem : StoreError) × (create_instance db uuid item t ≡ (db, err problem)))
      ⊎ ((created : Instance) × (create_instance db uuid item t
            ≡ (insert_instance db (with_client_id uuid item) t, ok created))
          × (created.id ≡ db.next_instance))
unfolding create_instance
create_instance-cases db uuid item t =
    elim (Bool-cases (any (clashes (with_client_id uuid item)) db.instances)) [
      | inl c ↦ inl (not_unique, if_true _ _ _ c)
      | inr c ↦
          let later = insert_instance db (with_client_id uuid item) t in
          let (created, e) = inserted_row db (with_client_id uuid item) t in
          inr (
            created,
            if_false _ _ _ c ∙ ap (pair_with later) e,
            instance-id later db.next_instance created e,
          )
    ]

module _ (host : Host) (m : Manager) (r : IsReliable host) where
  undo_create-db :
      (id : ℕ) (problem : ManagerError) (w : World)
      → (undo_create host m id problem w).0.db ≡ (delete_instance w.db id).0
  unfolding undo_create store_delete then_on kept
  undo_create-db id problem w =
      let run = λ (o : World × Result ManagerError (Unit {0})).
        then_on o (λ done v. commit v (delete_instance v.db id)) in
      remove_all-KeepsDb host m (runtime_path host m id) _
      ∙ (remove_all-KeepsDb host m (instance_path host m id) _
          ∙ (ap (λ o. (run o).0.db) (statement_works host r w)
              ∙ ap (λ (v : World). v.db)
                  (commit-db (at_tick w (suc w.tick)) (delete_instance w.db id))))

  pub undone_rows :
      (item created : Instance) (t : Time) (w v : World) (o : Result ManagerError (Unit {0}))
      (problem : ManagerError)
      → All (λ a. a.id < w.db.next_instance) w.db.instances
      → created.id ≡ w.db.next_instance
      → v.db ≡ insert_instance w.db item t
      → (created_or_undone host m created o v).1 ≡ err problem
      → (created_or_undone host m created o v).0.db.instances ≡ w.db.instances
  unfolding created_or_undone
  undone_rows item created t w v (ok done) problem h id e k = cc
  undone_rows item created t w v (err reason) problem h id e k =
      ap (λ (d : Db). d.instances) (undo_create-db created.id reason v)
      ∙ (ap (λ (d : Db). (delete_instance d created.id).0.instances) e
          ∙ (ap (λ n. (delete_instance (insert_instance w.db item t) n).0.instances) id
              ∙ deleted_again w.db item t h))
