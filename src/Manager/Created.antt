-- ===== src/Manager/Created.antt =====
-- internal/instance/manager.go: Create as a whole.
use olcrtc_panel_lite.Common.{
  ℕ, suc, ◌<◌, ◌≡◌, refl, sym, ap, ◌∙◌, Bool, ◌&&◌, if◌then◌else◌, Result, ok, err, All, Bool-cases,
  inl, inr,
}
use olcrtc_panel_lite.Text.{Text, text_eq, is_empty}
use olcrtc_panel_lite.Store.Db.{Db, StoreError}
use olcrtc_panel_lite.Model.{Instance}
use olcrtc_panel_lite.Instance.Names.{wbstream}
use olcrtc_panel_lite.Security.Secrets.{encrypt}
use olcrtc_panel_lite.Store.Instances.{with_client_id, insert_instance, create_instance}
use olcrtc_panel_lite.Store.Integrity.Tables.{InstanceKeys}
use olcrtc_panel_lite.Manager.World.{
  World, Host, Manager, ManagerError, bad_config, bad_secret, limit_reached, database_failed,
  Action, then_on, kept, given, now, attempt, ◌>>=◌, return,
}
use olcrtc_panel_lite.Manager.Secrets.{sealed, encrypt_secrets}
use olcrtc_panel_lite.Manager.Files.{write_instance_files}
use olcrtc_panel_lite.Manager.Units.{commit, statement, store_create, store_count}
use olcrtc_panel_lite.Manager.Update.{new_key}
use olcrtc_panel_lite.Manager.Lifecycle.{
  shared_token, token_or_old, with_shared_token, created_or_undone, create_files, create_item,
}
use olcrtc_panel_lite.Manager.Reliable.{IsReliable, at_tick, statement_works}
use olcrtc_panel_lite.Manager.NoRow.{
  KeepsDb, then_on-db, bind-KeepsDb, given-KeepsDb, unless-KeepsDb, new_key-KeepsDb,
  write_instance_files-KeepsDb, create_instance-cases, undone_rows,
}

-- an error leaves the rows of the instances as they were
abbrev HasNoRow : {A : Type 0} → World → World × Result ManagerError A → Type 0
HasNoRow w o = (problem : ManagerError) → o.1 ≡ err problem → o.0.db.instances ≡ w.db.instances

HasNoRow-bind :
    {A B : Type 0} (w : World) (o : World × Result ManagerError A) (next : A → Action B)
    → o.0.db ≡ w.db
    → ((a : A) (v : World) → v.db ≡ w.db → HasNoRow w (next a v))
    → HasNoRow w (then_on o next)
unfolding then_on
HasNoRow-bind w (v, ok a) next e k = k a v e
HasNoRow-bind w (v, err problem) next e k = λ p h. ap (λ d. d.instances) e

module _ (host : Host) (m : Manager) where
  statement-KeepsDb : KeepsDb (statement host)
  unfolding then_on
  statement-KeepsDb w =
      unless-KeepsDb (host.statement w.tick) database_failed (at_tick w (suc w.tick))

  sealed-KeepsDb : (plain : Text) → KeepsDb (sealed host plain)
  unfolding sealed then_on
  sealed-KeepsDb plain w =
      given-KeepsDb bad_secret (encrypt host.crypto (host.draw w.tick) plain)
        (at_tick w (suc w.tick))

  encrypt_secrets-KeepsDb : (item : Instance) → KeepsDb (encrypt_secrets host item)
  unfolding encrypt_secrets
  encrypt_secrets-KeepsDb item w =
      then_on-db (sealed host item.auth_token w) _ w.db (sealed-KeepsDb item.auth_token w)
        (λ token v.
          then_on-db (sealed host item.outbound_proxy v) _ v.db
            (sealed-KeepsDb item.outbound_proxy v) (λ proxy u. refl))

  store_count-KeepsDb : KeepsDb (store_count host)
  unfolding store_count
  store_count-KeepsDb w =
      then_on-db (statement host w) _ w.db (statement-KeepsDb w) (λ done v. refl)

  shared_token-KeepsDb : KeepsDb (shared_token host m)
  unfolding shared_token
  shared_token-KeepsDb w =
      then_on-db (statement host w) _ w.db (statement-KeepsDb w) (λ done v. refl)

  -- the two branches of Create's first condition
  abbrev shared_or_own : Instance → Bool → Action Instance
  shared_or_own item b =
      if b
      then (attempt (shared_token host m) >>= λ found. return (token_or_old host m item found))
      else return item

  with_shared_token-KeepsDb : (item : Instance) → KeepsDb (with_shared_token host m item)
  unfolding with_shared_token then_on kept
  with_shared_token-KeepsDb item w =
      elim (Bool-cases (text_eq item.provider wbstream && is_empty item.auth_token)) [
        | inl e ↦ ap (λ b. (shared_or_own item b w).0.db) e ∙ shared_token-KeepsDb w
        | inr e ↦ ap (λ b. (shared_or_own item b w).0.db) e
      ]

  module _ (r : IsReliable host) where
    files-HasNoRow :
        (item created : Instance) (w v : World) (t : ℕ)
        → All (λ a. a.id < w.db.next_instance) w.db.instances
        → created.id ≡ w.db.next_instance
        → v.db ≡ insert_instance w.db item t
        → HasNoRow w (
            then_on
              (kept ((new_key host m >>= λ key. write_instance_files host m created key) v))
              (created_or_undone host m created))
    unfolding then_on kept
    files-HasNoRow item created w v t below id e problem h =
        undone_rows host m r item created t w _ _ problem below id
          (bind-KeepsDb (new_key host m) (λ key. write_instance_files host m created key)
              (new_key-KeepsDb host m) (λ key. write_instance_files-KeepsDb host m created key) v
            ∙ e)
          h

    -- the tables behind CreateInstance of the Store, whatever it returns
    create_files-HasNoRow :
        (item : Instance) (w v : World)
        → v.db ≡ w.db
        → All (λ a. a.id < w.db.next_instance) w.db.instances
        → HasNoRow w (create_files host m item v)
    unfolding create_files store_create then_on commit given
    create_files-HasNoRow item w v e below =
        let v2 = at_tick v (suc (suc v.tick)) in
        let uuid = host.uuid (suc v.tick) in
        let t = host.clock (suc v.tick) in
        let rest = λ (o : World × Result ManagerError Instance). then_on o (λ created.
          (attempt (new_key host m >>= λ key. write_instance_files host m created key))
          >>= created_or_undone host m created) in
        let start =
          ap
            (λ (o : World × Result ManagerError (Unit {0})). rest (
              then_on o (λ d.
                now >>= λ n u. commit u (create_instance u.db (host.uuid n) item (host.clock n)))))
            (statement_works host r v) in
        let done = λ (o : Db × Result StoreError Instance). rest (commit v2 o) in
        elim (create_instance-cases v.db uuid item t) [
          | inl (problem, c) ↦
              λ p h. ap (λ o. o.0.db.instances) (start ∙ ap done c) ∙ ap (λ (d : Db). d.instances) e
          | inr (created, c, id) ↦ λ p h.
              let path = start ∙ ap done c in
              let later = insert_instance v.db (with_client_id uuid item) t in
              let kept_id = id ∙ ap (λ (d : Db). d.next_instance) e in
              let same = ap (λ d. insert_instance d (with_client_id uuid item) t) e in
              ap (λ o. o.0.db.instances) path
              ∙ files-HasNoRow (with_client_id uuid item) created w (record v2 { db = later }) t
                  below kept_id same p (sym (ap (λ o. o.1) path) ∙ h)
        ]

  -- A Create that returns an error, other than that of the last Status, leaves the rows of the
  -- instances as they were, where the disk and the database work and the keys of the instances are
  -- unique and below the next one.
  pub create_item-HasNoRow :
      (item : Instance) (w : World) (problem : ManagerError)
      → IsReliable host
      → InstanceKeys w.db.instances w.db.next_instance
      → (create_item host m item w).1 ≡ err problem
      → (create_item host m item w).0.db.instances ≡ w.db.instances
  unfolding create_item
  create_item-HasNoRow item w problem r keys =
      let below = keys.numbered.1 in
      HasNoRow-bind w _ _ (given-KeepsDb bad_config _ w)
        (λ valid v e. HasNoRow-bind w _ _ (with_shared_token-KeepsDb _ v ∙ e) (λ shared v e.
          HasNoRow-bind w _ _ (store_count-KeepsDb v ∙ e) (λ count v e.
            HasNoRow-bind w _ _ (unless-KeepsDb _ limit_reached v ∙ e) (λ fits v e.
              HasNoRow-bind w _ _ (encrypt_secrets-KeepsDb _ v ∙ e)
                (λ sealed_item v e. create_files-HasNoRow r sealed_item w v e below)))))
        problem
