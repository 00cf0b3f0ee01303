-- ===== src/Manager/Atomic.antt =====
-- internal/instance/manager.go: Update as a whole.
use olcrtc_panel_lite.Common.{
  ℕ, suc, ◌≡◌, refl, sym, ap, ◌∙◌, Bool, true, false, Option, some, if◌then◌else◌, Result, ok, err,
  ok-injective, >>=-eq-ok, ◌⊎◌, inl, inr, if_true, ==_iff,
}
use olcrtc_panel_lite.Text.{Text}
use olcrtc_panel_lite.Model.{Instance}
use olcrtc_panel_lite.Instance.Config.Validate.{validate}
use olcrtc_panel_lite.Store.Db.{Db}
use olcrtc_panel_lite.Store.Rows.{find_row-test}
use olcrtc_panel_lite.Store.Instances.{has_id, instance}
use olcrtc_panel_lite.Store.Traffic.{counter_of}
use olcrtc_panel_lite.Store.Integrity.Tables.{InstanceKeys}
use olcrtc_panel_lite.Store.Restore.{row_of_instance, joined-keys}
use olcrtc_panel_lite.Manager.World.{
  World, Host, Manager, ManagerError, bad_config, bad_statement, status_failed_for, Action, then_on,
  ◌>>=◌, given, return, fail,
}
use olcrtc_panel_lite.Manager.Secrets.{plain_text, decrypt_secrets}
use olcrtc_panel_lite.Manager.Files.{read_file, config_path, read_key}
use olcrtc_panel_lite.Manager.Units.{store_instance, statement, decorate, decorate_with_error}
use olcrtc_panel_lite.Manager.Update.{or_empty, prepared, update_from, update}
use olcrtc_panel_lite.Manager.Reliable.{IsReliable, at_tick}
use olcrtc_panel_lite.Manager.Rollback.{IsUndone, Recovers, IsUndone-path, apply_update-Recovers}
use olcrtc_panel_lite.Manager.Steady.{
  given-Steady, then_on-ok, statement-Steady, Recovers-step, Recovers-id, given-ok,
  Recovers-at_tick, store_instance-Steady, read_file-Steady, read_key-Steady, prepared-Steady,
  prepared-id,
}

-- an instance that is read has the identifier that it was asked for
pub instance-id : (db : Db) (id : ℕ) (old : Instance) → instance db id ≡ ok old → old.id ≡ id
instance-id db id old e =
    let (row, found, same) = row_of_instance db id old e in
    ap (λ (a : Instance). a.id) (sym same)
    ∙ ((joined-keys row (counter_of db.counters row.id)).0
        ∙ (==_iff row.id id).0 (find_row-test (has_id id) db.instances row found))

decrypted-id :
    (host : Host) (item plain : Instance)
    → decrypt_secrets host item ≡ ok plain
    → plain.id ≡ item.id
unfolding decrypt_secrets
decrypted-id host item plain e =
    let (token, t, e1) = >>=-eq-ok (plain_text host item.auth_token) _ e in
    let (proxy, p, e2) = >>=-eq-ok (plain_text host item.outbound_proxy) _ e1 in
    ap (λ (i : Instance). i.id) (sym (ok-injective e2))

module _ (host : Host) (m : Manager) (r : IsReliable host) where
  -- what the read of a file returns
  read_back :
      (path : Text) (w : World) (found : Option Text)
      → (read_file host path w).1 ≡ ok found
      → found ≡ w.files path
  unfolding read_file then_on
  read_back path w found e = sym (ok-injective e) ∙ if_true _ _ _ (r.disk_works w.tick)

  update_from-Recovers :
      (old item : Instance) (a b : Bool) (config : Text) (w : World)
      → InstanceKeys w.db.instances w.db.next_instance
      → instance w.db item.id ≡ ok old
      → w.files (config_path host m item.id) ≡ some config
      → Recovers item.id w (update_from host m old item a b w)
  unfolding update_from or_empty
  update_from-Recovers old item a b config w keys read file =
      Recovers-step item.id w w.tick (prepared host m old item a b) _
        (prepared-Steady host m old item a b)
        (λ next n1 e1.
          let id1 = prepared-id host m old item next a b w e1 in
          Recovers-step item.id w n1 (given (λ e. e) (decrypt_secrets host next)) _
            (given-Steady (λ e. e) (decrypt_secrets host next))
            (λ plain n2 e2.
              let id2 =
                decrypted-id host next plain
                  (given-ok (λ e. e) (decrypt_secrets host next) (at_tick w n1) plain e2) in
              Recovers-step item.id w n2 (given bad_config (validate host.net plain)) _
                (given-Steady bad_config (validate host.net plain))
                (λ valid n3 e3.
                  Recovers-step item.id w n3 (read_file host (config_path host m next.id)) _
                    (read_file-Steady host (config_path host m next.id))
                    (λ found n4 e4.
                      let there : w.files (config_path host m next.id) ≡ some config =
                        rw id1 file in
                      let found_eq =
                        read_back (config_path host m next.id) (at_tick w n3) found e4 ∙ there in
                      Recovers-step item.id w n4 (read_key host m next.id) _
                        (read_key-Steady host m next.id)
                        (λ key n5 e5. Recovers-id next.id item.id w _ id1 (
                          Recovers-at_tick next.id w n5 _ (
                            rw found_eq (
                              apply_update-Recovers host m r old next plain config (at_tick w n5)
                                keys (rw id1 read) (rw id1 (instance-id w.db item.id old read)) id2
                                there))))))))

updated-IsUndone :
    (host : Host) (m : Manager) (r : IsReliable host) (old item : Instance) (a b : Bool)
    (config : Text) (w : World) (n : ℕ) (start : World) (problem : ManagerError)
    → InstanceKeys w.db.instances w.db.next_instance
    → w.files (config_path host m item.id) ≡ some config
    → start ≡ at_tick w n
    → instance w.db item.id ≡ ok old
    → (update_from host m old item a b start).1 ≡ err problem
    → IsUndone item.id w (update_from host m old item a b start).0
updated-IsUndone host m r old item a b config w n start problem keys file moved read = rw moved (
    Recovers-at_tick item.id w n (update_from host m old item a b (at_tick w n))
      (update_from-Recovers host m r old item a b config (at_tick w n) keys read file) problem)

err_retyped :
    {A B : Type 0} (e problem : ManagerError)
    → ◌≡◌ {A = Result ManagerError B} (err e) (err problem)
    → ◌≡◌ {A = Result ManagerError A} (err e) (err problem)
err_retyped e problem h = let q : e ≡ problem = cc in ap err q

then_on-err :
    {A B : Type 0} (o : World × Result ManagerError A) (next : A → Action B)
    (problem : ManagerError)
    → (then_on o next).1 ≡ err problem
    → ((o.1 ≡ err problem) × ((then_on o next).0 ≡ o.0))
      ⊎ ((a : A) × (o.1 ≡ ok a) × ((next a (o.0)).1 ≡ err problem))
unfolding then_on
then_on-err (v, ok a) next problem h = inr (a, refl, h)
then_on-err (v, err e) next problem h = inl (err_retyped e problem h, refl)

status_error :
    (failed : Bool) (item : Instance) (w : World) (problem : ManagerError)
    → ((if failed then fail (status_failed_for item) else return item) w).1 ≡ err problem
    → (shown : Instance) × (problem ≡ status_failed_for shown)
status_error true item w problem h = let q : problem ≡ status_failed_for item = cc in (item, q)
status_error false item w problem h = cc

-- an error of decorate is one of Status
decorate-err :
    (host : Host) (item : Instance) (w : World) (problem : ManagerError)
    → (decorate host item w).1 ≡ err problem
    → (shown : Instance) × (problem ≡ status_failed_for shown)
unfolding decorate decorate_with_error then_on
decorate-err host item w problem h = status_error (host.status (suc w.tick) item.id).1 _ _ problem h

pub store_instance-ok :
    (host : Host) (id : ℕ) (w : World) (old : Instance)
    → (store_instance host id w).1 ≡ ok old
    → instance w.db id ≡ ok old
unfolding store_instance
store_instance-ok host id w old h =
    let (done, e, h1) = then_on-ok (statement host w) _ old h in
    let (n, moved) = statement-Steady host w in
    ap (λ (v : World). instance v.db id) (sym moved) ∙ given-ok bad_statement _ _ old h1

then_on-step :
    {A B : Type 0} (o : World × Result ManagerError A) (next : A → Action B) (a : A)
    → o.1 ≡ ok a
    → then_on o next ≡ next a (o.0)
unfolding then_on
then_on-step (v, ok b) next a h = let q : b ≡ a = ok-injective h in ap (λ x. next x v) q
then_on-step (v, err e) next a h = cc

-- An Update that returns an error leaves every file and every table as it was, but for the time of
-- update of the instance's row, where the disk and the database work, no two instances share a name or
-- an identifier, and the instance had a configuration. The error of the Status that is read last is
-- the exception: it comes with the new configuration in force.
pub update-IsUndone :
    (host : Host) (m : Manager) (item : Instance) (clear_auth clear_proxy : Bool) (config : Text)
    (w : World) (problem : ManagerError)
    → IsReliable host
    → InstanceKeys w.db.instances w.db.next_instance
    → w.files (config_path host m item.id) ≡ some config
    → (update host m item clear_auth clear_proxy w).1 ≡ err problem
    → ((shown : Instance) × (problem ≡ status_failed_for shown))
      ⊎ IsUndone item.id w (update host m item clear_auth clear_proxy w).0
unfolding update
update-IsUndone host m item a b config w problem r keys file h =
    let (n, moved) = store_instance-Steady host item.id w in
    elim (then_on-err (store_instance host item.id w) _ problem h) [
      | inl (e, world) ↦
          inr (rw world (rw moved (record { same_files = λ p. refl; same_tables = inl refl })))
      | inr (old, e, h1) ↦
          let old_read = store_instance-ok host item.id w old e in
          elim (then_on-err (update_from host m old item a b ((store_instance host item.id w).0)) _
            problem h1) [
              | inl (e2, world) ↦ inr (
                  IsUndone-path item.id w _ _
                    (ap (λ (x : World × Result ManagerError Instance). x.0)
                        (then_on-step (store_instance host item.id w)
                          (λ o. update_from host m o item a b >>= λ u. decorate host u) old e)
                      ∙ world)
                    (updated-IsUndone host m r old item a b config w n
                      ((store_instance host item.id w).0) problem keys file moved old_read e2))
              | inr (updated, e2, h2) ↦ inl (decorate-err host updated _ problem h2)
            ]
    ]
