-- ===== src/Manager/Identity.antt =====
-- internal/instance/manager.go: a rotation of the client identifier that fails.
use olcrtc_panel_lite.Common.{
  ℕ, suc, ◌≡◌, refl, ap, ◌∙◌, Bool, true, false, Result, ok, err, inl, inr,
}
use olcrtc_panel_lite.Model.{Instance, Time}
use olcrtc_panel_lite.Store.Instances.{instance, set_instance}
use olcrtc_panel_lite.Store.Integrity.Tables.{InstanceKeys}
use olcrtc_panel_lite.Store.Restore.{update_instance_restores}
use olcrtc_panel_lite.Manager.World.{
  World, Host, Manager, restart_unit, ManagerError, then_on, kept, now, ◌>>=◌,
}
use olcrtc_panel_lite.Manager.Units.{
  store_instance, store_update, unit_status, restart_and_wait, runs,
}
use olcrtc_panel_lite.Manager.Update.{
  undo_client_id, undo_if_failed, restart_with_client_id, rotate_client_id,
}
use olcrtc_panel_lite.Manager.Reliable.{
  IsReliable, at_tick, store_update-db, store_update-cases, unit_action-tick, restart_and_wait-tick,
}
use olcrtc_panel_lite.Manager.Rollback.{IsUndone, IsUndone-path, Recovers}
use olcrtc_panel_lite.Manager.Steady.{Recovers-step, Recovers-id, store_instance-Steady}
use olcrtc_panel_lite.Manager.Atomic.{instance-id, store_instance-ok}

module _ (host : Host) (m : Manager) (r : IsReliable host) where
  -- the tables behind an update with what was read before
  rewritten :
      (old item : Instance) (w : World) (t : Time) (n : ℕ)
      → InstanceKeys w.db.instances w.db.next_instance
      → instance w.db item.id ≡ ok old
      → IsUndone item.id w
          ((store_update host old (record w { db = set_instance w.db item t; tick = n })).0)
  rewritten old item w t n keys read =
      let w1 : World = record w { db = set_instance w.db item t; tick = n } in
      let (n2, t2, stored) = store_update-db host r old w1 in
      IsUndone-path item.id w _ _ stored (record {
        same_files = λ p. refl;
        same_tables = inr (t2, update_instance_restores w.db item old t t2 keys read);
      })

  -- a restart that fails
  undo_client_id-IsUndone :
      (old item : Instance) (problem : ManagerError) (w : World) (t : Time) (n : ℕ)
      → InstanceKeys w.db.instances w.db.next_instance
      → instance w.db item.id ≡ ok old
      → IsUndone item.id w (
          (undo_client_id host m old problem
            (record w { db = set_instance w.db item t; tick = n })).0)
  unfolding undo_client_id then_on kept
  undo_client_id-IsUndone old item problem w t n keys read =
      let w1 : World = record w { db = set_instance w.db item t; tick = n } in
      let u = rewritten old item w t n keys read in
      IsUndone-path item.id w _ _
        (unit_action-tick host restart_unit old.id ((store_update host old w1).0))
        (record { same_files = u.same_files; same_tables = u.same_tables })

  restarted-Recovers :
      (old item : Instance) (w : World) (t : Time) (n : ℕ) (start : World)
      (o : Result ManagerError (Unit {0}))
      → start ≡ record w { db = set_instance w.db item t; tick = n }
      → InstanceKeys w.db.instances w.db.next_instance
      → instance w.db item.id ≡ ok old
      → Recovers item.id w (undo_if_failed host m (undo_client_id host m old) o start)
  unfolding undo_if_failed
  restarted-Recovers old item w t n start (ok done) moved keys read = λ problem h. cc
  restarted-Recovers old item w t n start (err e) moved keys read =
      λ problem h. rw moved (undo_client_id-IsUndone old item e w t n keys read)

  -- behind the statement
  restart_with_client_id-Recovers :
      (old item : Instance) (w : World) (t : Time) (n : ℕ) (failed running : Bool)
      → InstanceKeys w.db.instances w.db.next_instance
      → instance w.db item.id ≡ ok old
      → Recovers item.id w (
          restart_with_client_id host m old failed running
            (record w { db = set_instance w.db item t; tick = n }))
  unfolding restart_with_client_id then_on kept
  restart_with_client_id-Recovers old item w t n true running keys read =
      λ problem h. rewritten old item w t n keys read
  restart_with_client_id-Recovers old item w t n false false keys read = λ problem h. cc
  restart_with_client_id-Recovers old item w t n false true keys read =
      let w1 : World = record w { db = set_instance w.db item t; tick = n } in
      let (k, moved) = restart_and_wait-tick host old.id w1 in
      restarted-Recovers old item w t k ((restart_and_wait host old.id w1).0)
        ((restart_and_wait host old.id w1).1) moved keys read

  stored-Recovers :
      (old item : Instance) (asked : ℕ) (w : World) (n : ℕ)
      → InstanceKeys w.db.instances w.db.next_instance
      → instance w.db item.id ≡ ok old
      → Recovers item.id w (
          then_on (store_update host item (at_tick w n)) (λ updated.
            unit_status host asked >>= λ answer.
            restart_with_client_id host m old answer.1 (runs host answer.0)))
  unfolding then_on
  stored-Recovers old item asked w n keys read =
      let (k, cases) = store_update-cases host r item (at_tick w n) in
      elim cases [
        | inl (problem, e) ↦ rw e (λ p h. record { same_files = λ x. refl; same_tables = inl refl })
        | inr (t, updated, e) ↦
            rw e (restart_with_client_id-Recovers old item w t (suc k) _ _ keys read)
      ]

-- A RotateClientID that returns an error leaves every file and every table as it was, but for the time
-- of update of the instance's row, where the disk and the database work and no two instances share a
-- name or an identifier.
pub rotate_client_id-IsUndone :
    (host : Host) (m : Manager) (id : ℕ) (w : World) (problem : ManagerError)
    → IsReliable host
    → InstanceKeys w.db.instances w.db.next_instance
    → (rotate_client_id host m id w).1 ≡ err problem
    → IsUndone id w (rotate_client_id host m id w).0
unfolding rotate_client_id
rotate_client_id-IsUndone host m id w problem r keys =
    Recovers-step id w w.tick (store_instance host id) _ (store_instance-Steady host id)
      (λ old n e.
        let read = store_instance-ok host id w old e in
        Recovers-step id w n now _ (λ v. (suc v.tick, refl))
          (λ t k e2.
            let same = instance-id w.db id old read in
            Recovers-id old.id id w _ same (
              stored-Recovers host m r old (record old { client_id = host.uuid t }) id w k keys
                (ap (instance w.db) same ∙ read))))
      problem
