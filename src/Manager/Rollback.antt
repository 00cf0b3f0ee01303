-- ===== src/Manager/Rollback.antt =====
-- internal/instance/manager.go: an Update that fails leaves the old configuration and the old row.
use olcrtc_panel_lite.Common.{
  ℕ, suc, ◌≡◌, refl, sym, ap, ◌∙◌, Bool, Option, some, if◌then◌else◌, Result, ok, err, ◌⊎◌, inl,
  inr, Bool-cases, if_true, if_false,
}
use olcrtc_panel_lite.Text.{Text, text_eq}
use olcrtc_panel_lite.Text.Equality.{text_eq→eq}
use olcrtc_panel_lite.Model.{Instance, Time}
use olcrtc_panel_lite.Instance.Config.Yaml.{RenderError, render_yaml}
use olcrtc_panel_lite.Store.Instances.{instance, set_instance, update_instance}
use olcrtc_panel_lite.Store.Integrity.Tables.{InstanceKeys}
use olcrtc_panel_lite.Store.Restore.{stamped, update_instance_restores}
use olcrtc_panel_lite.Manager.World.{
  World, Host, Manager, restart_unit, ManagerError, bad_yaml, Action, then_on, kept, given, attempt,
  ◌>>=◌, return,
}
use olcrtc_panel_lite.Manager.Files.{
  atomic_write, config_path, key_path, effective_data_path, write_config,
}
use olcrtc_panel_lite.Manager.Units.{store_update, unit_action, restart_and_wait, runs}
use olcrtc_panel_lite.Manager.Update.{
  undo_update, undo_if_failed, restart_running, stored_or_undone, apply_update,
}
use olcrtc_panel_lite.Manager.Reliable.{
  IsReliable, put, at_tick, Result-cases, atomic_write_works, store_update-db, store_update-cases,
  unit_action-tick, restart_and_wait-tick,
}

-- the files, and the tables but for the time of update of one instance, are as they were
pub record IsUndone (id : ℕ) (before after : World) : Type 0 where
  pub same_files : (path : Text) → after.files path ≡ before.files path
  pub same_tables : (after.db ≡ before.db) ⊎ ((t : Time) × (after.db ≡ stamped before.db id t))

-- an error leaves the world as it was
abbrev pub Recovers : {A : Type 0} → ℕ → World → World × Result ManagerError A → Type 0
Recovers id w result = (problem : ManagerError) → result.1 ≡ err problem → IsUndone id w (result.0)

ok-Recovers : {A : Type 0} (id : ℕ) (w after : World) (a : A) → Recovers id w (after, ok a)
ok-Recovers id w after a problem h = cc

pub IsUndone-path :
    (id : ℕ) (w after found : World) → after ≡ found → IsUndone id w found → IsUndone id w after
IsUndone-path id w after found e u = rw e u

recovered :
    {A B : Type 0} (id : ℕ) (w : World) (result : World × Result ManagerError B) (a : A)
    → IsUndone id w (result.0)
    → Recovers id w (then_on result (λ done v. (v, ok a)))
unfolding then_on
recovered id w (after, ok b) a u problem h = u
recovered id w (after, err e) a u problem h = u

-- a file that is written twice
put_back :
    (files : Text → Option Text) (path text old : Text)
    → files path ≡ some old
    → (p : Text) → put (put files path text) path old p ≡ files p
put_back files path text old h p = elim (Bool-cases (text_eq p path)) [
  | inl e ↦ if_true _ _ _ e ∙ (sym h ∙ ap files (sym (text_eq→eq p path e)))
  | inr e ↦ if_false _ _ _ e ∙ if_false _ _ _ e
]

module _ (host : Host) (m : Manager) where
  -- a restart that works or is not needed moves the tick, another one undoes
  pub restart_running-cases :
      (id : ℕ) (undo : ManagerError → Action (Unit {0})) (w : World)
      → (n : ℕ) × ((restart_running host m id undo w ≡ (at_tick w n, ok tt))
          ⊎ ((problem : ManagerError) × (restart_running host m id undo w
                ≡ undo problem (at_tick w n))))
  unfolding restart_running then_on kept undo_if_failed
  restart_running-cases id undo w =
      let answer = host.status w.tick id in
      let w1 = at_tick w (suc w.tick) in
      let run = λ (b : Bool).
        (if b then attempt (restart_and_wait host id) >>= undo_if_failed host m undo else return tt)
          w1 in
      elim (Bool-cases (runs host answer.0)) [
        | inr e ↦ (suc w.tick, inl (ap run e))
        | inl e ↦
            let (n, moved) = restart_and_wait-tick host id w1 in
            (
              n,
              elim (Result-cases ((restart_and_wait host id w1).1)) [
                | inl (done, f) ↦ inl (
                    ap run e
                    ∙ (ap (λ o. undo_if_failed host m undo o ((restart_and_wait host id w1).0)) f
                        ∙ ap (λ v. (v, ok tt)) moved))
                | inr (problem, f) ↦ inr (
                  problem,
                  ap run e
                      ∙ (ap (λ o. undo_if_failed host m undo o ((restart_and_wait host id w1).0)) f
                          ∙ ap (undo problem) moved),
                )
              ],
            )
      ]

module _ (host : Host) (m : Manager) (r : IsReliable host) where
  -- the state behind the rollback of Update
  undo_update-world :
      (old : Instance) (config : Text) (problem : ManagerError) (w : World)
      → (n : ℕ) × (t : Time) × ((undo_update host m old config problem w).0 ≡ record w {
        db = (update_instance w.db old t).0;
        files = put w.files (config_path host m old.id) config;
        tick = n;
      })
  unfolding undo_update then_on kept
  undo_update-world old config problem w =
      let path = config_path host m old.id in
      let (n1, t, stored) = store_update-db host r old w in
      let w1 : World = record w { db = (update_instance w.db old t).0; tick = n1 } in
      let (n2, rewritten) = atomic_write_works host r path config w1 in
      let w2 : World = record w1 { files = put w.files path config; tick = n2 } in
      (
        suc n2,
        t,
        ap (λ v. (unit_action host restart_unit old.id (atomic_write host path config v).0).0)
              stored
            ∙ (ap
                  (λ (o : World × Result ManagerError (Unit {0})).
                    (unit_action host restart_unit old.id o.0).0)
                  rewritten
                ∙ unit_action-tick host restart_unit old.id w2),
      )

  -- the configuration is written, or there is none to write
  write_config-cases :
      (plain : Instance) (w : World)
      → ((problem : ManagerError) × (write_config host m plain w ≡ (w, err problem)))
        ⊎ ((text : Text) × (n : ℕ) × (write_config host m plain w ≡ (
          record w { files = put w.files (config_path host m plain.id) text; tick = n },
          ok tt,
        )))
  unfolding write_config then_on given
  write_config-cases plain w =
      let go = λ (o : Result RenderError Text).
        then_on (given bad_yaml o w)
          (λ text. atomic_write host (config_path host m plain.id) text) in
      elim (Result-cases (
        render_yaml host.net host.marshal host.parses plain (key_path host m plain.id)
          (effective_data_path host m))) [
            | inl (text, e) ↦
                let (n, written) = atomic_write_works host r (config_path host m plain.id) text w in
                inr (text, n, ap go e ∙ written)
            | inr (problem, e) ↦ inl (bad_yaml problem, ap go e)
          ]

  -- behind the statement: the restart, and its rollback
  after_statement :
      (old item updated : Instance) (text config : Text) (w : World) (t : Time) (n : ℕ)
      → InstanceKeys w.db.instances w.db.next_instance
      → instance w.db item.id ≡ ok old
      → old.id ≡ item.id
      → w.files (config_path host m item.id) ≡ some config
      → let w2 : World = record w {
        db = set_instance w.db item t;
        files = put w.files (config_path host m item.id) text;
        tick = n;
      } in
        Recovers item.id w (
          then_on
            (restart_running host m item.id (undo_update host m old config) w2)
            (λ done v. (v, ok updated)))
  unfolding then_on
  after_statement old item updated text config w t n keys read old_id file =
      let w2 : World = record w {
        db = set_instance w.db item t;
        files = put w.files (config_path host m item.id) text;
        tick = n;
      } in
      let (n2, cases) = restart_running-cases host m item.id (undo_update host m old config) w2 in
      elim cases [
        | inl e ↦ rw e (ok-Recovers item.id w _ updated)
        | inr (problem, e) ↦ rw e (
            let (n3, t2, undone) = undo_update-world old config problem (at_tick w2 n2) in
            recovered item.id w _ updated (
              IsUndone-path item.id w _ _ undone (record {
                same_files =
                    rw old_id (put_back w.files (config_path host m item.id) text config file);
                same_tables = inr (t2, update_instance_restores w.db item old t t2 keys read);
              })))
      ]

  -- behind the write of the configuration
  after_write :
      (old item : Instance) (text config : Text) (w : World) (n : ℕ)
      → InstanceKeys w.db.instances w.db.next_instance
      → instance w.db item.id ≡ ok old
      → old.id ≡ item.id
      → w.files (config_path host m item.id) ≡ some config
      → let w1 : World = record w {
        files = put w.files (config_path host m item.id) text;
        tick = n;
      } in
        Recovers item.id w (
          then_on (kept (store_update host item w1)) (λ outcome v.
            then_on (stored_or_undone host m item config outcome v) (λ updated u.
              then_on
                (restart_running host m item.id (undo_update host m old config) u)
                (λ done x. (x, ok updated)))))
  unfolding then_on kept stored_or_undone
  after_write old item text config w n keys read old_id file =
      let w1 : World = record w {
        files = put w.files (config_path host m item.id) text;
        tick = n;
      } in
      let (n2, cases) = store_update-cases host r item w1 in
      elim cases [
        | inr (t, updated, e) ↦
            rw e (after_statement old item updated text config w t n2 keys read old_id file)
        | inl (problem, e) ↦ rw e (
            let (n3, rewritten) =
              atomic_write_works host r (config_path host m item.id) config (at_tick w1 n2) in
            λ x h.
              IsUndone-path item.id w _ _
                (ap (λ (o : World × Result ManagerError (Unit {0})). o.0) rewritten)
                (record {
                  same_files = put_back w.files (config_path host m item.id) text config file;
                  same_tables = inl refl;
                }))
      ]

  pub apply_update-Recovers :
      (old item plain : Instance) (config : Text) (w : World)
      → InstanceKeys w.db.instances w.db.next_instance
      → instance w.db item.id ≡ ok old
      → old.id ≡ item.id
      → plain.id ≡ item.id
      → w.files (config_path host m item.id) ≡ some config
      → Recovers item.id w (apply_update host m old item plain config w)
  unfolding apply_update then_on
  apply_update-Recovers old item plain config w keys read old_id plain_id file =
      elim (write_config-cases plain w) [
        | inl (e, not_written) ↦
            rw not_written (λ x h. record { same_files = λ p. refl; same_tables = inl refl })
        | inr (text, n, written) ↦
            rw written (rw plain_id (after_write old item text config w n keys read old_id file))
      ]
