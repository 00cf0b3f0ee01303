-- ===== src/Manager/Reliable.antt =====
-- internal/instance/manager.go: what the calls do where the disk and the database do not fail.
use olcrtc_panel_lite.Common.{
  ℕ, suc, ◌≡◌, refl, ap, ◌∙◌, true, not, Option, none, some, if◌then◌else◌, any, Result, ok, err,
  ◌⊎◌, inl, inr, Bool-cases, if_true, if_false,
}
use olcrtc_panel_lite.Text.{Text, text_eq}
use olcrtc_panel_lite.Model.{Instance, Time}
use olcrtc_panel_lite.Systemd.Wait.{
  Outcome, active, entered_failed, timed_out, waiting, wait_active,
}
use olcrtc_panel_lite.Store.Keys.{any-update_rows}
use olcrtc_panel_lite.Store.Found.{find_row_of_any}
use olcrtc_panel_lite.Store.Db.{Db, StoreError, no_rows, not_unique}
use olcrtc_panel_lite.Store.Instances.{
  has_id, written, found_instance, instance, clashes_elsewhere, set_instance, update_instance,
}
use olcrtc_panel_lite.Manager.World.{
  World, Host, Verb, restart_unit, ManagerError, bad_statement, disk_failed, database_failed,
  Action, ◌>>=◌, then_on, given, now, unless,
}
use olcrtc_panel_lite.Manager.Files.{must, put_file, replace_file, rename_file, atomic_write}
use olcrtc_panel_lite.Manager.Units.{
  commit, statement, store_update, failed_unit, unit_action, outcome_of_wait, wait_for,
  restart_and_wait,
}

pub record IsReliable (host : Host) : Type 0 where
  pub disk_works : (t : ℕ) → host.disk t ≡ true
  pub database_works : (t : ℕ) → host.statement t ≡ true

-- the files behind a write
abbrev pub put : (Text → Option Text) → Text → Text → Text → Option Text
put files path text = λ p. if text_eq p path then some text else files p

abbrev pub at_tick : World → ℕ → World
at_tick w n = record w { tick = n }

pub Result-cases :
    {E A : Type 0} (r : Result E A) → ((a : A) × (r ≡ ok a)) ⊎ ((e : E) × (r ≡ err e))
Result-cases (ok a) = inl (a, refl)
Result-cases (err e) = inr (e, refl)

abbrev pub pair_with : Db → Result StoreError Instance → Db × Result StoreError Instance
pair_with db o = (db, o)

pub commit-db :
    {A : Type 0} (w : World) (o : Db × Result StoreError A) → (commit w o).0 ≡ record w { db = o.0 }
unfolding commit given
commit-db w (db, ok a) = refl
commit-db w (db, err e) = refl

read_updated :
    (db : Db) (item : Instance) (t : Time)
    → any (has_id item.id) db.instances ≡ true
    → (updated : Instance) × (instance (set_instance db item t) item.id ≡ ok updated)
unfolding instance found_instance set_instance written
read_updated db item t h =
    let (row, f) =
      find_row_of_any (has_id item.id) _
        (any-update_rows (has_id item.id) (has_id item.id) _ db.instances (λ a. refl) ∙ h) in
    (_, ap (found_instance (set_instance db item t)) f)

update_instance-cases :
    (db : Db) (item : Instance) (t : Time)
    → ((problem : StoreError) × (update_instance db item t ≡ (db, err problem)))
      ⊎ ((updated : Instance) × (update_instance db item t ≡ (set_instance db item t, ok updated)))
unfolding update_instance
update_instance-cases db item t = elim (Bool-cases (any (has_id item.id) db.instances)) [
  | inr h ↦ inl (no_rows, if_true _ _ _ (ap not h))
  | inl h ↦ elim (Bool-cases (any (clashes_elsewhere item) db.instances)) [
    | inl c ↦ inl (not_unique, if_false _ _ _ (ap not h) ∙ if_true _ _ _ c)
    | inr c ↦
        let (updated, e) = read_updated db item t h in
        inr (
          updated,
          if_false _ _ _ (ap not h)
              ∙ (if_false _ _ _ c ∙ ap (pair_with (set_instance db item t)) e),
        )
  ]
]

module _ (host : Host) (r : IsReliable host) where
  must_works : (w : World) → must host w ≡ (at_tick w (suc w.tick), ok tt)
  unfolding then_on
  must_works w = ap (λ b. unless b disk_failed (at_tick w (suc w.tick))) (r.disk_works w.tick)

  first :
      {A : Type 0} (w : World) (next : Action A)
      → then_on (must host w) (λ v. next) ≡ next (at_tick w (suc w.tick))
  unfolding then_on
  first w next = ap (λ o. then_on o (λ v. next)) (must_works w)

  rename_works :
      (path text : Text) (w : World)
      → rename_file host path text w
        ≡ (record w { files = put w.files path text; tick = suc w.tick }, ok tt)
  unfolding rename_file then_on put_file
  rename_works path text w =
      ap
        (λ b.
          (if b then put_file host path text else replace_file host path text)
            (at_tick w (suc w.tick)))
        (r.disk_works w.tick)

  -- atomicWrite replaces the file
  pub atomic_write_works :
      (path text : Text) (w : World)
      → (n : ℕ) × (atomic_write host path text w
          ≡ (record w { files = put w.files path text; tick = n }, ok tt))
  unfolding atomic_write then_on
  atomic_write_works path text w =
      let n = w.tick in
      (
        suc (suc (suc (suc (suc (suc (suc n)))))),
        first w _
            ∙ (first (at_tick w (suc n)) _
                ∙ (first (at_tick w (suc (suc n))) _
                    ∙ (first (at_tick w (suc (suc (suc n)))) _
                        ∙ (first (at_tick w (suc (suc (suc (suc n))))) _
                            ∙ (first (at_tick w (suc (suc (suc (suc (suc n)))))) _
                                ∙ rename_works path text
                                    (at_tick w (suc (suc (suc (suc (suc (suc n)))))))))))),
      )

  pub statement_works : (w : World) → statement host w ≡ (at_tick w (suc w.tick), ok tt)
  unfolding then_on
  statement_works w =
      ap (λ b. unless b database_failed (at_tick w (suc w.tick))) (r.database_works w.tick)

  -- the tables behind UpdateInstance of the Store, whatever it returns
  pub store_update-db :
      (item : Instance) (w : World)
      → (n : ℕ) × (t : Time) × ((store_update host item w).0
          ≡ record w { db = (update_instance w.db item t).0; tick = n })
  unfolding store_update then_on
  store_update-db item w =
      let t = host.clock (suc w.tick) in
      let w2 = at_tick w (suc (suc w.tick)) in
      (
        suc (suc w.tick),
        t,
        ap
              (λ (o : World × Result ManagerError (Unit {0})).
                (then_on o
                  (λ v. now >>= λ n u. commit u (update_instance u.db item (host.clock n)))).0)
              (statement_works w)
            ∙ commit-db w2 (update_instance w.db item t),
      )

  -- UpdateInstance of the Store fails without a change, or writes the row
  pub store_update-cases :
      (item : Instance) (w : World)
      → (n : ℕ) × (((problem : ManagerError) × (store_update host item w
              ≡ (at_tick w n, err problem)))
          ⊎ ((t : Time) × (updated : Instance) × (store_update host item w
                ≡ (record w { db = set_instance w.db item t; tick = n }, ok updated))))
  unfolding store_update then_on commit given
  store_update-cases item w =
      let t = host.clock (suc w.tick) in
      let run = λ (o : World × Result ManagerError (Unit {0})).
        then_on o (λ v. now >>= λ n u. commit u (update_instance u.db item (host.clock n))) in
      let w2 = at_tick w (suc (suc w.tick)) in
      (
        suc (suc w.tick),
        elim (update_instance-cases w.db item t) [
          | inl (problem, e) ↦
              inl (bad_statement problem, ap run (statement_works w) ∙ ap (commit w2) e)
          | inr (updated, e) ↦ inr (t, updated, ap run (statement_works w) ∙ ap (commit w2) e)
        ],
      )

module _ (host : Host) where
  failed_unit-world : (o : Option Text) (w : World) → (failed_unit host o w).0 ≡ w
  unfolding failed_unit
  failed_unit-world none w = refl
  failed_unit-world (some problem) w = refl

  outcome-world : (o : Outcome) (w : World) → (outcome_of_wait host o w).0 ≡ w
  unfolding outcome_of_wait
  outcome-world active w = refl
  outcome-world entered_failed w = refl
  outcome-world timed_out w = refl
  outcome-world waiting w = refl

  -- an action of a unit moves only the tick
  pub unit_action-tick :
      (verb : Verb) (id : ℕ) (w : World) → (unit_action host verb id w).0 ≡ at_tick w (suc w.tick)
  unfolding then_on
  unit_action-tick verb id w =
      failed_unit-world (host.action w.tick verb id) (at_tick w (suc w.tick))

  restarted-tick :
      (o : Option Text) (id : ℕ) (w : World)
      → (n : ℕ) × ((then_on (failed_unit host o w) (λ done. wait_for host id)).0 ≡ at_tick w n)
  unfolding then_on failed_unit
  restarted-tick none id w =
      (suc w.tick, outcome-world (wait_active 0 (host.polls w.tick id)) (at_tick w (suc w.tick)))
  restarted-tick (some problem) id w = (w.tick, refl)

  -- and so does a restart with its wait
  pub restart_and_wait-tick :
      (id : ℕ) (w : World) → (n : ℕ) × ((restart_and_wait host id w).0 ≡ at_tick w n)
  unfolding then_on
  restart_and_wait-tick id w =
      restarted-tick (host.action w.tick restart_unit id) id (at_tick w (suc w.tick))
