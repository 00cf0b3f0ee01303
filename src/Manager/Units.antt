-- ===== src/Manager/Units.antt =====
-- internal/instance/manager.go: the calls of the Store and of the systemd.Controller.
use olcrtc_panel_lite.Common.{
  ℕ, Bool, not, ◌==◌, leb, Option, none, some, List, if◌then◌else◌, Result, ok, err,
}
use olcrtc_panel_lite.Text.{Text, codes, text_eq, is_empty}
use olcrtc_panel_lite.Model.{Instance, Time}
use olcrtc_panel_lite.Systemd.Service.{Status}
use olcrtc_panel_lite.Systemd.Wait.{
  Outcome, active, entered_failed, timed_out, waiting, wait_active,
}
use olcrtc_panel_lite.Store.Db.{Db, StoreError}
use olcrtc_panel_lite.Store.Instances.{
  instance, instances, create_instance, update_instance, delete_instance, instance_count,
}
use olcrtc_panel_lite.Manager.World.{
  World, Host, Verb, restart_unit, ManagerError, database_failed, bad_statement, unit_failed,
  not_active, status_failed_for, Action, ◌>>=◌, ◌>>◌, return, fail, given, now, unless,
}
use olcrtc_panel_lite.Manager.Secrets.{plain_text, auth_token_expiration}

-- the database behind a statement, with its outcome
unfoldable pub commit :
    {A : Type 0} → World → Db × Result StoreError A → World × Result ManagerError A
commit w (db, outcome) = given bad_statement outcome (record w { db = db })

module _ (host : Host) where
  abbrev pub statement : Action (Unit {0})
  statement = now >>= λ t. unless (host.statement t) database_failed

  unfoldable pub store_instance : ℕ → Action Instance
  store_instance id = statement >> λ w. given bad_statement (instance w.db id) w

  unfoldable pub store_instances : Action (List Instance)
  store_instances = statement >> λ w. (w, ok (instances w.db))

  unfoldable pub store_count : Action ℕ
  store_count = statement >> λ w. (w, ok (instance_count w.db))

  unfoldable pub store_create : Instance → Action Instance
  store_create item =
      statement
      >> (now >>= λ t w. commit w (create_instance w.db (host.uuid t) item (host.clock t)))

  unfoldable pub store_update : Instance → Action Instance
  store_update item =
      statement >> (now >>= λ t w. commit w (update_instance w.db item (host.clock t)))

  unfoldable pub store_delete : ℕ → Action (Unit {0})
  store_delete id = statement >> λ w. commit w (delete_instance w.db id)

  -- Start, Stop, Restart and Disable of the controller
  unfoldable pub failed_unit : Option Text → Action (Unit {0})
  failed_unit none w = (w, ok tt)
  failed_unit (some problem) w = (w, err (unit_failed problem))

  abbrev pub unit_action : Verb → ℕ → Action (Unit {0})
  unit_action verb id = now >>= λ t. failed_unit (host.action t verb id)

  -- Status of the controller, and whether it is an error
  abbrev pub unit_status : ℕ → Action (Status × Bool)
  unit_status id = now >>= λ t. return (host.status t id)

  -- WaitActive
  unfoldable pub outcome_of_wait : Outcome → Action (Unit {0})
  outcome_of_wait active w = (w, ok tt)
  outcome_of_wait entered_failed w = (w, err not_active)
  outcome_of_wait timed_out w = (w, err not_active)
  outcome_of_wait waiting w = (w, err not_active)

  abbrev pub wait_for : ℕ → Action (Unit {0})
  wait_for id = now >>= λ t. outcome_of_wait (wait_active 0 (host.polls t id))

  -- restartErr
  abbrev pub restart_and_wait : ℕ → Action (Unit {0})
  restart_and_wait id = unit_action restart_unit id >> wait_for id

  abbrev pub runs : Status → Bool
  runs status = text_eq status.state (codes "running")

  -- the columns that decorate takes from the token
  unfoldable pub with_expiry : Instance → Option Time → Time → Instance
  with_expiry item none t = item
  with_expiry item (some expires) t = record item {
    auth_token_expires_at = some expires;
    auth_token_expired = leb expires t;
  }

  unfoldable pub with_token : Instance → Result ManagerError Text → Time → Instance
  with_token item (err problem) t = item
  with_token item (ok token) t =
      with_expiry (record item { auth_token_set = not (is_empty token) })
        (auth_token_expiration host token) t

  -- the columns that decorate takes from the unit
  unfoldable pub with_status : Instance → Status → Instance
  with_status item status = record item {
    auth_token = codes "";
    outbound_proxy = codes "";
    status = if is_empty status.state then codes "unknown" else status.state;
    uptime_seconds = status.uptime_seconds;
    process_uptime_seconds = status.process_uptime_seconds;
    uptime_source = status.uptime_source;
    process_uptime_source = status.process_uptime_source;
    started_at = status.started_at;
    observed_at = if status.observed_at == 0 then item.observed_at else some status.observed_at;
    main_pid = status.main_pid;
    restart_count = status.restart_count;
    invocation_id = status.invocation_id;
    network_ingress_bytes = status.ingress_bytes;
    network_egress_bytes = status.egress_bytes;
  }

  -- decorate: the instance, and whether Status was an error
  unfoldable pub decorate_with_error : Instance → Action (Instance × Bool)
  decorate_with_error item = now >>= λ t. unit_status item.id >>= λ answer. return (
    with_status (with_token item (plain_text host item.auth_token) (host.clock t)) answer.0,
    answer.1,
  )

  -- decorate, for a caller that returns its two results: the error carries the instance beside it
  unfoldable pub decorate : Instance → Action Instance
  decorate item = decorate_with_error item >>= λ found.
      if found.1 then fail (status_failed_for found.0) else return found.0
