-- ===== src/Systemd/Service.antt =====
-- internal/systemd/systemd.go: Status, unit and mapState.
use olcrtc_panel_lite.Common.{ℕ, Option, none, ◌++◌, if◌then◌else◌, Result, ok, err, slt, any}
use olcrtc_panel_lite.Text.{Text, codes, text_eq}
use olcrtc_panel_lite.Text.Number.{itoa}
use olcrtc_panel_lite.Instance.Config.Defaults.{is_not_digit}
use olcrtc_panel_lite.Model.{Time}

-- Status
pub record Status : Type 0 where
  pub state : Text
  pub sub_state : Text
  pub uptime_seconds : ℕ
  pub process_uptime_seconds : ℕ
  pub uptime_source : Text
  pub process_uptime_source : Text
  pub started_at : Option Time
  pub observed_at : Time
  pub main_pid : ℕ
  pub restart_count : ℕ
  pub invocation_id : Text
  pub ingress_bytes : ℕ
  pub egress_bytes : ℕ

-- Status{State: state, SubState: sub_state}
abbrev pub plain_status : Text → Text → Status
plain_status state sub_state = record {
  state = state;
  sub_state = sub_state;
  uptime_seconds = 0;
  process_uptime_seconds = 0;
  uptime_source = codes "";
  process_uptime_source = codes "";
  started_at = none;
  observed_at = 0;
  main_pid = 0;
  restart_count = 0;
  invocation_id = codes "";
  ingress_bytes = 0;
  egress_bytes = 0;
}

pub data UnitError : Type 0 where
  id_not_positive invalid_id : UnitError

-- unit
unfoldable pub unit : ℕ → Result UnitError Text
unit id =
    if slt id 1
    then err id_not_positive
    else if any is_not_digit (itoa id)
    then err invalid_id
    else ok (codes "olcrtc-instance@" ++ (itoa id ++ codes ".service"))

-- mapState
unfoldable pub map_state : Text → Text
map_state active =
    if text_eq active (codes "active")
    then codes "running"
    else if text_eq active (codes "inactive")
    then codes "stopped"
    else if text_eq active (codes "activating")
    then codes "starting"
    else if text_eq active (codes "deactivating")
    then codes "stopping"
    else if text_eq active (codes "failed")
    then codes "failed"
    else codes "unknown"
