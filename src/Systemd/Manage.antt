-- ===== src/Systemd/Manage.antt =====
-- internal/systemd/systemd.go: the Manager with its actions, Status and Logs. The commands systemctl
-- and journalctl are a parameter: what they leave of the host and what they print.
use olcrtc_panel_lite.Common.{
  ℕ, Bool, not, ◌||◌, Option, none, some, List, [], ◌∷◌, ◌==◌, if◌then◌else◌, Result, Check, ok,
  err, outside,
}
use olcrtc_panel_lite.Text.{Text, codes, text_eq, is_empty}
use olcrtc_panel_lite.Text.Number.{itoa}
use olcrtc_panel_lite.Model.{Time}
use olcrtc_panel_lite.Systemd.Service.{Status, UnitError, unit, plain_status}
use olcrtc_panel_lite.Systemd.Show.{parse_show, status_from_show}

-- Manager without its lock; `linux` is runtime.GOOS == "linux"
pub record Manager : Type 0 where
  pub enabled : Bool
  pub linux : Bool
  pub states : List (ℕ × Status)

-- a host on which commands run: the new host, and the output of a command that succeeded
pub record Host : Type 1 where
  pub World : Type 0
  pub run : World → List Text → World × Option Text

-- New
unfoldable pub new : Bool → Bool → Manager
new enabled linux = record { enabled = enabled; linux = linux; states = [] }

unfoldable pub is_development : Manager → Bool
is_development m = not m.enabled || not m.linux

-- m.states[id]
unfoldable pub find_state : List (ℕ × Status) → ℕ → Option Status
find_state [] id = none
find_state ((i, s) ∷ rest) id = let later = find_state rest id in if i == id then some s else later

-- the status that the development mode keeps or starts from
unfoldable pub kept_status : Manager → ℕ → Status
kept_status m id = elim (find_state m.states id) [
  | none ↦ plain_status (codes "stopped") (codes "development")
  | some s ↦ s
]

unfoldable pub with_sources : Status → Status
with_sources s =
    if not (text_eq s.state (codes "running"))
    then record s { uptime_source = codes "inactive"; process_uptime_source = codes "inactive" }
    else if is_empty s.uptime_source
    then record s {
      uptime_source = codes "development";
      process_uptime_source = codes "development";
    }
    else s

unfoldable pub development_status : Manager → ℕ → Time → Status
development_status m id observed =
    with_sources (record (kept_status m id) { observed_at = observed })

pub data ManageError : Type 0 where
  bad_unit : UnitError → ManageError
  not_allowed command_failed : ManageError

-- the words of the four actions
unfoldable pub is_start : Text → Bool
is_start verb = text_eq verb (codes "start") || text_eq verb (codes "restart")

unfoldable pub is_stop : Text → Bool
is_stop verb = text_eq verb (codes "stop") || text_eq verb (codes "disable")

-- the switch of the development mode
unfoldable pub development_action : Manager → Text → ℕ → Manager
development_action m verb id =
    if is_start verb
    then record m { states = (id, plain_status (codes "running") (codes "development")) ∷ m.states }
    else if is_stop verb
    then record m { states = (id, plain_status (codes "stopped") (codes "development")) ∷ m.states }
    else m

unfoldable pub shown_properties : Text
shown_properties =
    codes
      "--property=ActiveState,SubState,ActiveEnterTimestampMonotonic,ExecMainStartTimestampMonotonic,ActiveEnterTimestampUSec,ActiveEnterTimestamp,MainPID,NRestarts,InvocationID,IPIngressBytes,IPEgressBytes"

-- the line of systemctl show
unfoldable pub show_command : Text → List Text
show_command name =
    codes "systemctl" ∷ codes "show" ∷ codes "--timestamp=unix" ∷ name ∷ shown_properties ∷ []

-- `if lines < 1 || lines > 2000 { lines = 200 }`
unfoldable pub log_lines : ℕ → ℕ
log_lines lines = if outside 1 2000 lines then 200 else lines

unfoldable pub journal_command : Text → ℕ → List Text
journal_command name lines =
    codes "journalctl"
    ∷ codes "--no-pager"
    ∷ codes "--output=short-iso"
    ∷ codes "--lines"
    ∷ itoa lines
    ∷ codes "--unit"
    ∷ name
    ∷ []

unfoldable pub output_of : {W : Type 0} → W × Option Text → W × Result ManageError Text
output_of (w, none) = (w, err command_failed)
output_of (w, some out) = (w, ok out)

unfoldable pub check_of : {W : Type 0} → W × Option Text → W × Check ManageError
check_of (w, none) = (w, err command_failed)
check_of (w, some out) = (w, ok tt)

-- the status of the output of systemctl show
unfoldable pub shown :
    {W : Type 0} → W × Option Text → Time → ℕ → Bool → W × Result ManageError Status
shown (w, none) observed now monotonic_ok = (w, err command_failed)
shown (w, some out) observed now monotonic_ok =
    (w, ok (status_from_show (parse_show out) now monotonic_ok observed))

module _ (host : Host) where
  -- Status: the state, with the clock readings of the moment
  unfoldable pub status :
      Manager → host.World → ℕ → Time → ℕ → Bool → host.World × Result ManageError Status
  status m w id observed now monotonic_ok =
      if is_development m then (w, ok (development_status m id observed)) else elim (unit id) [
        | err e ↦ (w, err (bad_unit e))
        | ok name ↦ shown (host.run w (show_command name)) observed now monotonic_ok
      ]

  -- reset-failed before a start, whatever it answers
  unfoldable pub reset_failed : host.World → Text → Text → host.World
  reset_failed w verb name =
      if is_start verb
      then (host.run w (codes "systemctl" ∷ codes "reset-failed" ∷ name ∷ [])).0
      else w

  -- the end of action on a host with systemd
  unfoldable pub systemctl_action : host.World → Text → ℕ → host.World × Check ManageError
  systemctl_action w verb id =
      if not (is_start verb || is_stop verb) then (w, err not_allowed) else elim (unit id) [
        | err e ↦ (w, err (bad_unit e))
        | ok name ↦
            check_of (host.run (reset_failed w verb name) (codes "systemctl" ∷ verb ∷ name ∷ []))
      ]

  -- action
  unfoldable pub action :
      Manager → host.World → Text → ℕ → Manager × (host.World × Check ManageError)
  action m w verb id =
      if is_development m
      then (development_action m verb id, (w, ok tt))
      else (m, systemctl_action w verb id)

  -- Start, Stop, Restart, Disable
  unfoldable pub start : Manager → host.World → ℕ → Manager × (host.World × Check ManageError)
  start m w id = action m w (codes "start") id

  unfoldable pub stop : Manager → host.World → ℕ → Manager × (host.World × Check ManageError)
  stop m w id = action m w (codes "stop") id

  unfoldable pub restart : Manager → host.World → ℕ → Manager × (host.World × Check ManageError)
  restart m w id = action m w (codes "restart") id

  unfoldable pub disable : Manager → host.World → ℕ → Manager × (host.World × Check ManageError)
  disable m w id = action m w (codes "disable") id

  -- Logs
  unfoldable pub logs : Manager → host.World → ℕ → ℕ → host.World × Result ManageError Text
  logs m w id lines =
      if is_development m
      then (w, ok (codes "Журнал systemd доступен только на Linux при включённом systemd.\n"))
      else elim (unit id) [
        | err e ↦ (w, err (bad_unit e))
        | ok name ↦ output_of (host.run w (journal_command name (log_lines lines)))
      ]
