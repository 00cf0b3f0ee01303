-- ===== src/Tests/Services.antt =====
-- Sample runs for internal/systemd/systemd.go.
use olcrtc_panel_lite.Common.{
  ℕ, ◌≡◌, ◌≤◌, ◌*◌, refl, arith, List, [], ◌∷◌, Option, some, true, false, All,
}
use olcrtc_panel_lite.Text.{Text, codes, text_eq, cut}
use olcrtc_panel_lite.Text.Number.{parse_int, parse_uint, scan}
use olcrtc_panel_lite.Systemd.Show.{
  status_from_show, parse_unix_seconds_micros, seconds_and_fraction, parsed_positive, parsed_number,
  six_digits, micros_of, sdiv64, mul64,
}
use olcrtc_panel_lite.Systemd.Manage.{new, action}
use olcrtc_panel_lite.Systemd.Wait.{Poll, active, wait_active, is_stable, is_running, running_since}
use olcrtc_panel_lite.Systemd.Unit.{unit-injective}
use olcrtc_panel_lite.Systemd.Control.{Fixed, recorder, action-Fixed}
use olcrtc_panel_lite.Systemd.Uptime.{
  Micros, parse_unix_seconds_micros-Micros, process_uptime_bound,
}
use olcrtc_panel_lite.Systemd.Streak.{Stable, wait_active-Stable}

unit-injective_example : ◌≡◌ {A = ℕ} 7 7
unit-injective_example =
    unit-injective 7 7 (omega arith) (omega arith) (omega arith) (omega arith) refl

-- a host on which every command prints "active"
abbrev answers : List Text → Option Text
answers command = some (codes "ActiveState=active")

action-Fixed_example :
    All (Fixed 7) ((action (recorder answers) (new true true) [] (codes "restart") 7).1.0)
action-Fixed_example = action-Fixed answers (new true true) (codes "restart") 7

half_second : parse_unix_seconds_micros (codes "12.5") ≡ some 12500000
unfolding parse_unix_seconds_micros seconds_and_fraction cut parsed_positive parsed_number
    six_digits micros_of sdiv64 mul64 parse_int parse_uint scan
half_second = refl

parse_unix_seconds_micros-Micros_example : Micros (codes "12.5") 12500000
parse_unix_seconds_micros-Micros_example =
    parse_unix_seconds_micros-Micros (codes "12.5") 12500000 half_second

process_uptime_bound_example :
    (status_from_show
        ((codes "ActiveState", codes "active")
          ∷ (codes "MainPID", codes "5")
          ∷ (codes "ExecMainStartTimestampMonotonic", codes "1000000")
          ∷ [])
        9000000
        true
        0).process_uptime_seconds
      * 1000000
    ≤ 9000000
process_uptime_bound_example =
    process_uptime_bound
      ((codes "ActiveState", codes "active")
        ∷ (codes "MainPID", codes "5")
        ∷ (codes "ExecMainStartTimestampMonotonic", codes "1000000")
        ∷ [])
      9000000 true 0 (omega arith)

-- polls at 0, 0.6 and 1.2 seconds; the instance starts after the first
abbrev polls : List Poll
polls =
    record {
      failed = false;
      state = codes "starting";
      marked = 1000000000;
      checked = 1000000000;
      expired = false;
    }
    ∷ record {
      failed = false;
      state = codes "running";
      marked = 1600000000;
      checked = 1600000000;
      expired = false;
    }
    ∷ record {
      failed = false;
      state = codes "running";
      marked = 2700000000;
      checked = 2700000000;
      expired = true;
    }
    ∷ []

polls_end : wait_active 0 polls ≡ active
unfolding wait_active is_stable is_running running_since text_eq
polls_end = refl

wait_active-Stable_example : Stable polls
wait_active-Stable_example = wait_active-Stable polls polls_end
