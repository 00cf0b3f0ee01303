-- ===== src/Systemd/Show.antt =====
-- internal/systemd/systemd.go: ParseShow, the readers of its time stamps, and statusFromShow.
-- The lines of systemctl are below the 64 KiB that a bufio.Scanner takes.
use olcrtc_panel_lite.Common.{
  ℕ, ◌+◌, ◌-◌, ◌*◌, ◌/◌, ◌%◌, Bool, not, ◌||◌, Option, none, some, List, [], ◌∷◌, ◌++◌, leb, ◌==◌,
  if◌then◌else◌, take, map, slt, sub64, two_63, two_64, min,
}
use olcrtc_panel_lite.Text.{
  Text, codes, text_eq, cut, split, trim_space, has_prefix, trim_prefix, trim_suffix_rune,
}
use olcrtc_panel_lite.Text.Number.{
  Parsed, number, syntax, out_of_range, parse_uint, parse_int, parse_uint_value, parse_int_value,
}
use olcrtc_panel_lite.Model.{Time}
use olcrtc_panel_lite.Systemd.Service.{Status, plain_status, map_state}

abbrev pub Values : Type 0
Values = List (Text × Text)

-- values[key] = value
unfoldable pub put_line : Values → Text → Values
put_line values line = elim (cut line b'=') [
  | none ↦ values
  | some (key, value) ↦ (key, value) ∷ values
]

unfoldable pub put_lines : Values → List Text → Values
put_lines values [] = values
put_lines values (line ∷ lines) = put_lines (put_line values line) lines

-- bufio.ScanLines: the lines without their ends, and no empty line behind the last end
unfoldable pub drop_last_empty : List Text → List Text
drop_last_empty [] = []
drop_last_empty ([] ∷ []) = []
drop_last_empty ((c ∷ s) ∷ []) = (c ∷ s) ∷ []
drop_last_empty (l ∷ m ∷ ls) = l ∷ drop_last_empty (m ∷ ls)

unfoldable pub scan_lines : Text → List Text
scan_lines input = map (λ l. trim_suffix_rune l 13) (drop_last_empty (split input 10))

-- ParseShow
unfoldable pub parse_show : Text → Values
parse_show input = put_lines [] (scan_lines input)

-- values[key], "" where it is missing
unfoldable pub value_of : Values → Text → Text
value_of [] key = []
value_of ((k, v) ∷ rest) key = let later = value_of rest key in if text_eq k key then v else later

-- elapsedMonotonicMicros
unfoldable pub elapsed_monotonic_micros : Text → ℕ → Option ℕ
elapsed_monotonic_micros started now = elim (parse_uint (trim_space started)) [
  | number start ↦ if (start == 0) || leb now start then none else some (sub64 now start)
  | syntax ↦ none
  | out_of_range ↦ none
]

-- elapsedMonotonic
unfoldable pub elapsed_monotonic : Text → ℕ → ℕ
elapsed_monotonic started now = elim (elapsed_monotonic_micros started now) [
  | none ↦ 0
  | some elapsed ↦ elapsed / 1000000
]

-- a / b for a signed a and a positive b
unfoldable pub sdiv64 : ℕ → ℕ → ℕ
sdiv64 a b = if slt a 0 then (two_64 - (two_64 - a) / b) % two_64 else a / b

-- a * b on 64 bits
unfoldable pub mul64 : ℕ → ℕ → ℕ
mul64 a b = (a * b) % two_64

-- the six digits of a fraction of a second
unfoldable pub six_digits : Text → Text
six_digits fraction = take 6 (fraction ++ codes "000000")

unfoldable pub seconds_and_fraction : Text → Text × Text
seconds_and_fraction value = elim (cut value b'.') [
  | none ↦ (value, [])
  | some (seconds, fraction) ↦ (seconds, fraction)
]

-- the end of parseUnixSecondsMicros: the bound that keeps the sum in an int64
unfoldable pub micros_of : ℕ → ℕ → Option ℕ
micros_of seconds fraction =
    if slt (sdiv64 (sub64 (two_63 - 1) fraction) 1000000) seconds
    then none
    else some ((mul64 seconds 1000000 + fraction) % two_64)

-- a number without an error of strconv
unfoldable pub parsed_number : Parsed → Option ℕ
parsed_number (number n) = some n
parsed_number syntax = none
parsed_number out_of_range = none

unfoldable pub parsed_positive : Parsed → Option ℕ
parsed_positive (number n) = if slt 0 n then some n else none
parsed_positive syntax = none
parsed_positive out_of_range = none

-- parseUnixSecondsMicros
unfoldable pub parse_unix_seconds_micros : Text → Option ℕ
parse_unix_seconds_micros value =
    let parts = seconds_and_fraction value in
    elim (parsed_positive (parse_int (parts.0))) [
      | none ↦ none
      | some seconds ↦ elim (parsed_number (parse_int (six_digits (parts.1)))) [
        | none ↦ none
        | some fraction ↦ micros_of seconds fraction
      ]
    ]

-- the Unix epoch in seconds since the year 1
abbrev pub epoch_seconds : ℕ
epoch_seconds = 62135596800

-- time.Unix(s, 0) and time.UnixMicro(m) of numbers that are not negative
unfoldable pub unix : ℕ → Time
unix s = (epoch_seconds + s) * 1000000000

unfoldable pub unix_micro : ℕ → Time
unix_micro m = (epoch_seconds * 1000000 + m) * 1000

unfoldable pub stamp_of_integer : Text → Option Time
stamp_of_integer value = elim (parse_int value) [
  | number n ↦
      if slt 0 n then (if slt n 100000000000 then some (unix n) else some (unix_micro n)) else none
  | syntax ↦ none
  | out_of_range ↦ none
]

-- one round of systemdTimestampUSec
unfoldable pub stamp_of : Text → Option Time
stamp_of value =
    if has_prefix value (codes "@")
    then elim (parse_unix_seconds_micros (trim_prefix value (codes "@"))) [
      | some micros ↦ some (unix_micro micros)
      | none ↦ stamp_of_integer value
    ]
    else stamp_of_integer value

-- systemdTimestampUSec
unfoldable pub systemd_timestamp_usec : List Text → Option Time
systemd_timestamp_usec [] = none
systemd_timestamp_usec (value ∷ values) = elim (stamp_of (trim_space value)) [
  | some t ↦ some t
  | none ↦ systemd_timestamp_usec values
]

-- elapsedWallClock; the difference of two times stops at the largest time.Duration
unfoldable pub elapsed_wall_clock : Time → Time → ℕ
elapsed_wall_clock started observed =
    if (started == 0) || leb observed started
    then 0
    else min (observed - started) (two_63 - 1) / 1000000000

-- t.Add(d) for a signed d, with the zero time as the least
unfoldable pub add_duration : Time → ℕ → Time
add_duration t d = if slt d 0 then t - (two_64 - d) else t + d

-- the block under `if monotonicOK` for the service, then for its process
unfoldable pub with_service_uptime : Values → ℕ → Status → Status
with_service_uptime values now status =
    elim (elapsed_monotonic_micros (value_of values (codes "ActiveEnterTimestampMonotonic")) now) [
      | none ↦ status
      | some elapsed ↦ record status {
        uptime_seconds = elapsed / 1000000;
        started_at = some (add_duration status.observed_at (mul64 (sub64 0 elapsed) 1000));
        uptime_source = codes "active_enter_monotonic";
      }
    ]

unfoldable pub with_process_uptime : Values → ℕ → Status → Status
with_process_uptime values now status =
    elim (elapsed_monotonic_micros (value_of values (codes "ExecMainStartTimestampMonotonic"))
      now) [
        | none ↦ status
        | some elapsed ↦
            if slt 0 status.main_pid
            then record status {
              process_uptime_seconds = elapsed / 1000000;
              process_uptime_source = codes "exec_main_start_monotonic";
            }
            else status
      ]

-- the wall clock, where the monotonic one gave nothing
unfoldable pub with_wall_clock : Values → Status → Status
with_wall_clock values status =
    if text_eq status.uptime_source (codes "unavailable")
    then elim (systemd_timestamp_usec (
        value_of values (codes "ActiveEnterTimestampUSec")
        ∷ value_of values (codes "ActiveEnterTimestamp")
        ∷ [])) [
          | none ↦ status
          | some started ↦ record status {
            started_at = some started;
            uptime_seconds = elapsed_wall_clock started status.observed_at;
            uptime_source = codes "active_enter_usec";
          }
        ]
    else status

-- the fields that statusFromShow sets in every state
unfoldable pub shown_status : Values → Time → Status
shown_status values observed = record (plain_status (codes "unknown") (codes "")) {
  state = map_state (value_of values (codes "ActiveState"));
  sub_state = value_of values (codes "SubState");
  observed_at = observed;
  uptime_source = codes "unavailable";
  process_uptime_source = codes "unavailable";
  main_pid = parse_int_value (trim_space (value_of values (codes "MainPID")));
  restart_count = parse_uint_value (trim_space (value_of values (codes "NRestarts")));
  invocation_id = trim_space (value_of values (codes "InvocationID"));
  ingress_bytes = parse_int_value (value_of values (codes "IPIngressBytes"));
  egress_bytes = parse_int_value (value_of values (codes "IPEgressBytes"));
}

unfoldable pub inactive : Status → Status
inactive status = record status {
  uptime_source = codes "inactive";
  process_uptime_source = codes "inactive";
}

unfoldable pub running_status : Values → ℕ → Bool → Status → Status
running_status values now monotonic_ok status = with_wall_clock values (
    if monotonic_ok
    then with_process_uptime values now (with_service_uptime values now status)
    else status)

-- statusFromShow
unfoldable pub status_from_show : Values → ℕ → Bool → Time → Status
status_from_show values now monotonic_ok observed =
    let status = shown_status values observed in
    if not (text_eq status.state (codes "running"))
    then inactive status
    else running_status values now monotonic_ok status
