-- ===== src/Systemd/Uptime.antt =====
-- internal/systemd/systemd.go: bounds of the times that are read from systemctl.
use olcrtc_panel_lite.Common.{
  ℕ, ◌+◌, ◌*◌, ◌≤◌, ◌<◌, ◌≡◌, ap, Bool, true, false, some, Bool-cases, Option-cases, inl, inr,
  arith, slt, two_63, two_64,
}
use olcrtc_panel_lite.Text.{Text, codes, text_eq, trim_space}
use olcrtc_panel_lite.Text.Number.{
  Parsed, number, syntax, out_of_range, parse_int, parse_int_bound, parse_uint_bound,
}
use olcrtc_panel_lite.Model.{Time}
use olcrtc_panel_lite.Systemd.Service.{Status}
use olcrtc_panel_lite.Systemd.Show.{
  Values, value_of, elapsed_monotonic_micros, sdiv64, mul64, six_digits, seconds_and_fraction,
  micros_of, parsed_number, parsed_positive, parse_unix_seconds_micros, with_service_uptime,
  with_process_uptime, with_wall_clock, shown_status, inactive, running_status, status_from_show,
}

-- the sum that micros_of returns is exact
micros_of_exact :
    (s f m : ℕ)
    → 1 ≤ s
    → s < two_63
    → f < two_64
    → micros_of s f ≡ some m
    → (m ≡ s * 1000000 + f) × (m < two_63)
unfolding micros_of sdiv64 mul64
micros_of_exact s f m ls hs hf h = (ground arith, ground arith)

parsed_positive_lem :
    (r : Parsed) (s : ℕ) → parsed_positive r ≡ some s → (r ≡ number s) × (slt 0 s ≡ true)
unfolding parsed_positive
parsed_positive_lem (number n) s h = elim (Bool-cases (slt 0 n)) [
  | inl e ↦ let r : n ≡ s = ground arith in (ap number r, rw (← r) e)
  | inr e ↦ absurd (ground arith)
]
parsed_positive_lem syntax s h = cc
parsed_positive_lem out_of_range s h = cc

parsed_number_lem : (r : Parsed) (f : ℕ) → parsed_number r ≡ some f → r ≡ number f
unfolding parsed_number
parsed_number_lem (number n) f h = cc
parsed_number_lem syntax f h = cc
parsed_number_lem out_of_range f h = cc

-- the parts that parseUnixSecondsMicros found
pub data Micros (value : Text) (m : ℕ) : Type 0 where
  micros :
      (s f : ℕ)
      → parse_int ((seconds_and_fraction value).0) ≡ number s
      → parse_int (six_digits ((seconds_and_fraction value).1)) ≡ number f
      → 1 ≤ s
      → m ≡ s * 1000000 + f
      → m < two_63
      → Micros value m

-- When parseUnixSecondsMicros accepts a text, its result is the exact sum of the microseconds of the
-- positive seconds before the point and of the six digits behind it, and fits in an int64.
pub parse_unix_seconds_micros-Micros :
    (value : Text) (m : ℕ) → parse_unix_seconds_micros value ≡ some m → Micros value m
unfolding parse_unix_seconds_micros
parse_unix_seconds_micros-Micros value m h =
    let ps = parse_int ((seconds_and_fraction value).0) in
    let pf = parse_int (six_digits ((seconds_and_fraction value).1)) in
    elim (Option-cases (parsed_positive ps)) [
      | inl e ↦ absurd (ground arith)
      | inr (s, e) ↦ elim (Option-cases (parsed_number pf)) [
        | inl g ↦ absurd (ground arith)
        | inr (f, g) ↦
            let es = parsed_positive_lem ps s e in
            let ef = parsed_number_lem pf f g in
            let bs : s < two_64 = parse_int_bound _ s es.0 in
            let x =
              micros_of_exact s f m (ground arith) (ground arith) (parse_int_bound _ f ef)
                (ground arith) in
            micros s f es.0 ef (ground arith) x.0 x.1
      ]
    ]

elapsed_bound :
    (started : Text) (now e : ℕ)
    → now < two_64
    → elapsed_monotonic_micros started now ≡ some e
    → e ≤ now
unfolding elapsed_monotonic_micros
elapsed_bound started now e hn h = ground (arith, parse_uint_bound (trim_space started))

-- the times of a status are those of an inactive service, or come from the clock reading `now`
abbrev Within : ℕ → Status → Type 0
Within now s = s.process_uptime_seconds * 1000000 ≤ now

shown_Within :
    (values : Values) (now : ℕ) (observed : Time) → Within now (shown_status values observed)
unfolding shown_status
shown_Within values now observed = omega arith

service_Within :
    (values : Values) (now : ℕ) (s : Status)
    → Within now s
    → Within now (with_service_uptime values now s)
unfolding with_service_uptime
service_Within values now s h =
    elim (Option-cases
      (elapsed_monotonic_micros (value_of values (codes "ActiveEnterTimestampMonotonic")) now)) [
        | inl e ↦ rw (e, with_service_uptime) h
        | inr (d, e) ↦ rw (e, with_service_uptime) h
      ]

process_Within :
    (values : Values) (now : ℕ) (s : Status)
    → now < two_64
    → Within now s
    → Within now (with_process_uptime values now s)
unfolding with_process_uptime
process_Within values now s hn h =
    let started = value_of values (codes "ExecMainStartTimestampMonotonic") in
    elim (Option-cases (elapsed_monotonic_micros started now)) [
      | inl e ↦ rw (e, with_process_uptime) h
      | inr (d, e) ↦
          let b : d ≤ now = elapsed_bound started now d hn e in
          rw (e, with_process_uptime)
            (elim (Bool-cases (slt 0 s.main_pid)) [
              | inl g ↦ rw (g, with_process_uptime) (omega arith)
              | inr g ↦ rw (g, with_process_uptime) h
            ])
    ]

wall_Within :
    (values : Values) (now : ℕ) (s : Status) → Within now s → Within now (with_wall_clock values s)
unfolding with_wall_clock
wall_Within values now s h = ground arith

running_Within :
    (values : Values) (now : ℕ) (monotonic_ok : Bool) (s : Status)
    → now < two_64
    → Within now s
    → Within now (running_status values now monotonic_ok s)
unfolding running_status
running_Within values now true s hn h =
    wall_Within values now _ (process_Within values now _ hn (service_Within values now s h))
running_Within values now false s hn h = wall_Within values now s h

-- The process uptime that statusFromShow reports, in whatever state and from whatever systemctl
-- printed, is never longer than the monotonic clock has run.
pub process_uptime_bound :
    (values : Values) (now : ℕ) (monotonic_ok : Bool) (observed : Time)
    → now < two_64
    → (status_from_show values now monotonic_ok observed).process_uptime_seconds * 1000000 ≤ now
unfolding status_from_show inactive
process_uptime_bound values now monotonic_ok observed hn =
    let s = shown_status values observed in
    elim (Bool-cases (text_eq s.state (codes "running"))) [
      | inl e ↦
          rw e (running_Within values now monotonic_ok s hn (shown_Within values now observed))
      | inr e ↦ rw e (shown_Within values now observed)
    ]
