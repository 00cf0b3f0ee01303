-- ===== src/Subscription/Lines.antt =====
-- internal/subscription/service.go: safeLine, humanBytes and the lines of a feed.
use olcrtc_panel_lite.Common.{
  ℕ, zero, suc, ◌+◌, ◌*◌, ◌/◌, ◌%◌, Option, none, some, List, [], ◌∷◌, ◌++◌, ltb, if◌then◌else◌,
  slt, sub64, smax,
}
use olcrtc_panel_lite.Text.{Text, codes, is_empty, replace_rune, trim_space, trim_right_rune}
use olcrtc_panel_lite.Text.Number.{itoa}
use olcrtc_panel_lite.Model.{Instance, Subscription, SubscriptionEntry, Time}
use olcrtc_panel_lite.Systemd.Show.{epoch_seconds}

-- safeLine
unfoldable pub safe_line : Text → Text
safe_line value = trim_space (replace_rune 10 (codes " ") (replace_rune 13 (codes " ") value))

-- n / d to the nearest, a half to the even one
unfoldable pub round_half_even : ℕ → ℕ → ℕ
round_half_even n d =
    if ltb (2 * (n % d)) d
    then n / d
    else if ltb d (2 * (n % d))
    then n / d + 1
    else n / d + n / d % 2

-- the least power of two that leaves at most 53 bits of n; 11 rounds are enough below 2 ^ 63
unfoldable pub float_unit : ℕ → ℕ → ℕ → ℕ
float_unit zero d n = d
float_unit (suc fuel) d n =
    let more = float_unit fuel (2 * d) n in if ltb (n / d) 9007199254740992 then d else more

-- float64(n) of a number that is not negative
unfoldable pub to_float : ℕ → ℕ
to_float n = let d = float_unit 11 1 n in round_half_even n d * d

-- the unit in which n is printed, of the first five; divisions by 1024 are exact
unfoldable pub unit_from : List Text → ℕ → ℕ → Text × ℕ
unit_from [] d n = (codes "pb", d)
unit_from (u ∷ units) d n =
    let more = unit_from units (1024 * d) n in if ltb n (1024 * d) then (u, d) else more

abbrev pub units : List Text
units = codes "b" ∷ codes "kb" ∷ codes "mb" ∷ codes "gb" ∷ codes "tb" ∷ []

-- fmt.Sprintf("%.2f", n / 100)
unfoldable pub two_decimals : ℕ → Text
two_decimals n = itoa (n / 100) ++ (b'.' ∷ (b'0' + n / 10 % 10) ∷ (b'0' + n % 10) ∷ [])

unfoldable pub scaled : Text × ℕ → ℕ → Text
scaled (u, d) n =
    trim_right_rune (trim_right_rune (two_decimals (round_half_even (n * 100) d)) b'0') b'.' ++ u

-- humanBytes
unfoldable pub human_bytes : ℕ → Text
human_bytes value =
    if slt value 0
    then itoa value ++ codes "b"
    else if ltb (to_float value) 1024
    then itoa value ++ codes "b"
    else scaled (unit_from units 1 (to_float value)) (to_float value)

-- a line that is left out when its value is empty
unfoldable pub line_if : Text → Text → List Text
line_if label value = if is_empty value then [] else (label ++ safe_line value) ∷ []

-- the name of an entry, or of its instance
unfoldable pub entry_name : SubscriptionEntry → Option Instance → Text
entry_name entry none = entry.name
entry_name entry (some item) = if is_empty entry.name then item.name else entry.name

unfoldable pub bytes_if : Text → Option ℕ → List Text
bytes_if label none = []
bytes_if label (some n) = (label ++ human_bytes n) ∷ []

-- max(item.QuotaBytes-item.TotalBytes, 0)
unfoldable pub left_of : Instance → ℕ
left_of item = smax (sub64 item.quota_bytes item.total_bytes) 0

-- the traffic of an entry
unfoldable pub traffic_lines : SubscriptionEntry → Option Instance → List Text
traffic_lines entry none =
    bytes_if (codes "##used: ") entry.manual_used
    ++ bytes_if (codes "##available: ") entry.manual_available
traffic_lines entry (some item) =
    if slt 0 item.quota_bytes
    then (codes "##used: "
        ++ (human_bytes item.total_bytes ++ (b'/' ∷ human_bytes item.quota_bytes)))
      ∷ (codes "##available: " ++ human_bytes (left_of item))
      ∷ []
    else (codes "##used: " ++ human_bytes item.total_bytes) ∷ codes "##available: unlimited" ∷ []

-- appendEntryMetadata
unfoldable pub entry_metadata : SubscriptionEntry → Option Instance → List Text
entry_metadata entry source =
    line_if (codes "##name: ") (entry_name entry source)
    ++ (line_if (codes "##color: ") entry.color
        ++ (line_if (codes "##icon: ") entry.icon
            ++ (line_if (codes "##ip: ") entry.ip
                ++ (line_if (codes "##comment: ") entry.comment ++ traffic_lines entry source))))

-- t.Unix()
unfoldable pub unix_of : Time → ℕ
unix_of t = sub64 (t / 1000000000) epoch_seconds

-- the first lines of a feed
unfoldable pub header_lines : Subscription → List Text
header_lines sub =
    (codes "#name: " ++ safe_line sub.name)
    ∷ (codes "#update: " ++ itoa (unix_of sub.updated_at))
    ∷ (codes "#refresh: " ++ safe_line sub.refresh_interval)
    ∷ (line_if (codes "#color: ") sub.color ++ line_if (codes "#icon: ") sub.icon)

-- the lines of the totals
unfoldable pub total_lines : ℕ → Option ℕ → List Text
total_lines used none = (codes "#used: " ++ human_bytes used) ∷ codes "#available: unlimited" ∷ []
total_lines used (some available) =
    (codes "#used: " ++ human_bytes used) ∷ (codes "#available: " ++ human_bytes available) ∷ []
