-- ===== src/Text/Number.antt =====
-- strconv on decimal texts: Itoa, ParseUint and ParseInt with base 10 and 64 bits.
use native.Mathlib.Nat.{pow-suc}
use olcrtc_panel_lite.Common.{
  ◌⊎◌, inl, inr, ℕ, zero, suc, ◌+◌, ◌-◌, ◌*◌, ◌/◌, ◌%◌, ◌^◌, ◌≤◌, ◌<◌, ◌≡◌, ◌≢◌, refl, All-mono, [],
  ◌∷◌, arith, ◌==◌, ◌||◌, ltb, if◌then◌else◌, All, Bool-cases, inl, inr, ◌∙◌, refl, two_63, two_64,
}
use olcrtc_panel_lite.Text.{Text}

-- a number, or one of the two errors of strconv
pub data Parsed : Type 0 where
  number : ℕ → Parsed
  syntax out_of_range : Parsed

-- the digits of n before `out`; 20 rounds are enough for a uint64
unfoldable pub digits : ℕ → ℕ → Text → Text
digits zero n out = out
digits (suc fuel) n out =
    let more = digits fuel (n / 10) ((b'0' + n % 10) ∷ out) in
    if ltb n 10 then (b'0' + n) ∷ out else more

unfoldable pub format_uint : ℕ → Text
unfolding digits
format_uint n = digits 20 n []

-- strconv.Itoa, strconv.FormatInt
unfoldable pub itoa : ℕ → Text
unfolding format_uint
itoa n = if ltb n two_63 then format_uint n else b'-' ∷ format_uint (two_64 - n)

unfoldable pub scan : Text → ℕ → Parsed
scan [] n = number n
scan (c ∷ s) n =
    if ltb c b'0' || ltb b'9' c
    then syntax
    else if ltb (two_64 - 1) (n * 10 + (c - b'0'))
    then out_of_range
    else scan s (n * 10 + (c - b'0'))

unfoldable pub parse_uint : Text → Parsed
unfolding scan
parse_uint [] = syntax
parse_uint (c ∷ s) = scan (c ∷ s) 0

-- the cut-off at 2 ^ 63 after the sign
abbrev signed_plus : Parsed → Parsed
signed_plus (number n) = if ltb n two_63 then number n else out_of_range
signed_plus e = e

abbrev signed_minus : Parsed → Parsed
signed_minus (number n) = if ltb two_63 n then out_of_range else number ((two_64 - n) % two_64)
signed_minus e = e

-- strconv.ParseInt(s, 10, 64), strconv.Atoi
unfoldable pub parse_int : Text → Parsed
unfolding parse_uint
parse_int [] = syntax
parse_int (c ∷ s) =
    if c == b'+'
    then signed_plus (parse_uint s)
    else if c == b'-'
    then signed_minus (parse_uint s)
    else signed_plus (parse_uint (c ∷ s))

-- the value that Go returns beside an error: 0, or the nearest value in range
unfoldable pub parse_uint_value : Text → ℕ
parse_uint_value s = elim (parse_uint s) [ number n ↦ n | syntax ↦ 0 | out_of_range ↦ two_64 - 1 ]

unfoldable pub parse_int_value : Text → ℕ
parse_int_value [] = 0
parse_int_value (c ∷ s) = elim (parse_int (c ∷ s)) [
  | number n ↦ n
  | syntax ↦ 0
  | out_of_range ↦ if c == b'-' then two_63 else two_63 - 1
]

abbrev pub IsDigit : ℕ → Type 0
IsDigit c = (b'0' ≤ c) × (c ≤ b'9')

scan_digit : (n : ℕ) (out : Text) → n < two_64 → scan ((b'0' + n % 10) ∷ out) (n / 10) ≡ scan out n
unfolding scan
scan_digit n out h = ground arith

scan_first : (n : ℕ) (out : Text) → n < 10 → scan ((b'0' + n) ∷ out) 0 ≡ scan out n
unfolding scan
scan_first n out h = ground arith

tenth_bound : (fuel n : ℕ) → n < 10 ^ suc fuel → n / 10 < 10 ^ fuel
tenth_bound fuel n h = let h' : n < 10 ^ fuel * 10 = rw (← pow-suc 10 fuel) h in omega arith

scan-digits :
    (fuel n : ℕ) (out : Text) → n < 10 ^ fuel → n < two_64 → scan (digits fuel n out) 0 ≡ scan out n
unfolding digits
scan-digits zero n out h k = unfold scan in ground arith
scan-digits (suc fuel) n out h k = elim (Bool-cases (ltb n 10)) [
  | inl small ↦ rw small (scan_first n out (ground arith))
  | inr large ↦ rw large (
      scan-digits fuel (n / 10) ((b'0' + n % 10) ∷ out) (tenth_bound fuel n h) (omega arith)
      ∙ scan_digit n out k)
]

digits-IsDigit : (fuel n : ℕ) (out : Text) → All IsDigit out → All IsDigit (digits fuel n out)
unfolding digits
digits-IsDigit zero n out h = h
digits-IsDigit (suc fuel) n out h =
    ground (arith, digits-IsDigit fuel (n / 10) ((b'0' + n % 10) ∷ out))

-- the digits of n with at least one in front
digits-ne-nil : (fuel n : ℕ) (out : Text) → out ≢ [] → digits fuel n out ≢ []
unfolding digits
digits-ne-nil zero n out h = h
digits-ne-nil (suc fuel) n out h =
    ground (arith, digits-ne-nil fuel (n / 10) ((b'0' + n % 10) ∷ out))

pub format_uint-IsDigit : (n : ℕ) → All IsDigit (format_uint n)
unfolding format_uint
format_uint-IsDigit n = digits-IsDigit 20 n [] tt

format_uint-ne-nil : (n : ℕ) → format_uint n ≢ []
unfolding format_uint
format_uint-ne-nil n = ground (arith, digits-ne-nil 19 (n / 10) ((b'0' + n % 10) ∷ []))

pub itoa-ne-nil : (n : ℕ) → itoa n ≢ []
unfolding itoa
itoa-ne-nil n = ground (arith, format_uint-ne-nil n)

parse_uint-scan : (s : Text) → s ≢ [] → parse_uint s ≡ scan s 0
unfolding parse_uint
parse_uint-scan [] h = absurd (h refl)
parse_uint-scan (c ∷ s) h = refl

pub parse_uint-format_uint : (n : ℕ) → n < two_64 → parse_uint (format_uint n) ≡ number n
parse_uint-format_uint n h =
    rw (parse_uint-scan _ (format_uint-ne-nil n))
      (unfold format_uint scan in scan-digits 20 n [] (omega arith) h)

-- the first character of a list of digits is no sign
parse_int_digits : (s : Text) → s ≢ [] → All IsDigit s → parse_int s ≡ signed_plus (parse_uint s)
unfolding parse_int
parse_int_digits [] h k = absurd (h refl)
parse_int_digits (c ∷ s) h k = ground arith

-- A signed 64-bit number is read back from its decimal print.
pub parse_int-itoa : (n : ℕ) → n < two_64 → parse_int (itoa n) ≡ number n
unfolding itoa
parse_int-itoa n h = elim (Bool-cases (ltb n two_63)) [
  | inl small ↦ rw small (
      rw (parse_int_digits _ (format_uint-ne-nil n) (format_uint-IsDigit n))
        (rw (parse_uint-format_uint n h) (rw small)))
  | inr large ↦
      rw large
        (unfold parse_int in rw (parse_uint-format_uint (two_64 - n) (ground arith)) (ground arith))
]

-- A property of `-` and of the digits holds of a printed number.
pub itoa-digits : (P : ℕ → Type 0) → P b'-' → ((c : ℕ) → IsDigit c → P c) → (n : ℕ) → All P (itoa n)
unfolding itoa
itoa-digits P minus digit n = elim (Bool-cases (ltb n two_63)) [
  | inl e ↦ rw (e, All) (All-mono (format_uint n) digit (format_uint-IsDigit n))
  | inr e ↦
      rw (e, All)
        (minus, All-mono (format_uint (two_64 - n)) digit (format_uint-IsDigit (two_64 - n)))
]

scan_bound : (s : Text) (m n : ℕ) → m < two_64 → scan s m ≡ number n → n < two_64
unfolding scan
scan_bound [] m n h e = let r : m ≡ n = cc in rw (← r) h
scan_bound (c ∷ s) m n h e = ground (arith, scan_bound s (m * 10 + (c - b'0')) n)

pub parse_uint_bound : (s : Text) (n : ℕ) → parse_uint s ≡ number n → n < two_64
unfolding parse_uint
parse_uint_bound [] n h = cc
parse_uint_bound (c ∷ s) n h = scan_bound (c ∷ s) 0 n (omega arith) h

pub parse_int_bound : (s : Text) (n : ℕ) → parse_int s ≡ number n → n < two_64
unfolding parse_int
parse_int_bound [] n h = cc
parse_int_bound (c ∷ s) n h = ground (arith, parse_uint_bound s, parse_uint_bound (c ∷ s))

pub Parsed-cases : (r : Parsed) → ((n : ℕ) × (r ≡ number n)) ⊎ ((r ≡ syntax) ⊎ (r ≡ out_of_range))
Parsed-cases (number n) = inl (n, refl)
Parsed-cases syntax = inr (inl refl)
Parsed-cases out_of_range = inr (inr refl)
