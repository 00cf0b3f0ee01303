-- ===== src/Common/Word.antt =====
-- Go's int and int64 as 64-bit patterns: a negative n is 2 ^ 64 - n. Sums and differences wrap,
-- and an order compares the patterns with the sign bit flipped.
use Prim.Native.Nat.{ℕ, ◌+◌, ◌-◌, ◌%◌, ◌<◌, ◌≤◌}
use mathlib.Core.Path.{◌≡◌}
use mathlib.Core.Bool.{Bool, true, false}
use native.Mathlib.Omega.{arith}
use olcrtc_panel_lite.Common.Tests.{ltb, if◌then◌else◌}

abbrev pub two_63 : ℕ
two_63 = 9223372036854775808

abbrev pub two_64 : ℕ
two_64 = 18446744073709551616

abbrev pub add64 : ℕ → ℕ → ℕ
add64 a b = (a + b) % two_64

abbrev pub sub64 : ℕ → ℕ → ℕ
sub64 a b = (a + two_64 - b) % two_64

-- a < b as signed integers
abbrev pub slt : ℕ → ℕ → Bool
slt a b = ltb ((a + two_63) % two_64) ((b + two_63) % two_64)

-- max(a, b) as signed integers
abbrev pub smax : ℕ → ℕ → ℕ
smax a b = if slt a b then b else a

-- x < lo || x > hi, as signed integers
abbrev pub outside : ℕ → ℕ → ℕ → Bool
outside lo hi x = if slt x lo then true else slt hi x

pub slt_nonneg : (a b : ℕ) → a < two_63 → b < two_63 → slt a b ≡ ltb a b
slt_nonneg a b ha hb = ground arith

pub outside-range :
    (lo hi x : ℕ)
    → x < two_64
    → lo < two_63
    → hi < two_63
    → outside lo hi x ≡ false
    → (lo ≤ x) × (x ≤ hi)
outside-range lo hi x hx hl hh h = ground arith

pub outside_within : (lo hi x : ℕ) → hi < two_63 → lo ≤ x → x ≤ hi → outside lo hi x ≡ false
outside_within lo hi x hh hl hx = ground arith

pub sub64_exact : (a b : ℕ) → b ≤ a → a < two_64 → sub64 a b ≡ a - b
sub64_exact a b h k = omega arith
