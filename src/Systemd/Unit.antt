-- ===== src/Systemd/Unit.antt =====
-- internal/systemd/systemd.go: the unit names of unit.
use olcrtc_panel_lite.Common.{
  ℕ, ◌<◌, ◌≤◌, ◌≡◌, ◌≢◌, refl, Option, some, two_64, sym, ◌∙◌, ap, false, [], ◌∷◌, ◌++◌, arith, any,
  ok, All, two_63, two_64, slt, ok-injective, lt→ltb, drop,
}
use olcrtc_panel_lite.Text.{Text, codes, cut}
use olcrtc_panel_lite.Text.Pieces.{cut-append}
use olcrtc_panel_lite.Text.Number.{
  itoa, parse_int, number, Parsed, parse_int-itoa, IsDigit, itoa-digits, format_uint,
  format_uint-IsDigit,
}
use olcrtc_panel_lite.Instance.Config.Defaults.{is_not_digit}
use olcrtc_panel_lite.Systemd.Service.{unit}

digits_only : (s : Text) → All IsDigit s → any is_not_digit s ≡ false
unfolding is_not_digit
digits_only [] h = refl
digits_only (c ∷ s) h = ground (arith, digits_only s h.1)

itoa-format_uint : (n : ℕ) → n < two_63 → itoa n ≡ format_uint n
unfolding itoa
itoa-format_uint n h = rw (lt→ltb n two_63 h)

-- A positive int64 has a unit, made of its decimal digits: the second check of unit never fires.
pub unit_positive :
    (id : ℕ)
    → 1 ≤ id
    → id < two_63
    → unit id ≡ ok (codes "olcrtc-instance@" ++ (itoa id ++ codes ".service"))
unfolding unit
unit_positive id lo hi =
    let e : slt id 1 ≡ false = ground arith in
    let d : any is_not_digit (itoa id) ≡ false =
      rw (itoa-format_uint id hi) (digits_only (format_uint id) (format_uint-IsDigit id)) in
    rw e (rw d)

Option-some-injective :
    {a b : Text × Text} → ◌≡◌ {A = Option (Text × Text)} (some a) (some b) → a ≡ b
Option-some-injective h = cc

number-injective : {a b : ℕ} → ◌≡◌ {A = Parsed} (number a) (number b) → a ≡ b
number-injective h = cc

-- the digits before the suffix
cut-itoa : (id : ℕ) → cut (itoa id ++ codes ".service") b'.' ≡ some (itoa id, codes "service")
cut-itoa id =
    cut-append b'.' (itoa id) (codes "service")
      (itoa-digits (λ c. c ≢ b'.') (λ h. ground arith) (λ c d h. ground arith) id)

itoa-injective : (a b : ℕ) → a < two_64 → b < two_64 → itoa a ≡ itoa b → a ≡ b
itoa-injective a b ha hb h =
    number-injective (sym (parse_int-itoa a ha) ∙ (ap parse_int h ∙ parse_int-itoa b hb))

-- Two positive int64 identifiers whose units have one name are equal: no instance is controlled
-- under the name of another.
pub unit-injective : (a b : ℕ) → 1 ≤ a → a < two_63 → 1 ≤ b → b < two_63 → unit a ≡ unit b → a ≡ b
unit-injective a b la ha lb hb h =
    let names = ok-injective (sym (unit_positive a la ha) ∙ (h ∙ unit_positive b lb hb)) in
    let tails = ap (λ s. cut (drop 16 s) b'.') names in
    let pairs = Option-some-injective (sym (cut-itoa a) ∙ (tails ∙ cut-itoa b)) in
    itoa-injective a b (omega arith) (omega arith) (ap (λ p. p.0) pairs)
