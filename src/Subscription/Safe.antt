-- ===== src/Subscription/Safe.antt =====
-- internal/subscription/service.go: no value breaks out of its line of a feed.
use olcrtc_panel_lite.Common.{
  ℕ, ◌+◌, ◌*◌, ◌/◌, ◌%◌, ◌≡◌, ◌≢◌, refl, Bool, true, not, ◌&&◌, Option, none, some, List, [], ◌∷◌,
  ◌++◌, ltb, ◌==◌, slt, All, All-append, Bool-cases, inl, inr, arith, Lacks, all,
}
use olcrtc_panel_lite.Text.{
  Text, codes, is_empty, is_space, replace_rune, trim_left, trim_right, trim_space, trim_right_rune,
}
use olcrtc_panel_lite.Text.Number.{itoa, itoa-digits}
use olcrtc_panel_lite.Model.{Instance, Subscription, SubscriptionEntry}
use olcrtc_panel_lite.Subscription.Lines.{
  safe_line, round_half_even, to_float, unit_from, two_decimals, scaled, human_bytes, line_if,
  entry_name, bytes_if, left_of, traffic_lines, entry_metadata, unix_of, header_lines, units,
}

-- no end of a line
abbrev pub Inline : ℕ → Type 0
Inline c = (c ≢ 10) × (c ≢ 13)

abbrev pub OneLine : Text → Type 0
OneLine = All Inline

module _ (P : ℕ → Type 0) where
  trim_left-All : (s : Text) → All P s → All P (trim_left s)
  unfolding trim_left
  trim_left-All [] h = h
  trim_left-All (c ∷ s) h = elim (Bool-cases (is_space c)) [
    | inl e ↦ rw (e, All) (trim_left-All s h.1)
    | inr e ↦ rw (e, All) h
  ]

  trim_right-All : (s : Text) → All P s → All P (trim_right s)
  unfolding trim_right
  trim_right-All [] h = h
  trim_right-All (c ∷ s) h = elim (Bool-cases (is_space c && is_empty (trim_right s))) [
    | inl e ↦ rw (e, All) tt
    | inr e ↦ rw (e, All) (h.0, trim_right-All s h.1)
  ]

  trim_space-All : (s : Text) → All P s → All P (trim_space s)
  unfolding trim_space
  trim_space-All s h = trim_right-All (trim_left s) (trim_left-All s h)

  trim_right_rune-All : (s : Text) (r : ℕ) → All P s → All P (trim_right_rune s r)
  unfolding trim_right_rune
  trim_right_rune-All [] r h = h
  trim_right_rune-All (c ∷ s) r h = elim (Bool-cases ((c == r) && is_empty (trim_right_rune s r))) [
    | inl e ↦ rw (e, All) tt
    | inr e ↦ rw (e, All) (h.0, trim_right_rune-All s r h.1)
  ]

  replace_rune-All : (c : ℕ) (t s : Text) → All P t → All P s → All P (replace_rune c t s)
  unfolding replace_rune
  replace_rune-All c t [] ht h = tt
  replace_rune-All c t (d ∷ s) ht h =
      All-append P _ _
        (elim (Bool-cases (d == c)) [ inl e ↦ rw (e, All) ht | inr e ↦ rw (e, All) (h.0, tt) ])
        (replace_rune-All c t s ht h.1)

-- nothing that was replaced is left
replace_rune-Lacks : (c : ℕ) (t s : Text) → Lacks c t → Lacks c (replace_rune c t s)
unfolding replace_rune
replace_rune-Lacks c t [] ht = tt
replace_rune-Lacks c t (d ∷ s) ht =
    All-append (λ x. x ≢ c) _ _
      (elim (Bool-cases (d == c)) [
        | inl e ↦ rw (e, All) ht
        | inr e ↦ rw (e, All) (ground arith, tt)
      ])
      (replace_rune-Lacks c t s ht)

All-both : (P Q : ℕ → Type 0) (s : Text) → All P s → All Q s → All (λ c. P c × Q c) s
All-both P Q [] h k = tt
All-both P Q (c ∷ s) h k = ((h.0, k.0), All-both P Q s h.1 k.1)

space-Lacks : (c : ℕ) → c ≢ 32 → Lacks c (codes " ")
space-Lacks c h = (λ e. ground (arith, h), tt)

safe_line-OneLine : (value : Text) → OneLine (safe_line value)
unfolding safe_line
safe_line-OneLine value = trim_space-All Inline _ (
    All-both (λ x. x ≢ 10) (λ x. x ≢ 13) _
      (replace_rune-Lacks 10 (codes " ") _ (space-Lacks 10 (λ e. ground arith)))
      (replace_rune-All (λ x. x ≢ 13) 10 (codes " ") _ (space-Lacks 13 (λ e. ground arith))
        (replace_rune-Lacks 13 (codes " ") value (space-Lacks 13 (λ e. ground arith)))))

itoa-OneLine : (n : ℕ) → OneLine (itoa n)
itoa-OneLine n =
    itoa-digits Inline (λ e. ground arith, λ e. ground arith)
      (λ c d. (λ e. ground arith, λ e. ground arith)) n

is_inline : ℕ → Bool
is_inline c = not (c == 10) && not (c == 13)

-- a literal in one line
all_inline : (s : Text) → all is_inline s ≡ true → OneLine s
unfolding is_inline
all_inline [] h = tt
all_inline (c ∷ s) h = ((λ e. ground arith, λ e. ground arith), all_inline s (ground arith))

labelled :
    (label value : Text) → all is_inline label ≡ true → OneLine value → OneLine (label ++ value)
labelled label value h k = All-append Inline label value (all_inline label h) k

digit-Inline : (n : ℕ) → Inline (b'0' + n % 10)
digit-Inline n = (λ e. omega arith, λ e. omega arith)

two_decimals-OneLine : (n : ℕ) → OneLine (two_decimals n)
unfolding two_decimals
two_decimals-OneLine n =
    All-append Inline (itoa (n / 100)) _ (itoa-OneLine (n / 100))
      ((λ e. ground arith, λ e. ground arith), (digit-Inline (n / 10), (digit-Inline n, tt)))

unit_from-OneLine : (us : List Text) (d n : ℕ) → All OneLine us → OneLine ((unit_from us d n).0)
unfolding unit_from is_inline
unit_from-OneLine [] d n h = all_inline (codes "pb") refl
unit_from-OneLine (u ∷ us) d n h = elim (Bool-cases (ltb n (1024 * d))) [
  | inl e ↦ rw (e, All) h.0
  | inr e ↦ rw (e, All) (unit_from-OneLine us (1024 * d) n h.1)
]

scaled-OneLine : (p : Text × ℕ) (n : ℕ) → OneLine (p.0) → OneLine (scaled p n)
unfolding scaled
scaled-OneLine (u, d) n h =
    All-append Inline _ u
      (trim_right_rune-All Inline _ b'.'
        (trim_right_rune-All Inline _ b'0' (two_decimals-OneLine (round_half_even (n * 100) d))))
      h

with_b : (n : ℕ) → OneLine (itoa n ++ codes "b")
unfolding is_inline
with_b n = All-append Inline (itoa n) (codes "b") (itoa-OneLine n) (all_inline (codes "b") refl)

units-OneLine : All OneLine units
unfolding is_inline
units-OneLine = (
  all_inline (codes "b") refl,
  (
    all_inline (codes "kb") refl,
    (
      all_inline (codes "mb") refl,
      (all_inline (codes "gb") refl, (all_inline (codes "tb") refl, tt)),
    ),
  ),
)

human_bytes-OneLine : (n : ℕ) → OneLine (human_bytes n)
unfolding human_bytes is_inline
human_bytes-OneLine n = elim (Bool-cases (slt n 0)) [
  | inl e ↦ rw (e, All) (with_b n)
  | inr e ↦
      rw (e, All)
        (elim (Bool-cases (ltb (to_float n) 1024)) [
          | inl f ↦ rw (f, All) (with_b n)
          | inr f ↦
              rw (f, All)
                (scaled-OneLine (unit_from units 1 (to_float n)) (to_float n)
                  (unit_from-OneLine units 1 (to_float n) units-OneLine))
        ])
]

line_if-OneLine :
    (label value : Text) → all is_inline label ≡ true → All OneLine (line_if label value)
unfolding line_if
line_if-OneLine label value h = elim (Bool-cases (is_empty value)) [
  | inl e ↦ rw (e, All) tt
  | inr e ↦ rw (e, All) (labelled label (safe_line value) h (safe_line-OneLine value), tt)
]

bytes_if-OneLine :
    (label : Text) (o : Option ℕ) → all is_inline label ≡ true → All OneLine (bytes_if label o)
unfolding bytes_if
bytes_if-OneLine label none h = tt
bytes_if-OneLine label (some n) h = (labelled label (human_bytes n) h (human_bytes-OneLine n), tt)

traffic_lines-OneLine :
    (entry : SubscriptionEntry) (source : Option Instance)
    → All OneLine (traffic_lines entry source)
unfolding traffic_lines is_inline
traffic_lines-OneLine entry none =
    All-append OneLine _ _ (bytes_if-OneLine (codes "##used: ") entry.manual_used refl)
      (bytes_if-OneLine (codes "##available: ") entry.manual_available refl)
traffic_lines-OneLine entry (some item) = elim (Bool-cases (slt 0 item.quota_bytes)) [
  | inl e ↦
      rw (e, All)
        (
          labelled (codes "##used: ") _ refl (
              All-append Inline (human_bytes item.total_bytes) _
                (human_bytes-OneLine item.total_bytes)
                (labelled (codes "/") _ refl (human_bytes-OneLine item.quota_bytes))),
          (labelled (codes "##available: ") _ refl (human_bytes-OneLine (left_of item)), tt),
        )
  | inr e ↦
      rw (e, All)
        (
          labelled (codes "##used: ") _ refl (human_bytes-OneLine item.total_bytes),
          (all_inline (codes "##available: unlimited") refl, tt),
        )
]

-- No line of the metadata of an entry holds a line feed or a carriage return, whatever its name,
-- color, icon, address and comment and the name of its instance hold.
pub entry_metadata-OneLine :
    (entry : SubscriptionEntry) (source : Option Instance)
    → All OneLine (entry_metadata entry source)
unfolding entry_metadata is_inline
entry_metadata-OneLine entry source =
    All-append OneLine _ _ (line_if-OneLine (codes "##name: ") (entry_name entry source) refl) (
      All-append OneLine _ _ (line_if-OneLine (codes "##color: ") entry.color refl) (
        All-append OneLine _ _ (line_if-OneLine (codes "##icon: ") entry.icon refl) (
          All-append OneLine _ _ (line_if-OneLine (codes "##ip: ") entry.ip refl) (
            All-append OneLine _ _ (line_if-OneLine (codes "##comment: ") entry.comment refl)
              (traffic_lines-OneLine entry source)))))

-- No line of the head of a feed holds a line feed or a carriage return, whatever the name, the
-- refresh interval, the color and the icon of the subscription hold.
pub header_lines-OneLine : (sub : Subscription) → All OneLine (header_lines sub)
unfolding header_lines is_inline
header_lines-OneLine sub = (
  labelled (codes "#name: ") _ refl (safe_line-OneLine sub.name),
  (
    labelled (codes "#update: ") _ refl (itoa-OneLine (unix_of sub.updated_at)),
    (
      labelled (codes "#refresh: ") _ refl (safe_line-OneLine sub.refresh_interval),
      All-append OneLine _ _ (line_if-OneLine (codes "#color: ") sub.color refl)
          (line_if-OneLine (codes "#icon: ") sub.icon refl),
    ),
  ),
)
