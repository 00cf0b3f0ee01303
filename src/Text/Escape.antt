-- ===== src/Text/Escape.antt =====
-- url.QueryEscape, byte by byte, and the characters that it can leave.
use olcrtc_panel_lite.Common.{
  ℕ, ◌+◌, ◌<◌, ◌≢◌, Bool-cases, inl, inr, ◌/◌, ◌%◌, ◌≡◌, Bool, true, List, [], ◌∷◌, ◌++◌, arith,
  ◌==◌, ◌&&◌, ◌||◌, leb, ltb, if◌then◌else◌, All, All-append,
}
use olcrtc_panel_lite.Text.{Text, utf8}

-- letters, digits and - _ . ~
unreserved : ℕ → Bool
unreserved c =
    (leb b'a' c && leb c b'z')
    || (leb b'A' c && leb c b'Z')
    || (leb b'0' c && leb c b'9')
    || (c == b'-')
    || (c == b'_')
    || (c == b'.')
    || (c == b'~')

hex_digit : ℕ → ℕ
hex_digit n = if ltb n 10 then b'0' + n else 55 + n

escape_byte : ℕ → Text
escape_byte c =
    if unreserved c
    then c ∷ []
    else if c == b' '
    then b'+' ∷ []
    else b'%' ∷ hex_digit (c / 16 % 16) ∷ hex_digit (c % 16) ∷ []

escape_bytes : List ℕ → Text
escape_bytes [] = []
escape_bytes (c ∷ s) = escape_byte c ++ escape_bytes s

-- url.QueryEscape
unfoldable pub query_escape : Text → Text
unfolding escape_bytes escape_byte unreserved hex_digit utf8
query_escape [] = []
query_escape (c ∷ s) = escape_bytes (utf8 c) ++ query_escape s

-- none of the separators of a URI
abbrev pub Plain : ℕ → Type 0
Plain c = (c ≢ b'?') × (c ≢ b'&') × (c ≢ b'#') × (c ≢ b'@') × (c ≢ b'=') × (c ≢ b'$')

unreserved-Plain : (c : ℕ) → unreserved c ≡ true → Plain c
unfolding unreserved
unreserved-Plain c h =
    (ground arith, ground arith, ground arith, ground arith, ground arith, ground arith)

hex_digit-Plain : (n : ℕ) → n < 16 → Plain (hex_digit n)
unfolding hex_digit
hex_digit-Plain n h =
    (ground arith, ground arith, ground arith, ground arith, ground arith, ground arith)

escape_byte-Plain : (c : ℕ) → All Plain (escape_byte c)
unfolding escape_byte
escape_byte-Plain c = elim (Bool-cases (unreserved c)) [
  | inl safe ↦ rw (safe, All) (unreserved-Plain c safe, tt)
  | inr other ↦
      rw (other, All)
        (elim (Bool-cases (c == b' ')) [
          | inl space ↦ rw (space, All) (omega arith)
          | inr more ↦
              rw (more, All)
                (
                  omega arith,
                  (
                    hex_digit-Plain (c / 16 % 16) (omega arith),
                    (hex_digit-Plain (c % 16) (omega arith), tt),
                  ),
                )
        ])
]

escape_bytes-Plain : (s : List ℕ) → All Plain (escape_bytes s)
unfolding escape_bytes
escape_bytes-Plain [] = tt
escape_bytes-Plain (c ∷ s) =
    All-append Plain (escape_byte c) (escape_bytes s) (escape_byte-Plain c) (escape_bytes-Plain s)

-- No separator is left in an escaped text.
pub query_escape-Plain : (s : Text) → All Plain (query_escape s)
unfolding query_escape
query_escape-Plain [] = tt
query_escape-Plain (c ∷ s) =
    All-append Plain (escape_bytes (utf8 c)) (query_escape s) (escape_bytes-Plain (utf8 c))
      (query_escape-Plain s)
