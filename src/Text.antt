-- ===== src/Text.antt =====
-- Go strings as lists of code points (valid UTF-8), with what the panel uses of Go's `strings`:
-- an index of an ASCII byte is the number of code points before it. The children prove their laws.
pub mod Pieces
pub mod Number
pub mod Escape
pub mod Space
pub mod Equality
use Prim.Native.Char.{code}
use olcrtc_panel_lite.Common.{
  ℕ, suc, ◌+◌, ◌*◌, ◌%◌, ◌/◌, String, Bool, true, false, not, ◌&&◌, ◌||◌, Option, none, some, List,
  [], ◌∷◌, ◌++◌, leb, ltb, ◌==◌, if◌then◌else◌, length, drop, any, all,
}

abbrev pub Text : Type 0
Text = List ℕ

abbrev pub codes : String → Text
codes String.[] = []
codes (String.◌∷◌ c s) = code c ∷ codes s

unfoldable pub text_eq : Text → Text → Bool
text_eq [] [] = true
text_eq [] (d ∷ t) = false
text_eq (c ∷ s) [] = false
text_eq (c ∷ s) (d ∷ t) = (c == d) && text_eq s t

-- s == ""
abbrev pub is_empty : Text → Bool
is_empty [] = true
is_empty (c ∷ s) = false

-- strings.HasPrefix(s, p)
unfoldable pub has_prefix : Text → Text → Bool
has_prefix s [] = true
has_prefix [] (d ∷ p) = false
has_prefix (c ∷ s) (d ∷ p) = (c == d) && has_prefix s p

-- strings.TrimPrefix
unfoldable pub trim_prefix : Text → Text → Text
unfolding has_prefix
trim_prefix s p = if has_prefix s p then drop (length p) s else s

-- strings.Contains(s, p)
unfoldable pub contains : Text → Text → Bool
unfolding has_prefix
contains [] p = has_prefix [] p
contains (c ∷ s) p = has_prefix (c ∷ s) p || contains s p

-- strings.ContainsRune(s, r)
abbrev pub contains_rune : Text → ℕ → Bool
contains_rune s r = any (λ c. c == r) s

-- strings.ContainsAny(s, chars)
abbrev pub contains_any : Text → Text → Bool
contains_any s chars = any (contains_rune chars) s

-- strings.IndexByte(s, c), `none` where Go returns -1
unfoldable pub index_byte : Text → ℕ → Option ℕ
index_byte [] c = none
index_byte (d ∷ s) c =
    let rest : Option ℕ = elim (index_byte s c) [ none ↦ none | some n ↦ some (suc n) ] in
    if d == c then some 0 else rest

-- strings.Count(s, c) for one ASCII character
unfoldable pub count : Text → ℕ → ℕ
count [] c = 0
count (d ∷ s) c = let n = count s c in if d == c then suc n else n

-- the first element of a list of texts, extended
abbrev cons_head : ℕ → List Text → List Text
cons_head c [] = (c ∷ []) ∷ []
cons_head c (p ∷ ps) = (c ∷ p) ∷ ps

-- strings.Split(s, sep) for a separator of one ASCII character
unfoldable pub split : Text → ℕ → List Text
split [] sep = [] ∷ []
split (c ∷ s) sep = let rest = split s sep in if c == sep then [] ∷ rest else cons_head c rest

-- strings.Join(parts, sep)
unfoldable pub join : List Text → Text → Text
join [] sep = []
join (p ∷ []) sep = p
join (p ∷ q ∷ ps) sep = p ++ (sep ++ join (q ∷ ps) sep)

-- strings.Cut(s, c) for one ASCII character: `none` where `found` is false
unfoldable pub cut : Text → ℕ → Option (Text × Text)
cut [] c = none
cut (d ∷ s) c =
    let rest : Option (Text × Text) = elim (cut s c) [
      | none ↦ none
      | some (a, b) ↦ some (d ∷ a, b)
    ] in
    if d == c then some ([], s) else rest

-- unicode.IsSpace
unfoldable pub is_space : ℕ → Bool
is_space c =
    (leb 9 c && leb c 13)
    || (c == 32)
    || (c == 0x85)
    || (c == 0xA0)
    || (c == 0x1680)
    || (leb 0x2000 c && leb c 0x200A)
    || (c == 0x2028)
    || (c == 0x2029)
    || (c == 0x202F)
    || (c == 0x205F)
    || (c == 0x3000)

unfoldable pub trim_left : Text → Text
trim_left [] = []
trim_left (c ∷ s) = let rest = trim_left s in if is_space c then rest else c ∷ s

unfoldable pub trim_right : Text → Text
trim_right [] = []
trim_right (c ∷ s) = let rest = trim_right s in if is_space c && is_empty rest then [] else c ∷ rest

-- strings.TrimSpace
unfoldable pub trim_space : Text → Text
unfolding trim_left trim_right
trim_space s = trim_right (trim_left s)

-- strings.Fields: the maximal runs of characters that are no space; `cur` is the run so far
unfoldable pub fields_from : Text → Text → List Text
fields_from cur [] = if is_empty cur then [] else cur ∷ []
fields_from cur (c ∷ s) = elim (is_space c) [
  | true ↦ if is_empty cur then fields_from [] s else cur ∷ fields_from [] s
  | false ↦ fields_from (cur ++ c ∷ []) s
]

unfoldable pub fields : Text → List Text
unfolding fields_from
fields s = fields_from [] s

-- unicode.ToLower where the result is ASCII (the Kelvin sign and the dotted I included);
-- other letters stay, since the code compares the result with ASCII texts only
unfoldable pub to_lower_rune : ℕ → ℕ
to_lower_rune c =
    if leb 65 c && leb c 90
    then c + 32
    else if c == 0x212A
    then 0x6B
    else if c == 0x130
    then 0x69
    else c

unfoldable pub to_lower : Text → Text
unfolding to_lower_rune
to_lower [] = []
to_lower (c ∷ s) = to_lower_rune c ∷ to_lower s

-- the bytes of one code point in UTF-8
unfoldable pub utf8 : ℕ → List ℕ
utf8 c =
    if ltb c 0x80
    then c ∷ []
    else if ltb c 0x800
    then (0xC0 + c / 64) ∷ (0x80 + c % 64) ∷ []
    else if ltb c 0x10000
    then (0xE0 + c / 4096) ∷ (0x80 + c / 64 % 64) ∷ (0x80 + c % 64) ∷ []
    else (0xF0 + c / 262144) ∷ (0x80 + c / 4096 % 64) ∷ (0x80 + c / 64 % 64) ∷ (0x80 + c % 64) ∷ []

-- len(s), which counts bytes
unfoldable pub byte_len : Text → ℕ
unfolding utf8
byte_len [] = 0
byte_len (c ∷ s) = length (utf8 c) + byte_len s

-- strings.TrimRight(s, c) for one ASCII character
unfoldable pub trim_right_rune : Text → ℕ → Text
trim_right_rune [] r = []
trim_right_rune (c ∷ s) r =
    let rest = trim_right_rune s r in if (c == r) && is_empty rest then [] else c ∷ rest

-- strings.TrimSuffix(s, c) for one ASCII character
unfoldable pub trim_suffix_rune : Text → ℕ → Text
trim_suffix_rune [] r = []
trim_suffix_rune (c ∷ []) r = if c == r then [] else c ∷ []
trim_suffix_rune (c ∷ d ∷ s) r = c ∷ trim_suffix_rune (d ∷ s) r

-- strings.ReplaceAll(s, c, t) for one ASCII character
unfoldable pub replace_rune : ℕ → Text → Text → Text
replace_rune r t [] = []
replace_rune r t (c ∷ s) = (if c == r then t else c ∷ []) ++ replace_rune r t s
