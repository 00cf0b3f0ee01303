-- ===== src/Security/HexKey.antt =====
-- internal/security/security.go: a key of RandomHex(32) is a key for internal/instance/uri.go.
use olcrtc_panel_lite.Common.{
  ℕ, zero, suc, ◌*◌, ◌/◌, ◌%◌, ◌<◌, ◌≡◌, refl, ap, ◌∙◌, true, false, ◌&&◌, ltb, some, [], ◌∷◌, ok,
  length, All, all, arith, lt→ltb, if_true, ok-injective, All-mono, All-of_all, Bool, ltb→lt,
}
use olcrtc_panel_lite.Text.{Text, codes, byte_len, utf8, contains_rune}
use olcrtc_panel_lite.Security.Crypto.{Bytes}
use olcrtc_panel_lite.Security.Tokens.{nth_rune, hex_digit, hex_of, random_hex}
use olcrtc_panel_lite.Instance.Uri.Client.{validate_key}

abbrev key_digits : Text
key_digits = codes "0123456789abcdefABCDEF"

-- what the loop of RandomHex writes
abbrev IsDigitOfKey : ℕ → Type 0
IsDigitOfKey c = (contains_rune key_digits c ≡ true) × (c < 128)

and_split : (b c : Bool) → (b && c) ≡ true → (b ≡ true) × (c ≡ true)
and_split true c h = (refl, h)
and_split false c h = cc

nth_rune-All : (P : ℕ → Type 0) (s : Text) (n : ℕ) → n < length s → All P s → P (nth_rune s n)
unfolding nth_rune
nth_rune-All P [] n h k = absurd (omega arith)
nth_rune-All P (c ∷ s) zero h k = k.0
nth_rune-All P (c ∷ s) (suc n) h k = nth_rune-All P s n (omega arith) k.1

hex_digit-IsDigitOfKey : (n : ℕ) → n < 16 → IsDigitOfKey (hex_digit n)
unfolding hex_digit
hex_digit-IsDigitOfKey n h = nth_rune-All IsDigitOfKey (codes "0123456789abcdef") n h (
    All-of_all (λ c. contains_rune key_digits c && ltb c 128) IsDigitOfKey
      (codes "0123456789abcdef")
      (λ c e. let both = and_split _ _ e in (both.0, ltb→lt c 128 both.1)) refl)

hex_of-IsDigitOfKey : (bytes : Bytes) → All (λ b. b < 256) bytes → All IsDigitOfKey (hex_of bytes)
unfolding hex_of
hex_of-IsDigitOfKey [] h = tt
hex_of-IsDigitOfKey (b ∷ bytes) h =
    let bound = h.0 in
    (
      hex_digit-IsDigitOfKey (b / 16) (omega arith),
      (hex_digit-IsDigitOfKey (b % 16) (omega arith), hex_of-IsDigitOfKey bytes h.1),
    )

length-hex_of : (bytes : Bytes) → length (hex_of bytes) ≡ 2 * length bytes
unfolding hex_of
length-hex_of [] = refl
length-hex_of (b ∷ bytes) = let k = length-hex_of bytes in omega arith

pub byte_len_ascii : (s : Text) → All (λ c. c < 128) s → byte_len s ≡ length s
unfolding byte_len utf8
byte_len_ascii [] h = refl
byte_len_ascii (c ∷ s) h =
    let one : length (utf8 c) ≡ 1 = ap length (if_true (ltb c 128) _ _ (lt→ltb c 128 h.0)) in
    let k = byte_len_ascii s h.1 in omega arith

all_digits : (s : Text) → All IsDigitOfKey s → all (contains_rune key_digits) s ≡ true
all_digits [] h = refl
all_digits (c ∷ s) h = ap (λ b. b && all (contains_rune key_digits) s) h.0.0 ∙ all_digits s h.1

-- Every 32 random bytes become a key of 64 lower-case hexadecimal digits, which the renderers of URIs
-- accept.
pub validate_key-random_hex :
    (bytes : Bytes) (key : Text)
    → length bytes ≡ 32
    → All (λ b. b < 256) bytes
    → random_hex (some bytes) ≡ ok key
    → (length key ≡ 64) × (validate_key key ≡ ok tt)
unfolding validate_key random_hex
validate_key-random_hex bytes key size range h =
    let made : hex_of bytes ≡ key = ok-injective h in
    let digits = hex_of-IsDigitOfKey bytes range in
    let len : length (hex_of bytes) ≡ 64 = let k = length-hex_of bytes in omega arith in
    let bytes_len : byte_len (hex_of bytes) ≡ 64 =
      byte_len_ascii (hex_of bytes) (All-mono (hex_of bytes) (λ c k. k.1) digits) ∙ len in
    rw (← made) (len, rw bytes_len (rw (all_digits (hex_of bytes) digits) refl))
