-- ===== src/Security/Tokens.antt =====
-- internal/security/security.go: RandomToken, RandomHex, HashToken and EqualToken.
use olcrtc_panel_lite.Common.{
  ℕ, zero, suc, ◌/◌, ◌%◌, Bool, Option, none, some, [], ◌∷◌, Result, ok, err,
}
use olcrtc_panel_lite.Text.{Text, codes, text_eq}
use olcrtc_panel_lite.Security.Crypto.{Bytes, Crypto, text_bytes}

pub data SecurityError : Type 0 where
  no_random short_password bad_master_key unsupported_value invalid_value cannot_decrypt :
      SecurityError

-- the character of `hex` at an index
unfoldable pub nth_rune : Text → ℕ → ℕ
nth_rune [] n = 0
nth_rune (c ∷ s) zero = c
nth_rune (c ∷ s) (suc n) = nth_rune s n

unfoldable pub hex_digit : ℕ → ℕ
hex_digit n = nth_rune (codes "0123456789abcdef") n

-- the loop of RandomHex: value>>4 and value&0x0f
unfoldable pub hex_of : Bytes → Text
hex_of [] = []
hex_of (b ∷ bytes) = hex_digit (b / 16) ∷ hex_digit (b % 16) ∷ hex_of bytes

-- RandomHex
unfoldable pub random_hex : Option Bytes → Result SecurityError Text
random_hex none = err no_random
random_hex (some bytes) = ok (hex_of bytes)

-- RandomToken
unfoldable pub random_token : Crypto → Option Bytes → Result SecurityError Text
random_token crypto none = err no_random
random_token crypto (some bytes) = ok (crypto.encode_url bytes)

-- HashToken
unfoldable pub hash_token : Crypto → Text → Text
hash_token crypto token = crypto.encode_url (crypto.sum (text_bytes token))

-- EqualToken
unfoldable pub equal_token : Crypto → Text → Text → Bool
equal_token crypto token stored = text_eq (hash_token crypto token) stored
