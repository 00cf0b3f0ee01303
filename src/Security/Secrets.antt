-- ===== src/Security/Secrets.antt =====
-- internal/security/security.go: Secrets.
use olcrtc_panel_lite.Common.{
  not, Option, none, some, ◌++◌, ltb, ◌==◌, if◌then◌else◌, length, take, drop, Result, ok, err,
}
use olcrtc_panel_lite.Text.{Text, codes, is_empty, has_prefix, trim_prefix}
use olcrtc_panel_lite.Security.Crypto.{Bytes, Crypto, text_bytes}
use olcrtc_panel_lite.Security.Tokens.{
  SecurityError, no_random, bad_master_key, unsupported_value, invalid_value, cannot_decrypt,
}

-- NewSecrets; aes.NewCipher and cipher.NewGCM take every key of 32 bytes
unfoldable pub new_secrets : Bytes → (Bytes → Crypto) → Result SecurityError Crypto
new_secrets key ciphers = if length key == 32 then ok (ciphers key) else err bad_master_key

abbrev pub additional_data : Bytes
additional_data = codes "olcrtc-panel:v1"

unfoldable pub envelope : Crypto → Bytes → Text → Text
envelope crypto nonce plain =
    codes "v1." ++ crypto.encode_url (nonce ++ crypto.seal nonce (text_bytes plain) additional_data)

unfoldable pub sealed : Crypto → Option Bytes → Text → Result SecurityError Text
sealed crypto none plain = err no_random
sealed crypto (some nonce) plain = ok (envelope crypto nonce plain)

-- Encrypt, with the answer of rand.Read for the nonce
unfoldable pub encrypt : Crypto → Option Bytes → Text → Result SecurityError Text
encrypt crypto drawn plain = if is_empty plain then ok (codes "") else sealed crypto drawn plain

unfoldable pub opened : Crypto → Option Bytes → Result SecurityError Text
opened crypto none = err cannot_decrypt
opened crypto (some plain) = ok (crypto.bytes_text plain)

unfoldable pub open_envelope : Crypto → Option Bytes → Result SecurityError Text
open_envelope crypto none = err invalid_value
open_envelope crypto (some b) =
    if ltb (length b) crypto.nonce_size
    then err invalid_value
    else opened crypto
        (crypto.unseal (take crypto.nonce_size b) (drop crypto.nonce_size b) additional_data)

-- Decrypt
unfoldable pub decrypt : Crypto → Text → Result SecurityError Text
decrypt crypto value =
    if is_empty value
    then ok (codes "")
    else if not (has_prefix value (codes "v1."))
    then err unsupported_value
    else open_envelope crypto (crypto.decode_url (trim_prefix value (codes "v1.")))
