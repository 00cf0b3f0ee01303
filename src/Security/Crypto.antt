-- ===== src/Security/Crypto.antt =====
-- What internal/security/security.go calls of Go's crypto and encoding packages and of
-- golang.org/x/crypto/argon2. A byte is a number; crypto/rand.Read is given by what it answered.
use olcrtc_panel_lite.Common.{ℕ, Option, List, [], ◌∷◌, ◌++◌}
use olcrtc_panel_lite.Text.{Text, utf8}

abbrev pub Bytes : Type 0
Bytes = List ℕ

-- []byte(s)
unfoldable pub text_bytes : Text → Bytes
text_bytes [] = []
text_bytes (c ∷ s) = utf8 c ++ text_bytes s

pub record Crypto : Type 0 where
  -- string(b)
  pub bytes_text : Bytes → Text
  -- base64.RawURLEncoding and base64.RawStdEncoding
  pub encode_url : Bytes → Text
  pub decode_url : Text → Option Bytes
  pub encode_std : Bytes → Text
  pub decode_std : Text → Option Bytes
  -- cipher.AEAD under the key of the machine: Seal and Open with a nonce and the additional data
  pub nonce_size : ℕ
  pub seal : Bytes → Bytes → Bytes → Bytes
  pub unseal : Bytes → Bytes → Bytes → Option Bytes
  -- sha256.Sum256
  pub sum : Bytes → Bytes
  -- argon2.IDKey(password, salt, time, memory, threads, keyLen)
  pub id_key : Bytes → Bytes → ℕ → ℕ → ℕ → ℕ → Bytes
  -- fmt.Sscanf(s, "m=%d,t=%d,p=%d") into a uint32, a uint32 and a uint8
  pub scan_costs : Text → Option (ℕ × ℕ × ℕ)
