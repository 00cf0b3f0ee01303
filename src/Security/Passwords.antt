-- ===== src/Security/Passwords.antt =====
-- internal/security/security.go: HashPassword and VerifyPassword.
use olcrtc_panel_lite.Common.{
  ℕ, Bool, false, not, ◌||◌, Option, none, some, List, [], ◌∷◌, ltb, ◌==◌, if◌then◌else◌, length,
  Result, ok, err,
}
use olcrtc_panel_lite.Text.{Text, codes, text_eq, split, join, byte_len}
use olcrtc_panel_lite.Security.Crypto.{Bytes, Crypto, text_bytes}
use olcrtc_panel_lite.Security.Tokens.{SecurityError, no_random, short_password}

abbrev pub argon_memory : ℕ
argon_memory = 65536

abbrev pub argon_time : ℕ
argon_time = 3

abbrev pub argon_threads : ℕ
argon_threads = 2

abbrev pub argon_key_len : ℕ
argon_key_len = 32

-- what Sprintf makes of argonMemory, argonTime and argonThreads
abbrev pub costs_text : Text
costs_text = codes "m=65536,t=3,p=2"

unfoldable pub phc_string : Crypto → Bytes → Bytes → Text
phc_string crypto salt hash =
    join
      (codes ""
        ∷ codes "argon2id"
        ∷ codes "v=19"
        ∷ costs_text
        ∷ crypto.encode_std salt
        ∷ crypto.encode_std hash
        ∷ [])
      (codes "$")

-- HashPassword, with the answer of rand.Read for the salt
unfoldable pub hash_password : Crypto → Option Bytes → Text → Result SecurityError Text
hash_password crypto drawn password =
    if ltb (byte_len password) 12 then err short_password else elim drawn [
      | none ↦ err no_random
      | some salt ↦ ok (
          phc_string crypto salt (
            crypto.id_key (text_bytes password) salt argon_time argon_memory argon_threads
              argon_key_len))
    ]

-- a cost that VerifyPassword does not pay
unfoldable pub is_too_costly : ℕ × ℕ × ℕ → Bool
is_too_costly (memory, iterations, threads) =
    ltb 262144 memory || ltb 10 iterations || ltb 16 threads

unfoldable pub same_bytes : Bytes → Bytes → Bool
same_bytes = text_eq

-- VerifyPassword behind the costs
unfoldable pub verify_hash : Crypto → ℕ × ℕ × ℕ → Option Bytes → Option Bytes → Text → Bool
verify_hash crypto costs none want password = false
verify_hash crypto costs (some salt) none password = false
verify_hash crypto (memory, iterations, threads) (some salt) (some want) password =
    if length want == 0
    then false
    else same_bytes
        (crypto.id_key (text_bytes password) salt iterations memory threads (length want)) want

unfoldable pub verify_costs : Crypto → Option (ℕ × ℕ × ℕ) → Text → Text → Text → Bool
verify_costs crypto none salt want password = false
verify_costs crypto (some costs) salt want password =
    if is_too_costly costs
    then false
    else verify_hash crypto costs (crypto.decode_std salt) (crypto.decode_std want) password

-- VerifyPassword on the parts of the string
unfoldable pub verify_parts : Crypto → List Text → Text → Bool
verify_parts crypto (first ∷ name ∷ version ∷ costs ∷ salt ∷ want ∷ []) password =
    if not (text_eq name (codes "argon2id")) || not (text_eq version (codes "v=19"))
    then false
    else verify_costs crypto (crypto.scan_costs costs) salt want password
verify_parts crypto _ password = false

-- VerifyPassword
unfoldable pub verify_password : Crypto → Text → Text → Bool
verify_password crypto encoded password = verify_parts crypto (split encoded 36) password
