-- ===== src/Tests/Secrets.antt =====
-- Sample runs of internal/security.
use olcrtc_panel_lite.Common.{
  ℕ, zero, suc, ◌+◌, ◌-◌, ap, ◌<◌, ◌≡◌, ◌↔◌, refl, true, some, Option, [], ◌∷◌, ok, length, All,
  Lacks, arith, ◌>>=◌,
}
use olcrtc_panel_lite.Text.{Text, codes, utf8, byte_len}
use olcrtc_panel_lite.Instance.Uri.Client.{validate_key}
use olcrtc_panel_lite.Security.Crypto.{Bytes, Crypto, text_bytes}
use olcrtc_panel_lite.Security.Tokens.{random_hex, hex_of}
use olcrtc_panel_lite.Security.Passwords.{hash_password, phc_string, verify_password}
use olcrtc_panel_lite.Security.Secrets.{encrypt, decrypt, new_secrets}
use olcrtc_panel_lite.Security.MasterKey.{
  Pass, contents, opened, load_pass, load_or_create_master_key,
}
use olcrtc_panel_lite.Security.Envelope.{IsAead, decrypt-encrypt}
use olcrtc_panel_lite.Security.Verified.{IsHasher, key_of, verify_password-hash_password}
use olcrtc_panel_lite.Security.HexKey.{validate_key-random_hex}
use olcrtc_panel_lite.Security.KeySize.{FillsKey, new_secrets-load_or_create_master_key}

-- codes in place of base64, a cipher that hides nothing, a hash that repeats the first byte
abbrev shifted : Bytes → Text
shifted [] = []
shifted (b ∷ bytes) = (b + 100) ∷ shifted bytes

abbrev unshifted : Text → Bytes
unshifted [] = []
unshifted (c ∷ s) = (c - 100) ∷ unshifted s

unshifted-shifted : (b : Bytes) → unshifted (shifted b) ≡ b
unshifted-shifted [] = refl
unshifted-shifted (b ∷ bytes) =
    let e : b + 100 - 100 ≡ b = omega arith in rw (e, unshifted-shifted bytes) refl

shifted-Lacks : (b : Bytes) → Lacks 36 (shifted b)
shifted-Lacks [] = tt
shifted-Lacks (b ∷ bytes) = ((λ e. absurd (omega arith)), shifted-Lacks bytes)

abbrev zeros : ℕ → Bytes
zeros zero = []
zeros (suc n) = 0 ∷ zeros n

length-zeros : (n : ℕ) → length (zeros n) ≡ n
length-zeros zero = refl
length-zeros (suc n) = ap suc (length-zeros n)

abbrev pub sample_crypto : Crypto
sample_crypto = record {
  bytes_text = λ b. b;
  encode_url = λ b. b;
  decode_url = λ s. some s;
  encode_std = shifted;
  decode_std = λ s. some (unshifted s);
  nonce_size = 2;
  seal = λ nonce plain extra. plain;
  unseal = λ nonce box extra. some box;
  sum = λ b. b;
  id_key = λ password salt t m p n. zeros n;
  scan_costs = λ s. some (65536, 3, 2);
}

crypto_IsAead : IsAead sample_crypto
crypto_IsAead = record { decodes = λ b. refl; unseals = λ nonce plain extra. refl }

crypto_IsHasher : IsHasher sample_crypto
crypto_IsHasher = record {
  decodes = λ b. ap some (unshifted-shifted b);
  alphabet = shifted-Lacks;
  reads_costs = refl;
  key_length = λ password salt t m p n. length-zeros n;
}

decrypt-encrypt_example :
    (encrypt sample_crypto (some (1 ∷ 2 ∷ [])) (codes "abc") >>= decrypt sample_crypto)
    ≡ ok (codes "abc")
unfolding text_bytes utf8
decrypt-encrypt_example =
    decrypt-encrypt sample_crypto (1 ∷ 2 ∷ []) (codes "abc") crypto_IsAead refl refl

abbrev sample_password : Text
sample_password = codes "correct horse"

abbrev sample_encoded : Text
sample_encoded = phc_string sample_crypto (7 ∷ []) (key_of sample_crypto (7 ∷ []) sample_password)

password_hashed : hash_password sample_crypto (some (7 ∷ [])) sample_password ≡ ok sample_encoded
unfolding hash_password byte_len utf8
password_hashed = refl

verify_password-hash_password_example :
    (verify_password sample_crypto sample_encoded sample_password ≡ true) ↔ (
      key_of sample_crypto (7 ∷ []) sample_password ≡ key_of sample_crypto (7 ∷ []) sample_password)
verify_password-hash_password_example =
    verify_password-hash_password sample_crypto (7 ∷ []) sample_password sample_password
      sample_encoded crypto_IsHasher password_hashed

abbrev sample_bytes : Bytes
sample_bytes = zeros 32

zeros_small : (n : ℕ) → All (λ b. b < 256) (zeros n)
zeros_small zero = tt
zeros_small (suc n) = (omega arith, zeros_small n)

validate_key-random_hex_example :
    (length (hex_of sample_bytes) ≡ 64) × (validate_key (hex_of sample_bytes) ≡ ok tt)
unfolding random_hex
validate_key-random_hex_example =
    validate_key-random_hex sample_bytes (hex_of sample_bytes) refl (zeros_small 32) refl

abbrev sample_pass : Pass
sample_pass = record {
  read = contents sample_bytes;
  directory_made = true;
  drawn = some sample_bytes;
  opening = opened;
  written = true;
  protected = true;
}

some-injective : (a b : Bytes) → ◌≡◌ {A = Option Bytes} (some a) (some b) → a ≡ b
some-injective a b e = cc

pass_FillsKey : FillsKey sample_pass
pass_FillsKey key e =
    let same : sample_bytes ≡ key = some-injective sample_bytes key e in rw (← same) refl

key_loaded : load_or_create_master_key (sample_pass ∷ []) ≡ some (ok sample_bytes)
unfolding load_or_create_master_key load_pass
key_loaded = refl

new_secrets-load_or_create_master_key_example :
    new_secrets sample_bytes (λ key. sample_crypto) ≡ ok sample_crypto
new_secrets-load_or_create_master_key_example =
    new_secrets-load_or_create_master_key (sample_pass ∷ []) sample_bytes (λ key. sample_crypto)
      (pass_FillsKey, tt) key_loaded
