-- ===== src/Security/Verified.antt =====
-- internal/security/security.go: VerifyPassword on the strings of HashPassword.
use olcrtc_panel_lite.Common.{
  ℕ, ◌≡◌, ◌↔◌, refl, sym, ◌∙◌, true, not, all, some, [], ◌∷◌, ltb, ◌==◌, length, Result, ok, err,
  Lacks, All-of_all, Bool-cases, inl, inr, arith, if_false, if_true, ok-injective, ◌≢◌,
}
use olcrtc_panel_lite.Text.{Text, codes, split, text_eq, byte_len}
use olcrtc_panel_lite.Text.Equality.{text_eq_iff}
use olcrtc_panel_lite.Text.Pieces.{split-join}
use olcrtc_panel_lite.Security.Crypto.{Bytes, Crypto, text_bytes}
use olcrtc_panel_lite.Security.Tokens.{SecurityError, short_password}
use olcrtc_panel_lite.Security.Passwords.{
  argon_memory, argon_time, argon_threads, argon_key_len, costs_text, phc_string, hash_password,
  is_too_costly, same_bytes, verify_hash, verify_costs, verify_parts, verify_password,
}

-- what Go documents: base64 decodes what it encoded and has no $, Sscanf reads the costs back, and the
-- key has the length that is asked for
pub record IsHasher (crypto : Crypto) : Type 0 where
  pub decodes : (b : Bytes) → crypto.decode_std (crypto.encode_std b) ≡ some b
  pub alphabet : (b : Bytes) → Lacks 36 (crypto.encode_std b)
  pub reads_costs : crypto.scan_costs costs_text ≡ some (argon_memory, argon_time, argon_threads)
  pub key_length :
      (password salt : Bytes) (time memory threads n : ℕ)
      → length (crypto.id_key password salt time memory threads n) ≡ n

-- the Argon2id key of a password
abbrev pub key_of : Crypto → Bytes → Text → Bytes
key_of crypto salt password =
    crypto.id_key (text_bytes password) salt argon_time argon_memory argon_threads argon_key_len

Lacks-of_all : (c : ℕ) (s : Text) → all (λ d. not (d == c)) s ≡ true → Lacks c s
Lacks-of_all c s h = All-of_all (λ d. not (d == c)) (λ d. d ≢ c) s (λ d e. ground arith) h

parts_of_phc :
    (crypto : Crypto) (salt hash : Bytes)
    → IsHasher crypto
    → split (phc_string crypto salt hash) 36
      ≡ codes ""
        ∷ codes "argon2id"
        ∷ codes "v=19"
        ∷ costs_text
        ∷ crypto.encode_std salt
        ∷ crypto.encode_std hash
        ∷ []
unfolding phc_string
parts_of_phc crypto salt hash laws =
    split-join 36 (codes "")
      (codes "argon2id"
        ∷ codes "v=19"
        ∷ costs_text
        ∷ crypto.encode_std salt
        ∷ crypto.encode_std hash
        ∷ [])
      (
        tt,
        (
          Lacks-of_all 36 (codes "argon2id") refl,
          (
            Lacks-of_all 36 (codes "v=19") refl,
            (Lacks-of_all 36 costs_text refl, (laws.alphabet salt, (laws.alphabet hash, tt))),
          ),
        ),
      )

verify_phc :
    (crypto : Crypto) (salt hash : Bytes) (other : Text)
    → IsHasher crypto
    → length hash ≡ argon_key_len
    → verify_password crypto (phc_string crypto salt hash) other
      ≡ same_bytes (key_of crypto salt other) hash
unfolding verify_password verify_parts verify_costs verify_hash is_too_costly text_eq
verify_phc crypto salt hash other laws size =
    rw (parts_of_phc crypto salt hash laws)
      (rw laws.reads_costs (rw (laws.decodes salt, laws.decodes hash) (rw size refl)))

-- A string of HashPassword verifies a password exactly if its Argon2id key under the salt is that of
-- the password that was hashed.
pub verify_password-hash_password :
    (crypto : Crypto) (salt : Bytes) (password other encoded : Text)
    → IsHasher crypto
    → hash_password crypto (some salt) password ≡ ok encoded
    → (verify_password crypto encoded other ≡ true)
      ↔ (key_of crypto salt other ≡ key_of crypto salt password)
unfolding hash_password same_bytes
verify_password-hash_password crypto salt password other encoded laws h =
    elim (Bool-cases (ltb (byte_len password) 12)) [
      | inl e ↦
          let q : ◌≡◌ {A = Result SecurityError Text} (err short_password) (ok encoded) =
            sym (if_true _ _ _ e) ∙ h in
          cc
      | inr e ↦
          let made : phc_string crypto salt (key_of crypto salt password) ≡ encoded =
            ok-injective (sym (if_false _ _ _ e) ∙ h) in
          rw (← made) (
            rw
              (verify_phc crypto salt (key_of crypto salt password) other laws
                (laws.key_length _ _ _ _ _ _))
              (text_eq_iff (key_of crypto salt other) (key_of crypto salt password)))
    ]
