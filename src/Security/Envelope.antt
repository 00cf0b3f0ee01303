-- ===== src/Security/Envelope.antt =====
-- internal/security/security.go: an encrypted secret opens again, under the laws that Go documents for
-- base64 and an AEAD.
use olcrtc_panel_lite.Common.{
  ◌≡◌, refl, ap, false, some, [], ◌∷◌, ◌++◌, ltb, length, take, drop, ok, ◌>>=◌, length-append,
  take-append, drop-append, le→ltb, arith,
}
use olcrtc_panel_lite.Text.{Text, has_prefix, trim_prefix}
use olcrtc_panel_lite.Security.Crypto.{Bytes, Crypto, text_bytes}
use olcrtc_panel_lite.Security.Secrets.{
  additional_data, envelope, sealed, encrypt, opened, open_envelope, decrypt,
}

-- base64 decodes what it encoded, and Open undoes Seal
pub record IsAead (crypto : Crypto) : Type 0 where
  pub decodes : (b : Bytes) → crypto.decode_url (crypto.encode_url b) ≡ some b
  pub unseals :
      (nonce plain extra : Bytes)
      → crypto.unseal nonce (crypto.seal nonce plain extra) extra ≡ some plain

envelope_opens :
    (crypto : Crypto) (nonce : Bytes) (plain : Text)
    → IsAead crypto
    → length nonce ≡ crypto.nonce_size
    → crypto.bytes_text (text_bytes plain) ≡ plain
    → decrypt crypto (envelope crypto nonce plain) ≡ ok plain
unfolding decrypt envelope has_prefix trim_prefix open_envelope opened
envelope_opens crypto nonce plain laws size text =
    let box = crypto.seal nonce (text_bytes plain) additional_data in
    let long : ltb (length (nonce ++ box)) crypto.nonce_size ≡ false =
      le→ltb _ _ (let l = length-append nonce box in omega arith) in
    let front : take crypto.nonce_size (nonce ++ box) ≡ nonce =
      rw (← size) (take-append nonce box) in
    let back : drop crypto.nonce_size (nonce ++ box) ≡ box = rw (← size) (drop-append nonce box) in
    rw (laws.decodes (nonce ++ box)) (
      rw long (
        rw (front, back) (rw (laws.unseals nonce (text_bytes plain) additional_data) (ap ok text))))

-- Decrypt returns the text that was given to Encrypt, the empty text included, where the nonce has the
-- size of the cipher and the bytes of the text are valid UTF-8.
pub decrypt-encrypt :
    (crypto : Crypto) (nonce : Bytes) (plain : Text)
    → IsAead crypto
    → length nonce ≡ crypto.nonce_size
    → crypto.bytes_text (text_bytes plain) ≡ plain
    → (encrypt crypto (some nonce) plain >>= decrypt crypto) ≡ ok plain
unfolding encrypt decrypt sealed
decrypt-encrypt crypto nonce [] laws size text = refl
decrypt-encrypt crypto nonce (c ∷ plain) laws size text =
    envelope_opens crypto nonce (c ∷ plain) laws size text
