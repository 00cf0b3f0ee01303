-- ===== src/Manager/Secrets.antt =====
-- internal/instance/manager.go: the encrypted columns of an instance.
use olcrtc_panel_lite.Common.{
  ℕ, Option, none, some, List, ◌∷◌, if◌then◌else◌, Result, ok, wrap_err, slt, ◌>>=◌,
}
use olcrtc_panel_lite.Text.{Text, split}
use olcrtc_panel_lite.Model.{Instance, Time}
use olcrtc_panel_lite.Systemd.Show.{unix}
use olcrtc_panel_lite.Security.Crypto.{Bytes}
use olcrtc_panel_lite.Security.Secrets.{encrypt, decrypt}
use olcrtc_panel_lite.Manager.World.{Host, ManagerError, bad_secret, Action, then_on, given, now}

-- Encrypt
unfoldable pub sealed : Host → Text → Action Text
sealed host plain w =
    then_on (now w) (λ t. given bad_secret (encrypt host.crypto (host.draw t) plain))

-- Decrypt
unfoldable pub plain_text : Host → Text → Result ManagerError Text
plain_text host value = wrap_err bad_secret (decrypt host.crypto value)

abbrev pub with_secrets : Instance → Text → Text → Instance
with_secrets item token proxy = record item { auth_token = token; outbound_proxy = proxy }

-- encryptSecrets
unfoldable pub encrypt_secrets : Host → Instance → Action Instance
encrypt_secrets host item w = then_on (sealed host item.auth_token w) (λ token w1.
    then_on (sealed host item.outbound_proxy w1)
      (λ proxy w2. (w2, ok (with_secrets item token proxy))))

-- decryptSecrets
unfoldable pub decrypt_secrets : Host → Instance → Result ManagerError Instance
decrypt_secrets host item = plain_text host item.auth_token >>= λ token.
    plain_text host item.outbound_proxy >>= λ proxy. ok (with_secrets item token proxy)

-- a claim "exp" that is positive, as a time
unfoldable pub expiry_of : Option ℕ → Option Time
expiry_of none = none
expiry_of (some seconds) = if slt 0 seconds then some (unix seconds) else none

unfoldable pub expiry_of_payload : Host → Option Bytes → Option Time
expiry_of_payload host none = none
expiry_of_payload host (some payload) = expiry_of (host.expiry_claim payload)

unfoldable pub expiry_of_parts : Host → List Text → Option Time
expiry_of_parts host (head ∷ payload ∷ rest) =
    expiry_of_payload host (host.crypto.decode_url payload)
expiry_of_parts host _ = none

-- authTokenExpiration
unfoldable pub auth_token_expiration : Host → Text → Option Time
auth_token_expiration host token = expiry_of_parts host (split token 46)
