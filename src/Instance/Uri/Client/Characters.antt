-- ===== src/Instance/Uri/Client/Characters.antt =====
-- The characters of the pieces of a client URI: no separator gets into a parameter.
use olcrtc_panel_lite.Common.{
  ℕ, ◌≡◌, ◌≢◌, true, not, ◌&&◌, [], ◌∷◌, arith, ◌==◌, All, All-append, All-mono, Bool-cases, inl,
  inr, ◌⊎◌,
}
use olcrtc_panel_lite.Text.{Text, codes, text_eq, replace_rune, is_empty}
use olcrtc_panel_lite.Text.Equality.{text_eq-cases}
use olcrtc_panel_lite.Text.Number.{itoa, itoa-digits}
use olcrtc_panel_lite.Text.Escape.{Plain, query_escape, query_escape-Plain}
use olcrtc_panel_lite.Model.{Instance}
use olcrtc_panel_lite.Instance.Names.{jitsi, telemost, wbstream, vp8channel}
use olcrtc_panel_lite.Instance.Uri.Client.{
  client_escape, client_parts, vp8_parts, token_parts, dns_parts, client_compatible,
}

-- no separator of parameters, no marker of a fragment
abbrev pub Inner : ℕ → Type 0
Inner c = (c ≢ b'&') × (c ≢ b'#')

replace_rune-All :
    (P : ℕ → Type 0) (r : ℕ) (t s : Text) → All P t → All P s → All P (replace_rune r t s)
unfolding replace_rune
replace_rune-All P r t [] ht hs = tt
replace_rune-All P r t (c ∷ s) ht hs = elim (Bool-cases (c == r)) [
  | inl e ↦ rw (e, All) (All-append P t _ ht (replace_rune-All P r t s ht hs.1))
  | inr e ↦ rw (e, All) (hs.0, replace_rune-All P r t s ht hs.1)
]

pub client_escape-Plain : (s : Text) → All Plain (client_escape s)
unfolding client_escape
client_escape-Plain s =
    replace_rune-All Plain b'+' (codes "%20") (query_escape s) (omega arith) (query_escape-Plain s)

client_escape-Inner : (s : Text) → All Inner (client_escape s)
client_escape-Inner s = All-mono (client_escape s) (λ c h. (h.1, h.2)) (client_escape-Plain s)

itoa-Inner : (n : ℕ) → All Inner (itoa n)
itoa-Inner n = itoa-digits Inner (omega arith) (λ c h. (omega arith, omega arith)) n

vp8_parts-Inner : (item : Instance) → All (All Inner) (vp8_parts item)
unfolding vp8_parts
vp8_parts-Inner item = elim (Bool-cases (text_eq item.transport vp8channel)) [
  | inl e ↦
      rw (e, All)
        ((
          (omega arith, (omega arith, itoa-Inner item.options.vp8_fps)),
          ((omega arith, (omega arith, itoa-Inner item.options.vp8_batch)), tt),
        ))
  | inr e ↦ rw (e, All) tt
]

token_parts-Inner : (item : Instance) → All (All Inner) (token_parts item)
unfolding token_parts
token_parts-Inner item =
    elim (Bool-cases (text_eq item.provider wbstream && not item.omit_client_auth_token)) [
      | inl e ↦ rw (e, All) ((omega arith, (omega arith, client_escape-Inner item.auth_token)), tt)
      | inr e ↦ rw (e, All) tt
    ]

dns_parts-Inner : (item : Instance) → All (All Inner) (dns_parts item)
unfolding dns_parts
dns_parts-Inner item = elim (Bool-cases (is_empty item.dns)) [
  | inl e ↦ rw (e, All) tt
  | inr e ↦ rw (e, All) ((omega arith, (omega arith, client_escape-Inner item.dns)), tt)
]

pub client_parts-Inner : (item : Instance) (key : Text) → All (All Inner) (client_parts item key)
unfolding client_parts
client_parts-Inner item key = (
  (omega arith, (omega arith, client_escape-Inner key)),
  (
    (omega arith, (omega arith, client_escape-Inner item.transport)),
    All-append (All Inner) (vp8_parts item) _ (vp8_parts-Inner item) (
      (omega arith, (omega arith, client_escape-Inner item.client_id)),
      All-append (All Inner) (token_parts item) (dns_parts item) (token_parts-Inner item)
          (dns_parts-Inner item),
    ),
  ),
)

-- a compatible pair names one of three providers
compatible_provider :
    (p t : Text) → client_compatible p t ≡ true → (p ≡ wbstream) ⊎ ((p ≡ telemost) ⊎ (p ≡ jitsi))
unfolding client_compatible
compatible_provider p t h = elim (text_eq-cases p wbstream) [
  | inl e ↦ inl e
  | inr x ↦ elim (text_eq-cases p telemost) [
    | inl e ↦ inr (inl e)
    | inr y ↦ elim (text_eq-cases p jitsi) [ inl e ↦ inr (inr e) | inr z ↦ ground arith ]
  ]
]

pub compatible-Plain : (p t : Text) → client_compatible p t ≡ true → All Plain p
compatible-Plain p t h = elim (compatible_provider p t h) [
  | inl e ↦ rw e (omega arith)
  | inr more ↦ elim more [ inl e ↦ rw e (omega arith) | inr e ↦ rw e (omega arith) ]
]
