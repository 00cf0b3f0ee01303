-- ===== src/Instance/Uri/Client/Parts.antt =====
-- The token's parameter among those of a client URI.
use olcrtc_panel_lite.Common.{
  ◌≡◌, refl, ap, true, false, not, ◌&&◌, List, [], ◌∷◌, ◌++◌, arith, Bool-cases, inl, inr,
}
use olcrtc_panel_lite.Text.{Text, codes, text_eq, is_empty, cut}
use olcrtc_panel_lite.Model.{Instance}
use olcrtc_panel_lite.Instance.Names.{wbstream, vp8channel}
use olcrtc_panel_lite.Instance.Uri.Client.{
  client_escape, client_parts, vp8_parts, token_parts, dns_parts, without_token, is_token_part,
}

without_token-append :
    (ps qs : List Text) → without_token (ps ++ qs) ≡ without_token ps ++ without_token qs
unfolding without_token
without_token-append [] qs = refl
without_token-append (p ∷ ps) qs = ground (arith, without_token-append ps qs)

without_token-vp8_parts : (item : Instance) → without_token (vp8_parts item) ≡ vp8_parts item
unfolding without_token vp8_parts is_token_part text_eq cut
without_token-vp8_parts item = elim (Bool-cases (text_eq item.transport vp8channel)) [
  | inl e ↦ rw e
  | inr e ↦ rw e
]

without_token-dns_parts : (item : Instance) → without_token (dns_parts item) ≡ dns_parts item
unfolding without_token dns_parts is_token_part text_eq cut
without_token-dns_parts item = elim (Bool-cases (is_empty item.dns)) [ inl e ↦ rw e | inr e ↦ rw e ]

without_token-token_parts : (item : Instance) → without_token (token_parts item) ≡ []
unfolding without_token token_parts is_token_part text_eq cut
without_token-token_parts item =
    elim (Bool-cases (text_eq item.provider wbstream && not item.omit_client_auth_token)) [
      | inl e ↦ rw e
      | inr e ↦ rw e
    ]

-- the same instance with the token left out of its URI
abbrev pub omitting : Instance → Instance
omitting item = record item { omit_client_auth_token = true }

omitting-token_parts : (item : Instance) → token_parts (omitting item) ≡ []
unfolding token_parts
omitting-token_parts item = elim (Bool-cases (text_eq item.provider wbstream)) [
  | inl e ↦ rw e
  | inr e ↦ rw e
]

-- a list of parts, of which the third group goes
without_token_groups :
    (v t d : List Text) (c : Text)
    → without_token v ≡ v
    → is_token_part c ≡ false
    → without_token t ≡ []
    → without_token d ≡ d
    → without_token (v ++ (c ∷ (t ++ d))) ≡ v ++ (c ∷ d)
unfolding without_token
without_token_groups v t d c hv hc ht hd =
    rw (without_token-append v (c ∷ (t ++ d)))
      (rw (hv, hc, without_token) (rw (without_token-append t d) (rw (ht, hd))))

pub without_token-client_parts :
    (item : Instance) (key : Text)
    → without_token (client_parts item key) ≡ client_parts (omitting item) key
unfolding client_parts without_token
without_token-client_parts item key = rw (omitting-token_parts item) (
    unfold is_token_part cut text_eq in
    ap
      (λ (l : List Text).
        (codes "k=" ++ client_escape key) ∷ (codes "t=" ++ client_escape item.transport) ∷ l)
      (without_token_groups (vp8_parts item) (token_parts item) (dns_parts item)
        (codes "c=" ++ client_escape item.client_id) (without_token-vp8_parts item) refl
        (without_token-token_parts item) (without_token-dns_parts item)))
