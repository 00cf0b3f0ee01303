-- ===== src/Instance/Config/Warning.antt =====
-- internal/instance/config.go: CompatibilityWarning, against ClientCompatible of uri.go.
use olcrtc_panel_lite.Common.{
  ◌≡◌, refl, true, false, ◌||◌, [], ◌∷◌, ◌++◌, arith, if◌then◌else◌, inl, inr,
}
use olcrtc_panel_lite.Text.{Text, codes, text_eq}
use olcrtc_panel_lite.Text.Equality.{text_eq-cases}
use olcrtc_panel_lite.Instance.Names.{jitsi, telemost, wbstream, datachannel, vp8channel}
use olcrtc_panel_lite.Instance.Uri.Client.{client_compatible}

-- CompatibilityWarning
unfoldable pub compatibility_warning : Text → Text → Text
compatibility_warning provider transport =
    let key = provider ++ b':' ∷ transport in
    if text_eq key (codes "telemost:datachannel") || text_eq key (codes "telemost:seichannel")
    then codes "Эта комбинация не поддерживается upstream."
    else if text_eq key (codes "telemost:videochannel")
    then codes "Videochannel через Telemost работает медленно и нестабильно."
    else if text_eq key (codes "wbstream:datachannel")
    then codes "В гостевом WB-потоке datachannel не передаёт данные без moderator token."
    else if text_eq key (codes "jitsi:vp8channel")
        || text_eq key (codes "jitsi:seichannel")
        || text_eq key (codes "jitsi:videochannel")
    then codes "Видео-транспорты Jitsi нестабильны; для надёжности используйте datachannel."
    else []

-- the three pairs that OLCRTC Client implements
data Pair (p t : Text) : Type 0 where
  wb : p ≡ wbstream → t ≡ vp8channel → Pair p t
  tele : p ≡ telemost → t ≡ vp8channel → Pair p t
  jit : p ≡ jitsi → t ≡ datachannel → Pair p t

video-Pair :
    (p t : Text)
    → t ≡ vp8channel
    → client_compatible p t ≡ true
    → text_eq t datachannel ≡ false
    → Pair p t
unfolding client_compatible
video-Pair p t e h no_data = elim (text_eq-cases p wbstream) [
  | inl w ↦ wb w e
  | inr a ↦ elim (text_eq-cases p telemost) [ inl w ↦ tele w e | inr b ↦ ground arith ]
]

compatible-Pair : (p t : Text) → client_compatible p t ≡ true → Pair p t
unfolding client_compatible
compatible-Pair p t h = elim (text_eq-cases t vp8channel) [
  | inl e ↦ video-Pair p t e h (rw e (unfold text_eq in refl))
  | inr a ↦ elim (text_eq-cases t datachannel) [
    | inl e ↦ elim (text_eq-cases p jitsi) [ inl j ↦ jit j e | inr b ↦ ground arith ]
    | inr b ↦ ground arith
  ]
]

unwarned : (p t : Text) → Pair p t → compatibility_warning p t ≡ []
unfolding compatibility_warning text_eq
unwarned p t (wb a b) = rw (a, b)
unwarned p t (tele a b) = rw (a, b)
unwarned p t (jit a b) = rw (a, b)

-- The panel shows no warning for a pair that OLCRTC Client implements.
pub compatible-without_warning :
    (provider transport : Text)
    → client_compatible provider transport ≡ true
    → compatibility_warning provider transport ≡ []
compatible-without_warning p t h = unwarned p t (compatible-Pair p t h)
