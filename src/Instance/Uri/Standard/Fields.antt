-- ===== src/Instance/Uri/Standard/Fields.antt =====
-- What the checks of StandardURI say of the pieces of its URI.
use olcrtc_panel_lite.Common.{
  ℕ, ◌≡◌, ◌≢◌, refl, ap, Bool, true, List, [], ◌∷◌, ◌++◌, map, arith, all, All, All-append,
  All-mono, ok, ◌⊎◌, inl, inr, append-nil, append_assoc,
}
use olcrtc_panel_lite.Text.{
  Text, codes, is_space, contains_rune, trim_space, trim_right, fields, join,
}
use olcrtc_panel_lite.Text.Equality.{text_eq-cases}
use olcrtc_panel_lite.Text.Pieces.{NoneOf, NoneOf-contains_any, All-join}
use olcrtc_panel_lite.Text.Space.{
  TrimmedRight, trim_right-append, join-TrimmedRight, fields-Word, trim_space-Solid, trim_space_lem,
}
use olcrtc_panel_lite.Model.{Instance}
use olcrtc_panel_lite.Instance.Names.{jitsi, telemost, wbstream, providers, transports}
use olcrtc_panel_lite.Instance.Uri.Client.{validate_key}
use olcrtc_panel_lite.Instance.Uri.Standard.Render.{
  assignment, bracketed, standard_comment, validate_uri_fields,
}
use olcrtc_panel_lite.Instance.Uri.Standard.Params.{IsParam}
use olcrtc_panel_lite.Instance.Uri.Standard.Values.{Accepts, nothing, parameters}
use olcrtc_panel_lite.Instance.Uri.Standard.Token.{IsName, literal-IsName, assignments-plain}

-- the separators of the OLCBOX URI
abbrev pub reserved : Text
reserved = codes "?<>@#$\r\n"

pub record AreFields (item : Instance) (k c : Text) : Type 0 where
  pub key : validate_key k ≡ ok tt
  pub provider : providers item.provider ≡ true
  pub transport : transports item.transport ≡ true
  pub room : All (NoneOf reserved) item.room_id
  pub comment : All (NoneOf reserved) c

pub checked_fields :
    (item : Instance) (key comment : Text)
    → validate_uri_fields item key comment ≡ ok tt
    → AreFields item key comment
unfolding validate_uri_fields
checked_fields item key comment h = record {
  key = ground arith;
  provider = ground arith;
  transport = ground arith;
  room = NoneOf-contains_any reserved item.room_id (ground arith);
  comment = NoneOf-contains_any reserved comment (ground arith);
}

providers-cases : (p : Text) → providers p ≡ true → (p ≡ jitsi) ⊎ ((p ≡ telemost) ⊎ (p ≡ wbstream))
unfolding providers
providers-cases p h = elim (text_eq-cases p jitsi) [
  | inl e ↦ inl e
  | inr a ↦ elim (text_eq-cases p telemost) [
    | inl e ↦ inr (inl e)
    | inr b ↦ elim (text_eq-cases p wbstream) [ inl e ↦ inr (inr e) | inr c ↦ ground arith ]
  ]
]

pub providers-IsName : (p : Text) → providers p ≡ true → IsName p
unfolding is_space
providers-IsName p h = elim (providers-cases p h) [
  | inl e ↦ rw e (literal-IsName _ refl refl refl)
  | inr more ↦ elim more [
    | inl e ↦ rw e (literal-IsName _ refl refl refl)
    | inr e ↦ rw e (literal-IsName _ refl refl refl)
  ]
]

abbrev pub IsHex : ℕ → Type 0
IsHex c = contains_rune (codes "0123456789abcdefABCDEF") c ≡ true

all-All : (p : ℕ → Bool) (s : Text) → all p s ≡ true → All (λ c. p c ≡ true) s
all-All p [] h = tt
all-All p (c ∷ s) h = (ground arith, all-All p s (ground arith))

pub key-IsHex : (key : Text) → validate_key key ≡ ok tt → All IsHex key
unfolding validate_key
key-IsHex key h = all-All (contains_rune (codes "0123456789abcdefABCDEF")) key (ground arith)

-- one line, and none of the marks that end a field before the comment
abbrev pub Middle : ℕ → Type 0
Middle c = (c ≢ b'@') × (c ≢ b'\r') × (c ≢ b'\n')

pub name-Middle : (t : Text) → IsName t → All Middle t
name-Middle t n =
    All-mono t (λ c k. (ground arith, ground arith, ground arith))
      (NoneOf-contains_any (codes "<>@#$?&=\r\n") t n.plain)

bracketed_good :
    (allowed : List Text) (ps : List (Text × Text))
    → All (IsParam allowed) ps
    → All Middle (bracketed ps)
unfolding bracketed
bracketed_good allowed [] h = tt
bracketed_good allowed (p ∷ ps) h = (
  (omega arith, omega arith, omega arith),
  All-append Middle (join (map assignment (p ∷ ps)) (codes "&")) (b'>' ∷ [])
      (All-join Middle (codes "&") (map assignment (p ∷ ps)) (omega arith) (
        All-mono (map assignment (p ∷ ps))
          (λ t k. All-mono t (λ c n. (ground arith, ground arith, ground arith)) k)
          (assignments-plain allowed (p ∷ ps) h)))
      (omega arith),
)

pub bracketed-Middle :
    (t : Text) (ps : List (Text × Text)) → Accepts t ps → All Middle (bracketed ps)
bracketed-Middle t ps (nothing e) = rw e (unfold bracketed in tt)
bracketed-Middle t ps (parameters allowed e g d) = bracketed_good allowed ps g

-- The token that StandardURI writes has no space at its ends.
pub token-trim :
    (t : Text) (ps : List (Text × Text))
    → IsName t
    → trim_space (t ++ bracketed ps) ≡ t ++ bracketed ps
unfolding bracketed
token-trim t [] n = rw append-nil (trim_space-Solid t n.solid)
token-trim [] (p ∷ ps) n = cc n.filled
token-trim (c ∷ t) (p ∷ ps) n = trim_space_lem c _ n.solid.0 (
    rw (← append_assoc (c ∷ t) (b'<' ∷ join (map assignment (p ∷ ps)) (codes "&")) (b'>' ∷ [])) (
      trim_right-append (◌++◌ {A = ℕ} (c ∷ t) (b'<' ∷ join (map assignment (p ∷ ps)) (codes "&")))
        (b'>' ∷ []) (unfold trim_right is_space in refl) (cc)))

pub comment-TrimmedRight : (comment : Text) → TrimmedRight (b'$' ∷ standard_comment comment)
unfolding standard_comment trim_right is_space
comment-TrimmedRight comment =
    ap (λ (t : Text). b'$' ∷ t) (join-TrimmedRight (codes " ") (fields _) (fields-Word _))
