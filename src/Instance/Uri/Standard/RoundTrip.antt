-- ===== src/Instance/Uri/Standard/RoundTrip.antt =====
-- ValidateStandardURI accepts what StandardURI renders.
use olcrtc_panel_lite.Common.{
  ℕ, ◌≤◌, ◌≡◌, refl, false, [], ◌∷◌, ◌++◌, arith, All, All-append, All-mono, ok, >>=-eq-ok,
  ok-injective, le→ltb,
}
use olcrtc_panel_lite.Text.{
  Text, codes, is_empty, is_space, has_prefix, trim_space, to_lower, to_lower_rune, byte_len,
}
use olcrtc_panel_lite.Text.Pieces.{NoneOf, contains_any-NoneOf}
use olcrtc_panel_lite.Text.Space.{Ends-append, trim_space_lem}
use olcrtc_panel_lite.Model.{Instance}
use olcrtc_panel_lite.Instance.Uri.Standard.Render.{
  standard_comment, standard_params, present, sort_keys, standard_payload, standard_uri,
  validate_uri_fields,
}
use olcrtc_panel_lite.Instance.Uri.Standard.Check.{
  olcbox, uri_format, is_olcbox, check_body, validate_standard_uri,
}
use olcrtc_panel_lite.Instance.Uri.Standard.Values.{CanRender, Accepts, standard_params-Accepts}
use olcrtc_panel_lite.Instance.Uri.Standard.Token.{transports-IsName}
use olcrtc_panel_lite.Instance.Uri.Standard.Bracket.{transport_token}
use olcrtc_panel_lite.Instance.Uri.Standard.Fields.{
  AreFields, checked_fields, providers-IsName, key-IsHex, Middle, name-Middle, bracketed-Middle,
  token-trim, comment-TrimmedRight,
}
use olcrtc_panel_lite.Instance.Uri.Standard.Body.{
  rest_of, front_of, front-Middle, check_rest_lem, check_body_lem, format_lem,
}

-- the text that StandardURI renders, grouped as the validation reads it
abbrev body_of : Instance → Text → Text → Text
body_of item key comment =
    front_of item.provider (item.transport ++ standard_payload item)
    ++ b'@' ∷ rest_of item.room_id key comment

abbrev uri_of : Instance → Text → Text → Text
uri_of item key comment = codes "olcrtc://" ++ body_of item key comment

-- no line break in any piece
abbrev OneLine : ℕ → Type 0
OneLine c = NoneOf (codes "\r\n") c

module _ (item : Instance) (key comment : Text) (f : AreFields item key (standard_comment comment))
    (o : CanRender item.options) where
  accepts : Accepts item.transport (sort_keys (present (standard_params item)))
  accepts = standard_params-Accepts item o

  token-Middle : All Middle (item.transport ++ standard_payload item)
  unfolding standard_payload
  token-Middle =
      All-append Middle item.transport _
        (name-Middle item.transport (transports-IsName _ f.transport))
        (bracketed-Middle item.transport _ accepts)

  uri-OneLine : All OneLine (uri_of item key (standard_comment comment))
  uri-OneLine =
      All-append OneLine (codes "olcrtc://") (body_of item key (standard_comment comment))
        (refl, (refl, (refl, (refl, (refl, (refl, (refl, (refl, (refl, tt)))))))))
        (All-append OneLine (front_of item.provider (item.transport ++ standard_payload item)) _
          (All-mono _ (λ c k. ground arith)
            (front-Middle item.provider _
              (name-Middle item.provider (providers-IsName item.provider f.provider)) token-Middle))
          (
            refl,
            All-append OneLine item.room_id _ (All-mono item.room_id (λ c k. ground arith) f.room) (
              refl,
              All-append OneLine key _ (All-mono key (λ c k. ground arith) (key-IsHex key f.key))
                  (refl, All-mono (standard_comment comment) (λ c k. ground arith) f.comment),
            ),
          ))

  uri-trim :
      trim_space (uri_of item key (standard_comment comment))
      ≡ uri_of item key (standard_comment comment)
  unfolding is_space
  uri-trim =
      trim_space_lem b'o' _ refl
        (Ends-append (codes "olcrtc://") (body_of item key (standard_comment comment)) (
          Ends-append (front_of item.provider (item.transport ++ standard_payload item)) _ (
            Ends-append (b'@' ∷ []) _ (
              Ends-append item.room_id _ (
                Ends-append (b'#' ∷ []) _ (
                  Ends-append key (b'$' ∷ standard_comment comment)
                    (comment-TrimmedRight comment, cc))))))).0

  uri-olcbox : uri_format (uri_of item key (standard_comment comment)) ≡ olcbox
  unfolding uri_format
  uri-olcbox = rw uri-trim (
      unfold to_lower to_lower_rune has_prefix in
      format_lem item.provider (item.transport ++ standard_payload item)
        (rest_of item.room_id key (standard_comment comment))
        (providers-IsName item.provider f.provider) token-Middle)

  body-checked :
      is_empty (trim_space item.room_id) ≡ false
      → check_body (body_of item key (standard_comment comment)) ≡ ok tt
  unfolding standard_payload
  body-checked room =
      check_body_lem item.provider (item.transport ++ standard_payload item)
        (rest_of item.room_id key (standard_comment comment))
        (providers-IsName item.provider f.provider) token-Middle item.transport f.provider
        (token-trim item.transport _ (transports-IsName _ f.transport))
        (transport_token item.transport _ f.transport accepts) f.transport
        (check_rest_lem item key (standard_comment comment) f room)

accepted :
    (item : Instance) (key comment : Text)
    → AreFields item key (standard_comment comment)
    → CanRender item.options
    → is_empty (trim_space item.room_id) ≡ false
    → (uri : Text) → uri_of item key (standard_comment comment) ≡ uri
    → byte_len uri ≤ 16384
    → validate_standard_uri uri ≡ ok tt
unfolding validate_standard_uri is_olcbox
accepted item key comment f o room uri e short = rw (le→ltb 16384 (byte_len uri) short) (
    rw (← e) (
      rw (uri-trim item key comment f o) (
        rw
          (
            uri-olcbox item key comment f o,
            contains_any-NoneOf (codes "\r\n") _ (uri-OneLine item key comment f o),
          )
          (body-checked item key comment f o room))))

-- A URI that StandardURI renders, at most 16 KiB long, passes ValidateStandardURI, where the room is
-- not blank and the transport options are ints and texts without separators or spaces at the ends.
pub validate_standard_uri-standard_uri :
    (item : Instance) (key comment uri : Text)
    → standard_uri item key comment ≡ ok uri
    → is_empty (trim_space item.room_id) ≡ false
    → CanRender item.options
    → byte_len uri ≤ 16384
    → validate_standard_uri uri ≡ ok tt
unfolding standard_uri
validate_standard_uri-standard_uri item key comment uri h room o short =
    let (u, passed, same) =
      >>=-eq-ok (validate_uri_fields item key (standard_comment comment)) _ h in
    let f = checked_fields item key (standard_comment comment) passed in
    accepted item key comment f o room uri (ok-injective same) short
