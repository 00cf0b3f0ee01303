-- ===== src/Instance/Uri/Standard/Bracket.antt =====
-- The transport token with its bracketed payload.
use olcrtc_panel_lite.Common.{
  ◌+◌, ◌-◌, ◌≡◌, ◌∙◌, true, false, some, List, [], ◌∷◌, ◌++◌, append_assoc, append-nil, arith, ◌==◌,
  take, drop, length, length-append, take-append, drop-take-append, All, All-mono, ok,
}
use olcrtc_panel_lite.Text.{Text, codes, is_empty, index_byte, count}
use olcrtc_panel_lite.Text.Pieces.{index_byte-append, index_byte-Lacks, NoneOf-contains_any}
use olcrtc_panel_lite.Text.Space.{trim_space-Solid}
use olcrtc_panel_lite.Instance.Names.{transports}
use olcrtc_panel_lite.Instance.Uri.Standard.Render.{bracketed}
use olcrtc_panel_lite.Instance.Uri.Standard.Check.{
  ends_with, check_payload, validate_standard_transport,
}
use olcrtc_panel_lite.Instance.Uri.Standard.Values.{Accepts, nothing, parameters}
use olcrtc_panel_lite.Instance.Uri.Standard.Token.{
  IsName, transports-IsName, Inside, inner, ends_with-append, count-append, count-Lacks,
  inner-Inside, check_payload_lem,
}

abbrev token : Text → Text → Text
token t i = t ++ b'<' ∷ (i ++ b'>' ∷ [])

head_length : (t : Text) → length (t ++ b'<' ∷ []) ≡ length t + 1
head_length t = length-append t (b'<' ∷ [])

length-filled : (t : Text) → is_empty t ≡ false → (length t == 0) ≡ false
length-filled [] h = cc
length-filled (c ∷ t) h = ground arith

module _ (t i : Text) (n : IsName t) (h : All Inside i) where
  name-Inside : All Inside t
  name-Inside =
      All-mono t (λ c k. (ground arith, ground arith))
        (NoneOf-contains_any (codes "<>@#$?&=\r\n") t n.plain)

  token_start : index_byte (token t i) b'<' ≡ some (length t)
  token_start = index_byte-append b'<' t (i ++ b'>' ∷ []) (All-mono t (λ c k. k.0) name-Inside)

  token_end : ends_with (token t i) b'>' ≡ true
  token_end = rw (← append_assoc t (b'<' ∷ i) (b'>' ∷ [])) (ends_with-append (t ++ b'<' ∷ i) b'>')

  none_in_name : (count t b'<' ≡ 0) × (count t b'>' ≡ 0)
  none_in_name = (
    count-Lacks t b'<' (All-mono t (λ c k. k.0) name-Inside),
    count-Lacks t b'>' (All-mono t (λ c k. k.1) name-Inside),
  )

  none_inside : (count i b'<' ≡ 0) × (count i b'>' ≡ 0)
  none_inside = (
    count-Lacks i b'<' (All-mono i (λ c k. k.0) h),
    count-Lacks i b'>' (All-mono i (λ c k. k.1) h),
  )

  one_left : count (token t i) b'<' ≡ 1
  unfolding count
  one_left = omega (
    arith,
    count-append t (b'<' ∷ (i ++ b'>' ∷ [])) b'<',
    count-append i (b'>' ∷ []) b'<',
    none_inside,
    none_in_name,
  )

  one_right : count (token t i) b'>' ≡ 1
  unfolding count
  one_right = omega (
    arith,
    count-append t (b'<' ∷ (i ++ b'>' ∷ [])) b'>',
    count-append i (b'>' ∷ []) b'>',
    none_inside,
    none_in_name,
  )

  token_length : length (token t i) - 1 ≡ length (t ++ b'<' ∷ []) + length i
  token_length = omega (
    arith,
    length-append t (b'<' ∷ (i ++ b'>' ∷ [])),
    length-append i (b'>' ∷ []),
    length-append t (b'<' ∷ []),
  )

  payload_slice : drop (length t + 1) (take (length (token t i) - 1) (token t i)) ≡ i
  payload_slice = rw token_length (
      rw (← head_length t) (
        rw (← append_assoc t (b'<' ∷ []) (i ++ b'>' ∷ []))
          (drop-take-append (t ++ b'<' ∷ []) i (b'>' ∷ []))))

  token_split : validate_standard_transport (token t i) ≡ check_payload t i
  unfolding validate_standard_transport
  token_split =
      rw (token_start, validate_standard_transport)
        (rw
          (
            token_end,
            one_left,
            one_right,
            length-filled t n.filled,
            take-append t (b'<' ∷ (i ++ b'>' ∷ [])),
          )
          (rw (payload_slice, trim_space-Solid t n.solid)))

bare_token : (t : Text) → IsName t → validate_standard_transport t ≡ ok t
unfolding validate_standard_transport check_payload
bare_token t n =
    rw
      (
        index_byte-Lacks b'<' t (
            All-mono t (λ c k. ground arith)
              (NoneOf-contains_any (codes "<>@#$?&=\r\n") t n.plain)),
        validate_standard_transport,
      )
      (rw (n.filled, n.plain))

-- The transport token that StandardURI writes is read as its transport.
pub transport_token :
    (t : Text) (ps : List (Text × Text))
    → transports t ≡ true
    → Accepts t ps
    → validate_standard_transport (t ++ bracketed ps) ≡ ok t
unfolding bracketed
transport_token t [] h a = rw append-nil (bare_token t (transports-IsName t h))
transport_token t (p ∷ ps) h (nothing e) = cc
transport_token t (p ∷ ps) h (parameters allowed e g d) =
    let n = transports-IsName t h in
    token_split t (inner (p ∷ ps)) n (inner-Inside allowed (p ∷ ps) g)
    ∙ check_payload_lem t allowed p ps n e g d
