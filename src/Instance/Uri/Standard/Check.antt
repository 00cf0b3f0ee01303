-- ===== src/Instance/Uri/Standard/Check.antt =====
-- internal/instance/uri.go: URIFormat and ValidateStandardURI. An index that Go compares with -1 is
-- shifted by one (`index1`), so that an absent character counts 0.
use olcrtc_panel_lite.Common.{
  ℕ, suc, ◌+◌, ◌-◌, Bool, true, false, not, ◌&&◌, ◌||◌, Option, none, some, List, [], ◌∷◌, ltb,
  ◌==◌, if◌then◌else◌, take, drop, length, any, Result, Check, ok, err, ◌>>=◌, ◌>>◌, reject,
  wrap_err,
}
use olcrtc_panel_lite.Text.{
  Text, codes, text_eq, is_empty, has_prefix, contains_any, index_byte, count, cut, split,
  trim_space, to_lower, byte_len,
}
use olcrtc_panel_lite.Text.Number.{parse_int, Parsed, number}
use olcrtc_panel_lite.Instance.Names.{vp8channel, seichannel, videochannel, providers, transports}
use olcrtc_panel_lite.Instance.Uri.Client.{UriError, validate_key}

-- an index plus one, 0 where Go has -1
unfoldable pub index1 : Text → ℕ → ℕ
index1 s c = elim (index_byte s c) [ none ↦ 0 | some n ↦ suc n ]

pub data UriFormat : Type 0 where
  client olcbox unknown : UriFormat

-- the two shapes of the text behind `olcrtc://`
unfoldable pub format_of_body : Text → UriFormat
format_of_body body =
    let question = index1 body b'?' in
    let at = index1 body b'@' in
    if ltb 1 question && ltb question at
    then olcbox
    else if ltb 1 at && ltb at question && has_prefix (drop at body) (codes "r/")
    then client
    else unknown

-- URIFormat
unfoldable pub uri_format : Text → UriFormat
uri_format raw =
    if has_prefix (to_lower (trim_space raw)) (codes "olcrtc://")
    then format_of_body (drop 9 (trim_space raw))
    else unknown

pub data StandardError : Type 0 where
  too_long not_olcbox bad_shape bad_provider bad_transport missing_key bad_room bad_comment :
      StandardError
  payload_malformed transport_malformed parameter_invalid parameter_not_numeric : StandardError
  bad_key : UriError → StandardError

-- strings.HasSuffix(s, c) for one character
unfoldable pub ends_with : Text → ℕ → Bool
ends_with [] c = false
ends_with (d ∷ []) c = d == c
ends_with (d ∷ e ∷ s) c = ends_with (e ∷ s) c

-- the maps `allowed` of validateStandardTransport
unfoldable pub allowed_keys : Text → Option (List Text)
allowed_keys t =
    if text_eq t vp8channel
    then some (codes "vp8-fps" ∷ codes "vp8-batch" ∷ [])
    else if text_eq t seichannel
    then some (codes "fps" ∷ codes "batch" ∷ codes "frag" ∷ codes "ack-ms" ∷ [])
    else if text_eq t videochannel
    then some (
        codes "video-w"
        ∷ codes "video-h"
        ∷ codes "video-fps"
        ∷ codes "video-bitrate"
        ∷ codes "video-hw"
        ∷ codes "video-codec"
        ∷ codes "video-qr-size"
        ∷ codes "video-qr-recovery"
        ∷ codes "video-tile-module"
        ∷ codes "video-tile-rs"
        ∷ [])
    else none

-- membership in a map of booleans
abbrev pub member : List Text → Text → Bool
member keys k = any (λ j. text_eq j k) keys

unfoldable pub numeric_key : Text → Bool
numeric_key k =
    (has_prefix k (codes "video-")
      || text_eq k (codes "fps")
      || text_eq k (codes "batch")
      || text_eq k (codes "frag")
      || text_eq k (codes "ack-ms"))
    && not (
        member
          (codes "video-bitrate"
            ∷ codes "video-hw"
            ∷ codes "video-codec"
            ∷ codes "video-qr-recovery"
            ∷ [])
          k)

abbrev pub is_number : Parsed → Bool
is_number (number n) = true
is_number e = false

-- strings.Cut with its two texts trimmed: the third result is `ok`
unfoldable pub trimmed_cut : Text → Text × Text × Bool
trimmed_cut part = elim (cut part b'=') [
  | none ↦ (trim_space part, [], false)
  | some (k, v) ↦ (trim_space k, trim_space v, true)
]

-- one round of the loop over the payload's parts: the key, if the part is accepted
unfoldable pub check_part : List Text → List Text → Text → Result StandardError Text
check_part allowed seen part =
    let (key, value, found) = trimmed_cut part in
    if not found
      || is_empty key
      || is_empty value
      || member seen key
      || not (member allowed key)
      || contains_any value (codes "<>@#$?&\r\n")
    then err parameter_invalid
    else if numeric_key key && not (is_number (parse_int value))
    then err parameter_not_numeric
    else ok key

unfoldable pub check_parts : List Text → List Text → List Text → Check StandardError
check_parts allowed seen [] = ok tt
check_parts allowed seen (p ∷ ps) =
    check_part allowed seen p >>= λ key. check_parts allowed (key ∷ seen) ps

-- validateStandardTransport behind the split of the token into transport and payload
unfoldable pub check_payload : Text → Text → Result StandardError Text
check_payload transport payload =
    if is_empty transport || contains_any transport (codes "<>@#$?&=\r\n")
    then err transport_malformed
    else if is_empty payload
    then ok transport
    else elim (allowed_keys transport) [
      | none ↦ err bad_transport
      | some allowed ↦ check_parts allowed [] (split payload b'&') >>= λ _. ok transport
    ]

-- validateStandardTransport
unfoldable pub validate_standard_transport : Text → Result StandardError Text
validate_standard_transport token = elim (index_byte token b'<') [
  | none ↦ check_payload token []
  | some start ↦
      if not (ends_with token b'>')
        || not (count token b'<' == 1)
        || not (count token b'>' == 1)
        || (start == 0)
      then err payload_malformed
      else check_payload (trim_space (take start token))
          (drop (start + 1) (take (length token - 1) token))
]

-- the key and the comment behind the first `$`
unfoldable pub key_and_comment : Text → Text × Text
key_and_comment s = elim (index_byte s b'$') [
  | none ↦ (s, [])
  | some n ↦ (take n s, drop (n + 1) s)
]

-- ValidateStandardURI behind the format check: the room, the key and the comment
unfoldable pub check_rest : Text → Check StandardError
check_rest rest =
    let marker = index1 rest b'#' in
    if not (ltb 1 marker)
    then err missing_key
    else let room = take (marker - 1) rest in
      let (key, comment) = key_and_comment (drop marker rest) in
      do
        wrap_err bad_key (validate_key key)
        reject (is_empty (trim_space room) || contains_any room (codes "?<>@#$\r\n")) bad_room
        reject (contains_any comment (codes "<>@#$\r\n")) bad_comment

unfoldable pub check_body : Text → Check StandardError
check_body body =
    let question = index1 body b'?' in
    let at = index1 body b'@' in
    if not (ltb 1 question) || not (ltb question at) then err bad_shape else do
      reject (not (providers (trim_space (take (question - 1) body)))) bad_provider
      transport ← validate_standard_transport (trim_space (drop question (take (at - 1) body)))
      reject (not (transports transport)) bad_transport
      check_rest (drop at body)

unfoldable pub is_olcbox : UriFormat → Bool
is_olcbox olcbox = true
is_olcbox f = false

-- ValidateStandardURI
unfoldable pub validate_standard_uri : Text → Check StandardError
validate_standard_uri raw =
    if ltb 16384 (byte_len raw)
    then err too_long
    else if not (is_olcbox (uri_format (trim_space raw)))
        || contains_any (trim_space raw) (codes "\r\n")
    then err not_olcbox
    else check_body (drop 9 (trim_space raw))
