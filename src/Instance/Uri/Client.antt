-- ===== src/Instance/Uri/Client.antt =====
-- internal/instance/uri.go: the compact URI of OLCRTC Client, and the removal of its token.
pub mod Characters
pub mod Query
pub mod Parts
pub mod Strip
use olcrtc_panel_lite.Common.{
  ℕ, suc, ◌+◌, ◌-◌, ◌≡◌, Bool, true, false, not, ◌&&◌, ◌||◌, Option, none, some, List, [], ◌∷◌,
  ◌++◌, ltb, ◌==◌, if◌then◌else◌, is_some, take, drop, length, Result, Check, ok, err, ◌>>=◌, ◌>>◌,
  reject, all,
}
use olcrtc_panel_lite.Text.{
  Text, codes, text_eq, is_empty, contains_any, contains_rune, index_byte, cut, split, join,
  trim_space, byte_len, replace_rune,
}
use olcrtc_panel_lite.Text.Number.{itoa}
use olcrtc_panel_lite.Text.Escape.{query_escape}
use olcrtc_panel_lite.Model.{Instance}
use olcrtc_panel_lite.Instance.Names.{jitsi, telemost, wbstream, datachannel, vp8channel}

pub data UriError : Type 0 where
  key_length key_not_hex unsupported_pair room_required client_id_required token_required : UriError
  unsupported_provider_or_transport reserved_separator : UriError

-- validateKey
unfoldable pub validate_key : Text → Check UriError
validate_key key =
    if not (byte_len key == 64)
    then err key_length
    else if all (contains_rune (codes "0123456789abcdefABCDEF")) key
    then ok tt
    else err key_not_hex

-- ClientCompatible
unfoldable pub client_compatible : Text → Text → Bool
client_compatible provider transport =
    ((text_eq provider wbstream || text_eq provider telemost) && text_eq transport vp8channel)
    || (text_eq provider jitsi && text_eq transport datachannel)

-- clientEscape
unfoldable pub client_escape : Text → Text
client_escape value = replace_rune b'+' (codes "%20") (query_escape value)

-- the parameters in the order in which ClientURI appends them
unfoldable pub vp8_parts : Instance → List Text
vp8_parts item =
    if text_eq item.transport vp8channel
    then (codes "f=" ++ itoa item.options.vp8_fps)
      ∷ (codes "b=" ++ itoa item.options.vp8_batch)
      ∷ []
    else []

unfoldable pub token_parts : Instance → List Text
token_parts item =
    if text_eq item.provider wbstream && not item.omit_client_auth_token
    then (codes "a=" ++ client_escape item.auth_token) ∷ []
    else []

unfoldable pub dns_parts : Instance → List Text
dns_parts item = if is_empty item.dns then [] else (codes "d=" ++ client_escape item.dns) ∷ []

unfoldable pub client_parts : Instance → Text → List Text
unfolding vp8_parts token_parts dns_parts
client_parts item key =
    (codes "k=" ++ client_escape key)
    ∷ (codes "t=" ++ client_escape item.transport)
    ∷ (vp8_parts item
        ++ ((codes "c=" ++ client_escape item.client_id) ∷ (token_parts item ++ dns_parts item)))

unfoldable pub name_fragment : Text → Text
name_fragment name = if is_empty name then [] else b'#' ∷ client_escape name

-- strings.TrimSpace(s) == "" || strings.ContainsAny(s, "\r\n")
abbrev pub not_single_line : Text → Bool
not_single_line s = is_empty (trim_space s) || contains_any s (codes "\r\n")

-- the checks at the head of ClientURI
unfoldable pub client_uri_checks : Instance → Text → Check UriError
client_uri_checks item key = do
  validate_key key
  reject (not (client_compatible item.provider item.transport)) unsupported_pair
  reject (not_single_line item.room_id) room_required
  reject (not_single_line item.client_id) client_id_required
  reject
      (text_eq item.provider wbstream
        && is_empty item.auth_token
        && not item.omit_client_auth_token)
      token_required

-- ClientURI
unfoldable pub client_uri : Instance → Text → Text → Result UriError Text
client_uri item key name = do
  _ ← client_uri_checks item key
  ok (
      codes "olcrtc://"
      ++ (item.provider
          ++ (codes "@r/"
              ++ (client_escape item.room_id
                  ++ (b'?' ∷ (join (client_parts item key) (codes "&") ++ name_fragment name))))))

-- is the parameter one of the auth token's names?
abbrev pub part_key : Text → Text
part_key p = elim (cut p b'=') [ none ↦ p | some (key, value) ↦ key ]

unfoldable pub is_token_part : Text → Bool
is_token_part p =
    text_eq (part_key p) (codes "a")
    || text_eq (part_key p) (codes "auth_token")
    || text_eq (part_key p) (codes "auth.token")

-- the loop that copies the other parameters
unfoldable pub without_token : List Text → List Text
unfolding is_token_part
without_token [] = []
without_token (p ∷ ps) = let rest = without_token ps in if is_token_part p then rest else p ∷ rest

-- the parts of `uri` around the query, whose marker `?` stands at index q
unfoldable pub strip_query : Text → ℕ → Option ℕ → Text
unfolding without_token
strip_query uri q frag =
    let query_end = elim frag as (λ _. ℕ) [
      | none ↦ length uri
      | some f ↦ if ltb q f then f else length uri
    ] in
    let raw = drop (q + 1) (take query_end uri) in
    let tail = elim frag as (λ _. Text) [ none ↦ [] | some f ↦ drop f uri ] in
    take (q + 1) uri ++ (join (without_token (split raw b'&')) (codes "&") ++ tail)

-- StripAuthToken
unfoldable pub strip_auth_token : Text → Text
unfolding strip_query
strip_auth_token uri = elim (index_byte uri b'@') [
  | none ↦ uri
  | some at ↦ elim (index_byte uri b'?') [
    | none ↦ uri
    | some q ↦ if ltb q at then uri else strip_query uri q (index_byte uri b'#')
  ]
]
