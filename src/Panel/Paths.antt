-- ===== src/Panel/Paths.antt =====
-- internal/config/config.go: ValidateMountPath, ValidatePublicOrigin, pathsOverlap and JoinURLPath.
use olcrtc_panel_lite.Common.{
  ℕ, Bool, false, not, ◌&&◌, ◌||◌, none, some, [], ◌∷◌, ◌++◌, leb, ◌==◌, if◌then◌else◌, all, any,
  is_some, outside, Check, ok, err, reject, ◌>>◌,
}
use olcrtc_panel_lite.Text.{
  Text, codes, text_eq, is_empty, has_prefix, contains, contains_any, split, trim_space,
  trim_suffix_rune,
}
use olcrtc_panel_lite.Text.Number.{number, syntax, out_of_range, parse_int}
use olcrtc_panel_lite.Instance.Net.{Url, NetLib}

pub data PathError : Type 0 where
  no_slash is_root not_canonical unsafe_segment : PathError

pub data OriginError : Type 0 where
  not_https not_origin no_host bad_port : OriginError

-- a character of mountSegmentPattern
unfoldable pub is_segment_rune : ℕ → Bool
is_segment_rune c =
    (leb b'A' c && leb c b'Z')
    || (leb b'a' c && leb c b'z')
    || (leb b'0' c && leb c b'9')
    || any (λ d. c == d) (codes "._~-")

unfoldable pub is_unsafe_segment : Text → Bool
is_unsafe_segment s =
    text_eq s (codes ".")
    || text_eq s (codes "..")
    || not (not (is_empty s) && all is_segment_rune s)

-- strings.HasSuffix(value, "/")
unfoldable pub ends_with_slash : Text → Bool
ends_with_slash [] = false
ends_with_slash (c ∷ []) = c == b'/'
ends_with_slash (c ∷ d ∷ s) = ends_with_slash (d ∷ s)

-- strings.TrimPrefix(value, "/")
unfoldable pub without_slash : Text → Text
without_slash [] = []
without_slash (c ∷ s) = if c == b'/' then s else c ∷ s

-- ValidateMountPath
unfoldable pub validate_mount_path : Text → Bool → Check PathError
validate_mount_path value allow_root =
    if is_empty value || not (has_prefix value (codes "/"))
    then err no_slash
    else if text_eq value (codes "/")
    then (if allow_root then ok tt else err is_root)
    else if ends_with_slash value
        || contains value (codes "//")
        || contains_any value (codes "?#\\%")
    then err not_canonical
    else reject (any is_unsafe_segment (split (without_slash value) b'/')) unsafe_segment

unfoldable pub check_port : Text → Check OriginError
check_port port = if is_empty port then ok tt else elim (parse_int port) [
  | number n ↦ reject (outside 1 65535 n) bad_port
  | syntax ↦ err bad_port
  | out_of_range ↦ err bad_port
]

unfoldable pub check_origin : Url → Check OriginError
check_origin u = do
  reject (not (text_eq u.scheme (codes "https")) || is_empty u.host) not_https
  reject
      (is_some u.user
        || not (is_empty u.path)
        || not (is_empty u.raw_query)
        || not (is_empty u.fragment))
      not_origin
  reject (is_empty u.hostname) no_host
  check_port u.port

-- ValidatePublicOrigin
unfoldable pub validate_public_origin : NetLib → Text → Check OriginError
validate_public_origin net value =
    if is_empty (trim_space value)
    then ok tt
    else elim (net.parse_url (trim_space value)) [ none ↦ err not_https | some u ↦ check_origin u ]

-- pathsOverlap
unfoldable pub paths_overlap : Text → Text → Bool
paths_overlap left right =
    text_eq left right
    || has_prefix left (right ++ codes "/")
    || has_prefix right (left ++ codes "/")

-- JoinURLPath
unfoldable pub join_url_path : Text → Text → Text
join_url_path base route =
    if text_eq base (codes "/")
    then b'/' ∷ without_slash route
    else if text_eq route (codes "/") || is_empty route
    then base ++ codes "/"
    else trim_suffix_rune base b'/' ++ (b'/' ∷ without_slash route)
