-- ===== src/Instance/Uri/Accept.antt =====
-- internal/instance/uri.go: ValidateClientURI, over url.Parse, url.ParseQuery, net.SplitHostPort and
-- net.ParseIP as parameters.
pub mod Sound
use olcrtc_panel_lite.Common.{
  ℕ, suc, ◌≤◌, ◌<◌, ◌≡◌, refl, Bool, true, false, not, ◌&&◌, ◌||◌, Option, none, some, List, [],
  ◌∷◌, ltb, ◌==◌, if◌then◌else◌, is_some, length, any, Result, Check, ok, err, ◌>>=◌, ◌>>◌, reject,
  wrap_err, outside, outside-range, two_63, two_64, arith, Option-cases, inl, inr, >>=-eq-ok,
}
use olcrtc_panel_lite.Text.{Text, codes, text_eq, is_empty, trim_space, to_lower, byte_len}
use olcrtc_panel_lite.Text.Number.{Parsed, number, syntax, out_of_range, parse_int, parse_int_bound}
use olcrtc_panel_lite.Instance.Names.{datachannel}
use olcrtc_panel_lite.Instance.Net.{Url, NetLib}
use olcrtc_panel_lite.Instance.Uri.Client.{UriError, validate_key, client_compatible}

pub data ClientUriError : Type 0 where
  too_long no_olcrtc has_password no_provider_or_host bad_query unknown_parameter duplicate_alias :
      ClientUriError
  key_missing id_missing pair_unsupported bad_number bad_dns : ClientUriError
  bad_key : UriError → ClientUriError

abbrev pub Query : Type 0
Query = List (Text × List Text)

-- the keys of `allowed`
unfoldable pub allowed_names : List Text
allowed_names =
    codes "key"
    ∷ codes "k"
    ∷ codes "transport"
    ∷ codes "t"
    ∷ codes "vp8_fps"
    ∷ codes "f"
    ∷ codes "vp8_batch"
    ∷ codes "b"
    ∷ codes "client_id"
    ∷ codes "c"
    ∷ codes "auth_token"
    ∷ codes "auth.token"
    ∷ codes "a"
    ∷ codes "dns"
    ∷ codes "d"
    ∷ codes "room_password"
    ∷ codes "rp"
    ∷ codes "keepalive"
    ∷ codes "ka"
    ∷ []

-- !allowed[name] || len(entries) != 1
unfoldable pub is_refused : Text × List Text → Bool
is_refused (name, entries) = not (any (text_eq name) allowed_names) || not (length entries == 1)

-- values[name]
unfoldable pub entries_of : Query → Text → Option (List Text)
entries_of [] name = none
entries_of ((k, v) ∷ rest) name =
    let later = entries_of rest name in if text_eq k name then some v else later

unfoldable pub first_entry : List Text → Text
first_entry [] = []
first_entry (v ∷ vs) = v

-- the loop of `parameter`: the value found last, and how many names were found
unfoldable pub found_from : Query → Text → ℕ → List Text → Text × ℕ
found_from values found n [] = (found, n)
found_from values found n (name ∷ names) = elim (entries_of values name) [
  | none ↦ found_from values found n names
  | some entries ↦ found_from values (first_entry entries) (suc n) names
]

-- parameter
unfoldable pub parameter : Query → List Text → Result ClientUriError Text
parameter values names =
    let found = found_from values [] 0 names in
    if ltb 1 (found.1) then err duplicate_alias else ok (found.0)

-- `if _, err := parameter(aliases...); err != nil`
unfoldable pub check_aliases : Query → List Text → Check ClientUriError
check_aliases values names = parameter values names >>= λ _. ok tt

-- a number of the query: left out, or in its range
unfoldable pub check_number : ℕ → ℕ → Text → Check ClientUriError
check_number lo hi value = if is_empty value then ok tt else elim (parse_int value) [
  | number n ↦ reject (outside lo hi n) bad_number
  | syntax ↦ err bad_number
  | out_of_range ↦ err bad_number
]

unfoldable pub check_dns : NetLib → Text → Check ClientUriError
check_dns net dns = if is_empty dns then ok tt else elim (net.split_host_port dns) [
  | none ↦ err bad_dns
  | some (host, port) ↦ elim (parse_int port) [
    | number n ↦ reject (not (net.is_ip host) || outside 1 65535 n) bad_dns
    | syntax ↦ err bad_dns
    | out_of_range ↦ err bad_dns
  ]
]

-- the userinfo: the provider in lower case, and no password
unfoldable pub uri_provider : Url → Result ClientUriError Text
uri_provider u = elim u.user [
  | none ↦ ok []
  | some (name, password) ↦ if is_some password then err has_password else ok (to_lower name)
]

unfoldable pub check_transport : Text → Text → Check ClientUriError
check_transport provider transport =
    let named = if is_empty transport then datachannel else transport in
    reject (not (client_compatible provider (to_lower named))) pair_unsupported

-- the parameters of the query, in the order of the code
unfoldable pub check_query : NetLib → Text → Query → Check ClientUriError
check_query net provider values = do
  reject (any is_refused values) unknown_parameter
  key ← wrap_err (λ _. key_missing) (parameter values (codes "key" ∷ codes "k" ∷ []))
  reject (is_empty key) key_missing
  wrap_err bad_key (validate_key key)
  client_id ← wrap_err (λ _. id_missing) (parameter values (codes "client_id" ∷ codes "c" ∷ []))
  reject (is_empty (trim_space client_id)) id_missing
  transport ← parameter values (codes "transport" ∷ codes "t" ∷ [])
  check_transport provider transport
  check_aliases values (codes "auth_token" ∷ codes "auth.token" ∷ codes "a" ∷ [])
  check_aliases values (codes "room_password" ∷ codes "rp" ∷ [])
  fps ← parameter values (codes "vp8_fps" ∷ codes "f" ∷ [])
  check_number 1 120 fps
  batch ← parameter values (codes "vp8_batch" ∷ codes "b" ∷ [])
  check_number 1 64 batch
  keepalive ← parameter values (codes "keepalive" ∷ codes "ka" ∷ [])
  check_number 0 3600 keepalive
  dns ← parameter values (codes "dns" ∷ codes "d" ∷ [])
  check_dns net dns

unfoldable pub check_parsed_query : NetLib → Text → Option Query → Check ClientUriError
check_parsed_query net provider none = err bad_query
check_parsed_query net provider (some values) = check_query net provider values

unfoldable pub check_client_url : NetLib → Url → Check ClientUriError
check_client_url net u = do
  reject (not (text_eq (to_lower u.scheme) (codes "olcrtc"))) no_olcrtc
  provider ← uri_provider u
  reject (is_empty provider || is_empty u.host) no_provider_or_host
  check_parsed_query net provider (net.parse_query u.raw_query)

-- ValidateClientURI
unfoldable pub validate_client_uri : NetLib → Text → Check ClientUriError
validate_client_uri net raw =
    if ltb 16384 (byte_len raw) then err too_long else elim (net.parse_url (trim_space raw)) [
      | none ↦ err no_olcrtc
      | some u ↦ check_client_url net u
    ]
