-- ===== src/Instance/Uri/Accept/Sound.antt =====
-- internal/instance/uri.go: what a URI has that ValidateClientURI accepts.
use olcrtc_panel_lite.Common.{
  reject-ok, ℕ, ◌≤◌, ◌≡◌, refl, Bool, true, false, not, ◌||◌, Option, none, some, List, [], ◌∷◌,
  ltb, if◌then◌else◌, any, Result, ok, err, wrap_err, outside-range, two_63, arith, Option-cases,
  Bool-cases, inl, inr, ltb→lt, >>=-eq-ok, >>-eq-ok,
}
use olcrtc_panel_lite.Text.{Text, codes, text_eq, is_empty, trim_space, to_lower}
use olcrtc_panel_lite.Text.Number.{number, parse_int, parse_int_bound, Parsed-cases}
use olcrtc_panel_lite.Instance.Names.{datachannel}
use olcrtc_panel_lite.Instance.Net.{Url, NetLib}
use olcrtc_panel_lite.Instance.Uri.Client.{validate_key, client_compatible}
use olcrtc_panel_lite.Instance.Uri.Accept.{
  Query, is_refused, parameter, check_aliases, check_number, check_dns, uri_provider,
  check_transport, check_query, check_parsed_query, check_client_url, validate_client_uri,
}

-- a number that is left out or in its range
pub data InBounds (lo hi : ℕ) (value : Text) : Type 0 where
  left_out : is_empty value ≡ true → InBounds lo hi value
  within : (n : ℕ) → parse_int value ≡ number n → lo ≤ n → n ≤ hi → InBounds lo hi value

-- a resolver that is left out or an IP address with a port
pub data Resolver (net : NetLib) (dns : Text) : Type 0 where
  left_out : is_empty dns ≡ true → Resolver net dns
  address :
      (host port : Text) (n : ℕ)
      → net.split_host_port dns ≡ some (host, port)
      → net.is_ip host ≡ true
      → parse_int port ≡ number n
      → 1 ≤ n
      → n ≤ 65535
      → Resolver net dns

check_number-InBounds :
    (lo hi : ℕ) (value : Text)
    → ltb lo two_63 ≡ true
    → ltb hi two_63 ≡ true
    → check_number lo hi value ≡ ok tt
    → InBounds lo hi value
unfolding check_number
check_number-InBounds lo hi value hl hh h = elim (Bool-cases (is_empty value)) [
  | inl e ↦ InBounds.left_out e
  | inr e ↦ elim (Parsed-cases (parse_int value)) [
    | inl (n, p) ↦
        let r =
          outside-range lo hi n (parse_int_bound value n p) (ltb→lt lo two_63 hl)
            (ltb→lt hi two_63 hh) (ground arith) in
        within n p r.0 r.1
    | inr (inl p) ↦ absurd (ground arith)
    | inr (inr p) ↦ absurd (ground arith)
  ]
]

check_dns-Resolver : (net : NetLib) (dns : Text) → check_dns net dns ≡ ok tt → Resolver net dns
unfolding check_dns
check_dns-Resolver net dns h = elim (Bool-cases (is_empty dns)) [
  | inl e ↦ Resolver.left_out e
  | inr e ↦ elim (Option-cases (net.split_host_port dns)) [
    | inl s ↦ absurd (ground arith)
    | inr ((host, port), s) ↦ elim (Parsed-cases (parse_int port)) [
      | inl (n, p) ↦
          let r =
            outside-range 1 65535 n (parse_int_bound port n p) (omega arith) (omega arith)
              (ground arith) in
          address host port n s (ground arith) p r.0 r.1
      | inr (inl p) ↦ absurd (ground arith)
      | inr (inr p) ↦ absurd (ground arith)
    ]
  ]
]

wrap_err-ok : {E F A : Type 0} (f : E → F) (r : Result E A) (a : A) → wrap_err f r ≡ ok a → r ≡ ok a
wrap_err-ok f (ok b) a h = cc
wrap_err-ok f (err e) a h = cc

-- what the query of an accepted URI holds, each parameter under at most one of its names
pub data Accepted (net : NetLib) (provider : Text) (values : Query) : Type 0 where
  accepted :
      (key client_id transport token password fps batch keepalive dns : Text)
      → any is_refused values ≡ false
      → parameter values (codes "key" ∷ codes "k" ∷ []) ≡ ok key
      → validate_key key ≡ ok tt
      → parameter values (codes "client_id" ∷ codes "c" ∷ []) ≡ ok client_id
      → is_empty (trim_space client_id) ≡ false
      → parameter values (codes "transport" ∷ codes "t" ∷ []) ≡ ok transport
      → client_compatible provider
          (to_lower (if is_empty transport then datachannel else transport))
        ≡ true
      → parameter values (codes "auth_token" ∷ codes "auth.token" ∷ codes "a" ∷ []) ≡ ok token
      → parameter values (codes "room_password" ∷ codes "rp" ∷ []) ≡ ok password
      → parameter values (codes "vp8_fps" ∷ codes "f" ∷ []) ≡ ok fps
      → InBounds 1 120 fps
      → parameter values (codes "vp8_batch" ∷ codes "b" ∷ []) ≡ ok batch
      → InBounds 1 64 batch
      → parameter values (codes "keepalive" ∷ codes "ka" ∷ []) ≡ ok keepalive
      → InBounds 0 3600 keepalive
      → parameter values (codes "dns" ∷ codes "d" ∷ []) ≡ ok dns
      → Resolver net dns
      → Accepted net provider values

check_transport-ok :
    (provider transport : Text) {u : Unit {0}}
    → check_transport provider transport ≡ ok u
    → client_compatible provider (to_lower (if is_empty transport then datachannel else transport))
      ≡ true
unfolding check_transport
check_transport-ok provider transport h = ground arith

check_aliases-ok :
    (values : Query) (names : List Text)
    → check_aliases values names ≡ ok tt
    → (value : Text) × (parameter values names ≡ ok value)
unfolding check_aliases
check_aliases-ok values names h = let p = >>=-eq-ok _ _ h in (p.0, p.1)

check_query-Accepted :
    (net : NetLib) (provider : Text) (values : Query)
    → check_query net provider values ≡ ok tt
    → Accepted net provider values
unfolding check_query
check_query-Accepted net provider values h =
    let p1 = >>-eq-ok _ _ h in
    let p2 = >>=-eq-ok _ _ p1.1 in
    let p3 = >>-eq-ok _ _ p2.2 in
    let p4 = >>-eq-ok _ _ p3.1 in
    let p5 = >>=-eq-ok _ _ p4.1 in
    let p6 = >>-eq-ok _ _ p5.2 in
    let p7 = >>=-eq-ok _ _ p6.1 in
    let p8 = >>-eq-ok _ _ p7.2 in
    let p9 = >>-eq-ok _ _ p8.1 in
    let p10 = >>-eq-ok _ _ p9.1 in
    let p11 = >>=-eq-ok _ _ p10.1 in
    let p12 = >>-eq-ok _ _ p11.2 in
    let p13 = >>=-eq-ok _ _ p12.1 in
    let p14 = >>-eq-ok _ _ p13.2 in
    let p15 = >>=-eq-ok _ _ p14.1 in
    let p16 = >>-eq-ok _ _ p15.2 in
    let p17 = >>=-eq-ok _ _ p16.1 in
    let token = check_aliases-ok values _ p9.0 in
    let password = check_aliases-ok values _ p10.0 in
    accepted p2.0 p5.0 p7.0 token.0 password.0 p11.0 p13.0 p15.0 p17.0 (reject-ok _ _ p1.0)
      (wrap_err-ok _ _ _ p2.1) (wrap_err-ok _ _ _ p4.0) (wrap_err-ok _ _ _ p5.1)
      (reject-ok _ _ p6.0) p7.1 (check_transport-ok provider p7.0 p8.0) token.1 password.1 p11.1
      (check_number-InBounds 1 120 p11.0 refl refl p12.0) p13.1
      (check_number-InBounds 1 64 p13.0 refl refl p14.0) p15.1
      (check_number-InBounds 0 3600 p15.0 refl refl p16.0) p17.1
      (check_dns-Resolver net p17.0 p17.2)

-- the parsed URI behind an accepted text
pub data AcceptedUri (net : NetLib) (raw : Text) : Type 0 where
  accepted_uri :
      (u : Url) (provider : Text) (values : Query)
      → net.parse_url (trim_space raw) ≡ some u
      → text_eq (to_lower u.scheme) (codes "olcrtc") ≡ true
      → uri_provider u ≡ ok provider
      → is_empty u.host ≡ false
      → net.parse_query u.raw_query ≡ some values
      → Accepted net provider values
      → AcceptedUri net raw

check_parsed_query-some :
    (net : NetLib) (provider : Text) (q : Option Query)
    → check_parsed_query net provider q ≡ ok tt
    → (values : Query) × (q ≡ some values) × (check_query net provider values ≡ ok tt)
unfolding check_parsed_query
check_parsed_query-some net provider none h = cc
check_parsed_query-some net provider (some values) h = (values, refl, h)

not-false : (b : Bool) → not b ≡ false → b ≡ true
not-false b h = ground arith

or_false_right : (a b : Bool) → (a || b) ≡ false → b ≡ false
or_false_right a b h = ground arith

check_client_url-Accepted :
    (net : NetLib) (raw : Text) (u : Url)
    → net.parse_url (trim_space raw) ≡ some u
    → check_client_url net u ≡ ok tt
    → AcceptedUri net raw
unfolding check_client_url
check_client_url-Accepted net raw u e h =
    let p1 = >>-eq-ok _ _ h in
    let p2 = >>=-eq-ok _ _ p1.1 in
    let p3 = >>-eq-ok _ _ p2.2 in
    let q = check_parsed_query-some net p2.0 (net.parse_query u.raw_query) p3.1 in
    accepted_uri u p2.0 q.0 e (not-false _ (reject-ok _ _ p1.0)) p2.1
      (or_false_right (is_empty p2.0) (is_empty u.host) (reject-ok _ _ p3.0)) q.1
      (check_query-Accepted net p2.0 q.0 q.2)

-- A URI that ValidateClientURI accepts parses as an olcrtc URL with a provider and a host, has only
-- known parameters under one name each, a valid key, a client identifier, a pair of provider and
-- transport that OLCRTC Client implements, numbers in their ranges and a resolver that is an IP address.
pub validate_client_uri-Accepted :
    (net : NetLib) (raw : Text) → validate_client_uri net raw ≡ ok tt → AcceptedUri net raw
unfolding validate_client_uri
validate_client_uri-Accepted net raw h = elim (Option-cases (net.parse_url (trim_space raw))) [
  | inl e ↦ absurd (ground arith)
  | inr (u, e) ↦ check_client_url-Accepted net raw u e (ground arith)
]
