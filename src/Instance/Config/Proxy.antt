-- ===== src/Instance/Config/Proxy.antt =====
-- internal/instance/config.go: ParseProxy, over url.Parse as a parameter.
use olcrtc_panel_lite.Common.{
  ℕ, Bool, not, ◌&&◌, Option, none, some, [], ◌++◌, if◌then◌else◌, Result, ok, err, ◌>>=◌, outside,
}
use olcrtc_panel_lite.Text.{Text, codes, text_eq, is_empty, contains, contains_any, trim_space}
use olcrtc_panel_lite.Text.Number.{number, syntax, out_of_range, parse_int}
use olcrtc_panel_lite.Instance.Net.{Url, NetLib}

pub record Proxy : Type 0 where
  pub addr : Text
  pub port : ℕ
  pub user : Text
  pub pass : Text

pub data ProxyError : Type 0 where
  bad_form bad_port multi_line : ProxyError

abbrev pub no_proxy : Proxy
no_proxy = record { addr = []; port = 0; user = []; pass = [] }

-- the port of a URL, in range
unfoldable pub proxy_port : Text → Result ProxyError ℕ
proxy_port text = elim (parse_int text) [
  | number n ↦ if outside 1 65535 n then err bad_port else ok n
  | syntax ↦ err bad_port
  | out_of_range ↦ err bad_port
]

-- the credentials, where the URL has them
unfoldable pub with_credentials : Proxy → Option (Text × Option Text) → Result ProxyError Proxy
with_credentials proxy none = ok proxy
with_credentials proxy (some (user, password)) =
    let pass = elim password as (λ _. Text) [ none ↦ [] | some p ↦ p ] in
    if contains_any (user ++ pass) (codes "\r\n")
    then err multi_line
    else ok (record proxy { user = user; pass = pass })

unfoldable pub is_socks_url : Url → Bool
is_socks_url u =
    text_eq u.scheme (codes "socks5")
    && not (is_empty u.hostname)
    && is_empty u.path
    && is_empty u.raw_query
    && is_empty u.fragment

unfoldable pub proxy_of_url : Option Url → Result ProxyError Proxy
proxy_of_url none = err bad_form
proxy_of_url (some u) = if not (is_socks_url u) then err bad_form else do
  port ← proxy_port u.port
  with_credentials (record { addr = u.hostname; port = port; user = []; pass = [] }) u.user

-- the scheme is added where the text has none
unfoldable pub with_scheme : Text → Text → Text
with_scheme scheme value = if contains value (codes "://") then value else scheme ++ value

-- ParseProxy
unfoldable pub parse_proxy : NetLib → Text → Result ProxyError Proxy
parse_proxy net value =
    if is_empty (trim_space value)
    then ok no_proxy
    else proxy_of_url (net.parse_url (with_scheme (codes "socks5://") (trim_space value)))
