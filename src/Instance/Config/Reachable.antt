-- ===== src/Instance/Config/Reachable.antt =====
-- internal/instance/config.go: what ParseProxy accepts.
use olcrtc_panel_lite.Common.{
  ℕ, ◌≡◌, ◌≤◌, sym, ap, ◌∙◌, true, false, not, ◌⊎◌, Option, none, some, arith, ok, Bool-cases, inl,
  inr, if_true, if_false, >>=-eq-ok, ok-injective, outside, outside-range,
}
use olcrtc_panel_lite.Text.{Text, is_empty, trim_space}
use olcrtc_panel_lite.Text.Number.{parse_int, parse_int_bound, Parsed-cases}
use olcrtc_panel_lite.Instance.Net.{Url, NetLib}
use olcrtc_panel_lite.Instance.Config.Proxy.{
  Proxy, no_proxy, proxy_port, with_credentials, is_socks_url, proxy_of_url, parse_proxy,
}

-- a proxy with a host and a port in range
pub record IsReachable (p : Proxy) : Type 0 where
  pub host : is_empty p.addr ≡ false
  pub port : (1 ≤ p.port) × (p.port ≤ 65535)

proxy_port-range : (text : Text) (n : ℕ) → proxy_port text ≡ ok n → (1 ≤ n) × (n ≤ 65535)
unfolding proxy_port
proxy_port-range text n h = elim (Parsed-cases (parse_int text)) [
  | inl (m, p) ↦ elim (Bool-cases (outside 1 65535 m)) [
    | inl o ↦ absurd (ground arith)
    | inr o ↦
        let same : m ≡ n = ground arith in
        rw (← same)
          (outside-range 1 65535 m (parse_int_bound text m p) (omega arith) (omega arith) o)
  ]
  | inr (inl p) ↦ absurd (ground arith)
  | inr (inr p) ↦ absurd (ground arith)
]

with_credentials-kept :
    (p q : Proxy) (u : Option (Text × Option Text))
    → with_credentials p u ≡ ok q
    → (q.addr ≡ p.addr) × (q.port ≡ p.port)
unfolding with_credentials
with_credentials-kept p q none h = (ground arith, ground arith)
with_credentials-kept p q (some (user, none)) h = (ground arith, ground arith)
with_credentials-kept p q (some (user, some word)) h = (ground arith, ground arith)

socks_host : (u : Url) → is_socks_url u ≡ true → is_empty u.hostname ≡ false
unfolding is_socks_url
socks_host u h = ground arith

proxy_of_url-IsReachable : (o : Option Url) (p : Proxy) → proxy_of_url o ≡ ok p → IsReachable p
unfolding proxy_of_url
proxy_of_url-IsReachable none p h = cc
proxy_of_url-IsReachable (some u) p h = elim (Bool-cases (is_socks_url u)) [
  | inr e ↦ absurd (ground arith)
  | inl e ↦
      let (port, named, h1) =
        >>=-eq-ok (proxy_port u.port) _ (sym (if_false _ _ _ (ap not e)) ∙ h) in
      let kept = with_credentials-kept _ p u.user h1 in
      record {
        host = ap is_empty kept.0 ∙ socks_host u e;
        port = rw kept.1 (proxy_port-range u.port port named);
      }
]

-- A text that ParseProxy accepts is blank and names no proxy, or names a host and a port from 1 to 65535.
pub parse_proxy-cases :
    (net : NetLib) (value : Text) (p : Proxy)
    → parse_proxy net value ≡ ok p
    → ((is_empty (trim_space value) ≡ true) × (p ≡ no_proxy))
      ⊎ ((is_empty (trim_space value) ≡ false) × IsReachable p)
unfolding parse_proxy
parse_proxy-cases net value p h = elim (Bool-cases (is_empty (trim_space value))) [
  | inl e ↦ inl (e, sym (ok-injective (sym (if_true _ _ _ e) ∙ h)))
  | inr e ↦ inr (e, proxy_of_url-IsReachable _ p (sym (if_false _ _ _ e) ∙ h))
]
