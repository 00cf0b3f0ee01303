-- ===== src/Instance/Net.antt =====
-- What internal/instance takes from Go's net/url, net and time: parameters of the model, since
-- their parsers are not part of this repository.
use olcrtc_panel_lite.Common.{ℕ, Bool, Option, List}
use olcrtc_panel_lite.Text.{Text}

-- the fields of a *url.URL that the panel reads
pub record Url : Type 0 where
  pub scheme : Text
  pub user : Option (Text × Option Text)
  pub host : Text
  pub hostname : Text
  pub port : Text
  pub path : Text
  pub raw_query : Text
  pub fragment : Text

pub record NetLib : Type 0 where
  -- url.Parse and url.ParseRequestURI, `none` on an error
  pub parse_url : Text → Option Url
  pub parse_request_uri : Text → Option Url
  -- url.ParseQuery: the values of each name
  pub parse_query : Text → Option (List (Text × List Text))
  -- net.SplitHostPort
  pub split_host_port : Text → Option (Text × Text)
  -- net.ParseIP(s) != nil
  pub is_ip : Text → Bool
  -- time.ParseDuration, in nanoseconds as an int64
  pub parse_duration : Text → Option ℕ
