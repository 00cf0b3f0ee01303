-- ===== src/Tests/Samples.antt =====
-- Sample data: an instance, a key, a resolver library.
use olcrtc_panel_lite.Common.{true, false, none, some, [], ◌∷◌}
use olcrtc_panel_lite.Text.{Text, codes}
use olcrtc_panel_lite.Model.{Instance, TransportOptions, Subscription, SubscriptionEntry}
use olcrtc_panel_lite.Instance.Net.{Url, NetLib}

abbrev pub sample_key : Text
sample_key = codes "0123456789abcdef0123456789abcdef0123456789abcdef0123456789ABCDEF"

abbrev pub sample_options : TransportOptions
sample_options = record {
  vp8_fps = 25;
  vp8_batch = 64;
  sei_fps = 30;
  sei_batch = 64;
  sei_fragment = 900;
  sei_ack_ms = 2000;
  video_width = 1920;
  video_height = 1080;
  video_fps = 30;
  video_bitrate = codes "2M";
  video_hw = codes "none";
  video_codec = codes "qrcode";
  video_qr_size = 0;
  video_qr_recover = codes "low";
  video_tile = 4;
  video_tile_rs = 20;
}

abbrev pub sample_instance : Instance
sample_instance = record {
  id = 7;
  client_id = codes "c1";
  name = codes "home";
  provider = codes "wbstream";
  auth_token = codes "t+1";
  auth_token_set = true;
  auth_token_expires_at = none;
  auth_token_expired = false;
  transport = codes "vp8channel";
  room_id = codes "room";
  room_channel = codes "";
  dns = codes "8.8.8.8:53";
  outbound_proxy = codes "";
  options = sample_options;
  liveness = record { interval = codes "10s"; timeout = codes "5s"; failures = 3 };
  max_session_duration = codes "";
  traffic = record { max_payload_size = 0; min_delay = codes ""; max_delay = codes "" };
  debug = false;
  omit_client_auth_token = false;
  reset_policy = codes "never";
  quota_bytes = 4096;
  expires_at = some 9;
  created_at = 1;
  updated_at = 1;
  status = codes "running";
  uptime_seconds = 0;
  process_uptime_seconds = 0;
  uptime_source = codes "";
  process_uptime_source = codes "";
  started_at = none;
  observed_at = none;
  main_pid = 0;
  restart_count = 0;
  invocation_id = codes "";
  upload_bytes = 100;
  download_bytes = 200;
  total_bytes = 300;
  last_traffic_at = none;
  network_ingress_bytes = 0;
  network_egress_bytes = 0;
}

abbrev pub sample_url : Url
sample_url = record {
  scheme = codes "olcrtc";
  user = some (codes "wbstream", none);
  host = codes "r";
  hostname = codes "r";
  port = codes "";
  path = codes "/room";
  raw_query = codes "q";
  fragment = codes "";
}

-- parsers that answer every text alike
abbrev pub sample_net : NetLib
sample_net = record {
  parse_url = λ s. some sample_url;
  parse_request_uri = λ s. none;
  parse_query = λ s. some (
      (codes "k", sample_key ∷ [])
      ∷ (codes "t", codes "vp8channel" ∷ [])
      ∷ (codes "c", codes "c1" ∷ [])
      ∷ (codes "f", codes "25" ∷ [])
      ∷ (codes "d", codes "8.8.8.8:53" ∷ [])
      ∷ []);
  split_host_port = λ s. some (codes "8.8.8.8", codes "53");
  is_ip = λ s. true;
  parse_duration = λ s. some 5000000000;
}

abbrev pub linked_entry : SubscriptionEntry
linked_entry = record {
  id = 1;
  subscription_id = 1;
  source_instance_id = some 7;
  raw_uri = codes "";
  name = codes "a\r\nb";
  color = codes "";
  icon = codes "";
  ip = codes "";
  comment = codes " x ";
  manual_used = none;
  manual_available = none;
  expires_at = some 5;
  enabled = true;
  sort_order = 0;
  created_at = 1;
  updated_at = 1;
}

abbrev pub manual_entry : SubscriptionEntry
manual_entry = record linked_entry {
  id = 2;
  source_instance_id = none;
  raw_uri = codes " olcrtc://wbstream@r/room ";
  manual_used = some 10;
}

abbrev pub sample_subscription : Subscription
sample_subscription = record {
  id = 1;
  slug = codes "s";
  name = codes "my\nfeed";
  refresh_interval = codes "10m";
  color = codes "";
  icon = codes "";
  enabled = true;
  mirror_enabled = false;
  omit_client_auth_token = true;
  mirror_public_url = codes "";
  mirror_status = codes "disabled";
  created_at = 1;
  updated_at = 1;
  entries = linked_entry ∷ manual_entry ∷ [];
  used_bytes = 0;
  upload_bytes = 0;
  download_bytes = 0;
  available_bytes = none;
  expires_at = none;
}
