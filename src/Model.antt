-- ===== src/Model.antt =====
-- internal/model/model.go: the data structures that the store keeps and the API shows.
-- A `time.Time` is the number of nanoseconds since Go's zero time, a `*T` an Option.
use olcrtc_panel_lite.Common.{ℕ, Bool, Option, List}
use olcrtc_panel_lite.Text.{Text}

abbrev pub Time : Type 0
Time = ℕ

pub record TransportOptions : Type 0 where
  pub vp8_fps : ℕ
  pub vp8_batch : ℕ
  pub sei_fps : ℕ
  pub sei_batch : ℕ
  pub sei_fragment : ℕ
  pub sei_ack_ms : ℕ
  pub video_width : ℕ
  pub video_height : ℕ
  pub video_fps : ℕ
  pub video_bitrate : Text
  pub video_hw : Text
  pub video_codec : Text
  pub video_qr_size : ℕ
  pub video_qr_recover : Text
  pub video_tile : ℕ
  pub video_tile_rs : ℕ

pub record LivenessOptions : Type 0 where
  pub interval : Text
  pub timeout : Text
  pub failures : ℕ

pub record TrafficOptions : Type 0 where
  pub max_payload_size : ℕ
  pub min_delay : Text
  pub max_delay : Text

pub record Instance : Type 0 where
  pub id : ℕ
  pub client_id : Text
  pub name : Text
  pub provider : Text
  pub auth_token : Text
  pub auth_token_set : Bool
  pub auth_token_expires_at : Option Time
  pub auth_token_expired : Bool
  pub transport : Text
  pub room_id : Text
  pub room_channel : Text
  pub dns : Text
  pub outbound_proxy : Text
  pub options : TransportOptions
  pub liveness : LivenessOptions
  pub max_session_duration : Text
  pub traffic : TrafficOptions
  pub debug : Bool
  pub omit_client_auth_token : Bool
  pub reset_policy : Text
  pub quota_bytes : ℕ
  pub expires_at : Option Time
  pub created_at : Time
  pub updated_at : Time
  pub status : Text
  pub uptime_seconds : ℕ
  pub process_uptime_seconds : ℕ
  pub uptime_source : Text
  pub process_uptime_source : Text
  pub started_at : Option Time
  pub observed_at : Option Time
  pub main_pid : ℕ
  pub restart_count : ℕ
  pub invocation_id : Text
  pub upload_bytes : ℕ
  pub download_bytes : ℕ
  pub total_bytes : ℕ
  pub last_traffic_at : Option Time
  pub network_ingress_bytes : ℕ
  pub network_egress_bytes : ℕ

pub record TrafficCounter : Type 0 where
  pub instance_id : ℕ
  pub upload_bytes : ℕ
  pub download_bytes : ℕ
  pub total_bytes : ℕ
  pub period_started_at : Time
  pub last_event_at : Option Time
  pub updated_at : Time

pub record SubscriptionEntry : Type 0 where
  pub id : ℕ
  pub subscription_id : ℕ
  pub source_instance_id : Option ℕ
  pub raw_uri : Text
  pub name : Text
  pub color : Text
  pub icon : Text
  pub ip : Text
  pub comment : Text
  pub manual_used : Option ℕ
  pub manual_available : Option ℕ
  pub expires_at : Option Time
  pub enabled : Bool
  pub sort_order : ℕ
  pub created_at : Time
  pub updated_at : Time

pub record Subscription : Type 0 where
  pub id : ℕ
  pub slug : Text
  pub name : Text
  pub refresh_interval : Text
  pub color : Text
  pub icon : Text
  pub enabled : Bool
  pub mirror_enabled : Bool
  pub omit_client_auth_token : Bool
  pub mirror_public_url : Text
  pub mirror_status : Text
  pub created_at : Time
  pub updated_at : Time
  pub entries : List SubscriptionEntry
  pub used_bytes : ℕ
  pub upload_bytes : ℕ
  pub download_bytes : ℕ
  pub available_bytes : Option ℕ
  pub expires_at : Option Time
