-- ===== src/Config.antt =====
-- src/config.rs: the settings, their defaults and their overrides.
pub mod Validate
use sspanel_ssr_rust_backend.Base.{ℕ, Bool, true, Option, none, some, List, [], ◌∷◌}
use sspanel_ssr_rust_backend.Ssr.Cipher.{rc4_md5_name}

pub record PanelConfig : Type 0 where
  pub base_url : List ℕ
  pub key : List ℕ
  pub node_id : ℕ
  pub request_timeout_secs : ℕ
  pub poll_interval_secs : ℕ
  pub traffic_report_interval_secs : ℕ
  pub heartbeat_interval_secs : ℕ
  pub ipv4_only : Bool

pub record NodeConfig : Type 0 where
  pub listen_host : List ℕ
  pub method : List ℕ
  pub protocol : List ℕ
  pub obfs : List ℕ
  pub server_port : ℕ
  pub timeout_secs : ℕ
  pub workers : ℕ
  pub tcp_enabled : Bool
  pub udp_enabled : Bool
  pub enforce_forbidden : Bool
  pub enforce_conn_limit : Bool
  pub audit_block : Bool
  pub enforce_speed : Bool

pub record LimitsConfig : Type 0 where
  pub max_users : ℕ
  pub max_sessions : ℕ
  pub session_ttl_secs : ℕ
  pub max_udp_associations : ℕ
  pub udp_association_ttl_secs : ℕ
  pub max_alive_ips : ℕ
  pub alive_ip_ttl_secs : ℕ
  pub max_detect_logs : ℕ
  pub detect_log_ttl_secs : ℕ
  pub max_accepts_per_port : ℕ

pub record Config : Type 0 where
  pub panel : PanelConfig
  pub node : NodeConfig
  pub limits : LimitsConfig

-- A `Duration` is its number of seconds.
unfoldable pub timeout : NodeConfig → ℕ
timeout node = node.timeout_secs

unfoldable pub request_timeout : PanelConfig → ℕ
request_timeout panel = panel.request_timeout_secs

unfoldable pub poll_interval : PanelConfig → ℕ
poll_interval panel = panel.poll_interval_secs

unfoldable pub traffic_report_interval : PanelConfig → ℕ
traffic_report_interval panel = panel.traffic_report_interval_secs

unfoldable pub heartbeat_interval : PanelConfig → ℕ
heartbeat_interval panel = panel.heartbeat_interval_secs

unfoldable pub session_ttl : LimitsConfig → ℕ
session_ttl limits = limits.session_ttl_secs

unfoldable pub udp_association_ttl : LimitsConfig → ℕ
udp_association_ttl limits = limits.udp_association_ttl_secs

unfoldable pub alive_ip_ttl : LimitsConfig → ℕ
alive_ip_ttl limits = limits.alive_ip_ttl_secs

unfoldable pub detect_log_ttl : LimitsConfig → ℕ
detect_log_ttl limits = limits.detect_log_ttl_secs

abbrev pub auth_aes128_md5_name : List ℕ
auth_aes128_md5_name =
    b'a' ∷ b'u' ∷ b't' ∷ b'h' ∷ b'_' ∷ b'a' ∷ b'e' ∷ b's' ∷ b'1' ∷ b'2' ∷ b'8' ∷ b'_' ∷ b'm' ∷ b'd'
    ∷ b'5' ∷ []

abbrev pub plain_name : List ℕ
plain_name = b'p' ∷ b'l' ∷ b'a' ∷ b'i' ∷ b'n' ∷ []

-- What serde fills in for a `[panel]` with its three required fields.
unfoldable pub default_panel : List ℕ → List ℕ → ℕ → PanelConfig
default_panel base_url key node_id = record {
  base_url = base_url;
  key = key;
  node_id = node_id;
  request_timeout_secs = 10;
  poll_interval_secs = 60;
  traffic_report_interval_secs = 60;
  heartbeat_interval_secs = 60;
  ipv4_only = true;
}

-- What serde fills in for an empty `[node]`.
unfoldable pub default_node : NodeConfig
default_node = record {
  listen_host = b'0' ∷ b'.' ∷ b'0' ∷ b'.' ∷ b'0' ∷ b'.' ∷ b'0' ∷ [];
  method = rc4_md5_name;
  protocol = auth_aes128_md5_name;
  obfs = plain_name;
  server_port = 43003;
  timeout_secs = 300;
  workers = 1;
  tcp_enabled = true;
  udp_enabled = true;
  enforce_forbidden = true;
  enforce_conn_limit = true;
  audit_block = true;
  enforce_speed = true;
}

-- What serde fills in for an empty `[limits]`.
unfoldable pub default_limits : LimitsConfig
default_limits = record {
  max_users = 4096;
  max_sessions = 65536;
  session_ttl_secs = 600;
  max_udp_associations = 32768;
  udp_association_ttl_secs = 180;
  max_alive_ips = 65536;
  alive_ip_ttl_secs = 600;
  max_detect_logs = 8192;
  detect_log_ttl_secs = 3600;
  max_accepts_per_port = 2048;
}
