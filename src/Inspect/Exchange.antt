-- ===== src/Inspect/Exchange.antt =====
-- internal/inspect/exchange.go: a captured exchange and its summary. Times and durations are numbers.
use fxtun_dev.Base.{ℕ, ◌*◌, List, nat_eq}
use fxtun_dev.Base.Bytes.{Bytes}

abbrev pub max_body_size : ℕ
max_body_size = 256 * 1024

abbrev pub Headers : Type 0
Headers = List (Bytes × List Bytes)

pub record CapturedExchange : Type 0 where
  pub id : Bytes
  pub tunnel_id : Bytes
  pub trace_id : Bytes
  pub replay_ref : Bytes
  pub timestamp : ℕ
  pub duration : ℕ
  pub method : Bytes
  pub path : Bytes
  pub host : Bytes
  pub request_headers : Headers
  pub request_body : Bytes
  pub request_body_size : ℕ
  pub remote_addr : Bytes
  pub status_code : ℕ
  pub response_headers : Headers
  pub response_body : Bytes
  pub response_body_size : ℕ
