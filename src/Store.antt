-- ===== src/Store.antt =====
-- internal/store: the SQLite tables as lists of rows in the order of their ids, and what every
-- statement shares. An operation takes the database and returns it with its result. A statement
-- fails only as its constraints say; faults of the disk and cancelled contexts are not modelled.
pub mod Columns
pub mod Backends
pub mod UsageLogs
pub mod ClientKeys
pub mod Proxies
use token_gate.Base.{ℕ, List, []}
use token_gate.Domain.{ClientKey, SocksProxy, Backend, UsageLog}
use token_gate.Text.{Text}
use token_gate.Time.{Time}

pub data StoreError : Type 0 where
  -- a UNIQUE constraint
  unique_violation : StoreError
  -- `sql.ErrNoRows`
  no_rows : StoreError

pub data Result {ℓ} (A : Type ℓ) : Type ℓ where
  ok : A → Result A
  err : StoreError → Result A

-- A row of backend_hourly_model_stats.
pub record HourlyRow : Type 0 where
  pub backend_id : ℕ
  pub backend_name : Text
  pub model : Text
  pub hour_start : Time
  pub successes : ℕ
  pub failures : ℕ
  pub success_duration_ms_sum : ℕ
  pub success_request_bytes : ℕ
  pub success_response_bytes : ℕ
  pub success_input_tokens : ℕ
  pub success_output_tokens : ℕ
  pub success_input_cache_tokens : ℕ

-- `next_…_id` is what AUTOINCREMENT gives next: more than every id that was ever given.
pub record Db : Type 0 where
  pub backends : List Backend
  pub next_backend_id : ℕ
  pub proxies : List SocksProxy
  pub next_proxy_id : ℕ
  pub client_keys : List ClientKey
  pub next_client_key_id : ℕ
  pub usage_logs : List UsageLog
  pub next_usage_log_id : ℕ
  pub hourly : List HourlyRow
  pub settings : List (Text × Text)

-- A freshly created database.
abbrev pub empty_db : Db
empty_db = record {
  backends = [];
  next_backend_id = 1;
  proxies = [];
  next_proxy_id = 1;
  client_keys = [];
  next_client_key_id = 1;
  usage_logs = [];
  next_usage_log_id = 1;
  hourly = [];
  settings = [];
}
