-- ===== src/Store/UsageLogs.antt =====
-- internal/store/store_log.go, AppendUsageLog, and the hourly statistics of
-- internal/store/store_backend.go that it keeps. Of an hourly row the two timestamps of its own are
-- left out.
pub mod Hourly
use token_gate.Base.{
  ℕ, suc, ◌+◌, Bool, not, ◌&&◌, ◌||◌, List, [], ◌∷◌, ◌++◌, ltb, leb, ◌==◌, if◌then◌else◌,
}
use token_gate.Domain.{UsageLog, status_family}
use token_gate.Scheduler.{new}
use token_gate.Store.{HourlyRow, Db}
use token_gate.Text.{Text, codes, text_eq, is_empty, trim_space}
use token_gate.Time.{Time, is_zero, format_time, truncate_hour}

-- `nonEmpty`
unfoldable pub non_empty : Text → Text → Text
unfolding is_empty trim_space
non_empty value fallback = if is_empty (trim_space value) then fallback else value

-- The row that the insert writes.
unfoldable pub logged_row : Time → UsageLog → UsageLog
unfolding non_empty status_family
logged_row created_at log = record log {
  request_id = trim_space log.request_id;
  method = trim_space log.method;
  path = trim_space log.path;
  query = trim_space log.query;
  endpoint = trim_space log.endpoint;
  model = trim_space log.model;
  proxy_name = trim_space log.proxy_name;
  status_family = non_empty log.status_family (status_family log.status_code);
  error_message = trim_space log.error_message;
  client_ip = trim_space log.client_ip;
  user_agent = trim_space log.user_agent;
  trace_id = trim_space log.trace_id;
  request_headers_json = non_empty log.request_headers_json (codes "{}");
  response_headers_json = non_empty log.response_headers_json (codes "{}");
  created_at = created_at;
}

unfoldable pub is_success_status : ℕ → Bool
is_success_status code = leb 200 code && ltb code 300

unfoldable pub backend_hourly_bucket_utc : Time → Time
unfolding truncate_hour
backend_hourly_bucket_utc t = truncate_hour t

-- The row that one log adds.
unfoldable pub contribution : Time → UsageLog → HourlyRow
unfolding is_success_status backend_hourly_bucket_utc
contribution created_at log =
    let success = is_success_status log.status_code in
    record {
      backend_id = log.backend_id;
      backend_name = trim_space log.backend_name;
      model = trim_space log.model;
      hour_start = backend_hourly_bucket_utc created_at;
      successes = if success then 1 else 0;
      failures = if success then 0 else 1;
      success_duration_ms_sum = if success then log.duration_ms else 0;
      success_request_bytes = if success then log.request_bytes else 0;
      success_response_bytes = if success then log.response_bytes else 0;
      success_input_tokens = if success then log.input_tokens else 0;
      success_output_tokens = if success then log.output_tokens else 0;
      success_input_cache_tokens = if success then log.input_cache_tokens else 0;
    }

-- The columns of the conflict clause.
unfoldable pub same_key : HourlyRow → HourlyRow → Bool
unfolding text_eq format_time
same_key a b =
    a.backend_id == b.backend_id
    && text_eq a.model b.model
    && text_eq (format_time a.hour_start) (format_time b.hour_start)

-- `DO UPDATE SET`
unfoldable pub merge : HourlyRow → HourlyRow → HourlyRow
merge old new = record old {
  backend_name = new.backend_name;
  successes = old.successes + new.successes;
  failures = old.failures + new.failures;
  success_duration_ms_sum = old.success_duration_ms_sum + new.success_duration_ms_sum;
  success_request_bytes = old.success_request_bytes + new.success_request_bytes;
  success_response_bytes = old.success_response_bytes + new.success_response_bytes;
  success_input_tokens = old.success_input_tokens + new.success_input_tokens;
  success_output_tokens = old.success_output_tokens + new.success_output_tokens;
  success_input_cache_tokens = old.success_input_cache_tokens + new.success_input_cache_tokens;
}

unfoldable pub upsert_row : HourlyRow → List HourlyRow → List HourlyRow
unfolding same_key merge
upsert_row new [] = new ∷ []
upsert_row new (old ∷ rows) =
    let rest = upsert_row new rows in if same_key old new then merge old new ∷ rows else old ∷ rest

-- A log that names no backend or no model is not counted.
unfoldable pub is_counted : UsageLog → Bool
unfolding is_empty
is_counted log = not (
    log.backend_id == 0
    || is_empty (trim_space log.backend_name)
    || is_empty (trim_space log.model))

unfoldable pub upsert_backend_hourly_model_stats : UsageLog → Time → List HourlyRow → List HourlyRow
unfolding is_counted contribution upsert_row
upsert_backend_hourly_model_stats log created_at rows =
    if is_counted log then upsert_row (contribution created_at log) rows else rows

-- When a log was made: now, if it does not say.
unfoldable pub created : Time → UsageLog → Time
unfolding is_zero
created now log = if is_zero log.created_at then now else log.created_at

unfoldable pub append_usage_log : Time → UsageLog → Db → Db
unfolding logged_row upsert_backend_hourly_model_stats created
append_usage_log now log db =
    let t = created now log in
    record db {
      usage_logs = db.usage_logs ++ (record (logged_row t log) { id = db.next_usage_log_id } ∷ []);
      next_usage_log_id = suc db.next_usage_log_id;
      hourly = upsert_backend_hourly_model_stats log t db.hourly;
    }
