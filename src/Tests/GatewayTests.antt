-- ===== src/Tests/GatewayTests.antt =====
-- The failover, the usage logs, the forwarded headers and the handshake at concrete inputs.
use token_gate.Base.{
  ℕ, zero, suc, ◌+◌, ◌≡◌, refl, false, none, some, List, [], ◌∷◌, if◌then◌else◌, pos,
}
use token_gate.Domain.{
  endpoint_chat, Backend, UsageLog, normalize_backend_protocol, normalize_backend_status,
}
use token_gate.Failover.{
  ResponseLog, ready, no_response, response, delivered, Attempt, upstream_reply, Progress, failover,
}
use token_gate.Failover.Entries.{entries, log_count, log_count-failover}
use token_gate.Failover.Verdicts.{
  first_answer, apply_marks, answer_of, db_of, without_logs, failover-verdicts,
}
use token_gate.Gateway.{World, dispatch}
use token_gate.Gateway.Outcome.{final_reply, dispatch-selected}
use token_gate.Glob.{path_match}
use token_gate.HttpHeader.{Header, values}
use token_gate.Proxy.{effective_backend_protocol_for_path, bearer_value, upstream_headers}
use token_gate.Proxy.Forwarding.{collected, credential, withheld, among, values-upstream_headers}
use token_gate.Scheduler.{Service, candidates, select_backend}
use token_gate.Store.{HourlyRow, Db, empty_db}
use token_gate.Store.Backends.{recover_expired_backends}
use token_gate.Store.Columns.{normalize_list}
use token_gate.Store.UsageLogs.{contribution}
use token_gate.Store.UsageLogs.Hourly.{successes, recorded, append_all, total, recorded-append_all}
use token_gate.Tests.Samples.{at_second, backend}
use token_gate.Text.{codes, text_eq, trim_space, to_lower}
use token_gate.Time.{Time, format_time}

abbrev pair_of_backends : List Backend
pair_of_backends = backend 1 "edge-a" (pos 5) [] ∷ backend 2 "edge-b" (pos 9) [] ∷ []

abbrev pair_db : Db
pair_db = record empty_db { backends = pair_of_backends; next_backend_id = 3 }

abbrev service : Service
service = record { backend_cooldown = 60; backend_fails = pos 3 }

abbrev plain_log : ResponseLog
plain_log = record {
  headers_json = codes "{}";
  is_stream = false;
  bytes = 2;
  preview = codes "ok";
  truncated = false;
  input_tokens = 3;
  output_tokens = 4;
  input_cache_tokens = 0;
}

-- The first backend does not answer, the second one does.
abbrev second_serves : ℕ → Attempt
second_serves n = record {
  canceled = none;
  rewrite_error = none;
  exchange = ready;
  sent = elim n [
    | zero ↦ no_response false (codes "connection refused")
    | suc m ↦ response 200 (codes "200 OK") (some plain_log)
  ];
  delivery = delivered 200 plain_log none;
  at = at_second 7 0;
  duration_ms = 12;
}

abbrev request_log : UsageLog
request_log = record {
  id = 0;
  request_id = codes "r-1";
  client_id = 4;
  client_name = codes "app";
  client_token_prefix = codes "sk-";
  method = codes "POST";
  path = codes "/v1/chat/completions";
  query = [];
  endpoint = codes "chat";
  model = codes "gpt-4o";
  backend_id = 2;
  backend_name = codes "edge-b";
  proxy_id = 0;
  proxy_name = codes "direct";
  attempts = 2;
  status_code = 200;
  status_family = codes "2xx";
  duration_ms = 12;
  error_message = [];
  client_ip = [];
  user_agent = [];
  trace_id = codes "r-1";
  request_bytes = 20;
  response_bytes = 2;
  input_tokens = 3;
  output_tokens = 4;
  input_cache_tokens = 0;
  request_headers_json = codes "{}";
  request_body_preview = [];
  response_headers_json = codes "{}";
  response_body_preview = [];
  preview_truncated = false;
  is_stream = false;
  created_at = at_second 6 0;
}

abbrev start : Progress
start = record { log = request_log; last_err = none; db = pair_db }

-- The second backend's response is the answer.
second_answers :
    first_answer (codes "gpt-4o") second_serves 0 pair_of_backends ≡ some (upstream_reply 2 200)
unfolding first_answer trim_space
second_answers = refl

failover-verdicts_example :
    (answer_of (failover service (codes "gpt-4o") second_serves 0 pair_of_backends start)
      ≡ first_answer (codes "gpt-4o") second_serves 0 pair_of_backends)
    × (without_logs
          (db_of (failover service (codes "gpt-4o") second_serves 0 pair_of_backends start))
        ≡ apply_marks service
            (codes "gpt-4o")
            second_serves
            0
            pair_of_backends
            (without_logs pair_db))
failover-verdicts_example =
    failover-verdicts service (codes "gpt-4o") second_serves 0 pair_of_backends start

abbrev hour_key : HourlyRow
hour_key = contribution (at_second 6 0) request_log

abbrev two_logs : List (Time × UsageLog)
two_logs =
    (at_second 6 0, request_log) ∷ (at_second 9 0, record request_log { status_code = 502 }) ∷ []

-- Both count for their hour: one success and one failure.
one_success : total successes hour_key two_logs ≡ 1
unfolding total format_time trim_space contribution
one_success = refl

recorded-append_all_example :
    recorded successes hour_key (append_all two_logs empty_db).hourly
    ≡ recorded successes hour_key empty_db.hourly + total successes hour_key two_logs
recorded-append_all_example = recorded-append_all successes hour_key two_logs empty_db

abbrev incoming : Header
incoming =
    (codes "authorization", codes "Bearer client" ∷ [])
    ∷ (codes "Accept", codes "*/*" ∷ [])
    ∷ (codes "Connection", codes "keep-alive" ∷ [])
    ∷ []

accept_kept :
    values
      (codes "Accept")
      (upstream_headers incoming (backend 1 "edge-a" (pos 5) []) (codes "/v1/chat/completions"))
    ≡ codes "*/*" ∷ []
unfolding upstream_headers values effective_backend_protocol_for_path normalize_backend_protocol
    trim_space to_lower bearer_value
accept_kept = refl

values-upstream_headers_example :
    values
      (codes "Authorization")
      (upstream_headers incoming (backend 1 "edge-a" (pos 5) []) (codes "/v1/chat/completions"))
    ≡ (if text_eq
          (credential (backend 1 "edge-a" (pos 5) []) (codes "/v1/chat/completions")).0
          (codes "Authorization")
        then (credential (backend 1 "edge-a" (pos 5) []) (codes "/v1/chat/completions")).1 ∷ []
        else (if among
              (codes "Authorization")
              (withheld (backend 1 "edge-a" (pos 5) []) (codes "/v1/chat/completions"))
            then []
            else collected (codes "Authorization") incoming))
values-upstream_headers_example =
    values-upstream_headers incoming (backend 1 "edge-a" (pos 5) []) (codes "/v1/chat/completions")
      (codes "Authorization")

abbrev world : World
world = record {
  started_at = at_second 6 0;
  canceled_at_selection = none;
  attempts = second_serves;
  canceled_at_end = none;
  finished_at = at_second 8 0;
  duration_ms = 30;
}

abbrev any_backend_db : Db
any_backend_db = record empty_db {
  backends =
      backend 1 "edge-a" (pos 9) (codes "gpt-*" ∷ [])
      ∷ backend 2 "edge-b" (pos 5) (codes "gpt-*" ∷ [])
      ∷ [];
  next_backend_id = 3;
}

abbrev recovered_db : Db
recovered_db = recover_expired_backends (at_second 6 0) any_backend_db

abbrev chosen_pair : List Backend
chosen_pair = candidates (codes "gpt-4o") recovered_db

both_chosen :
    select_backend (at_second 6 0) endpoint_chat (codes "gpt-4o") any_backend_db
    ≡ (recovered_db, some chosen_pair)
unfolding select_backend normalize_backend_status to_lower trim_space normalize_list path_match
both_chosen = refl

dispatch-selected_example :
    ((dispatch service world endpoint_chat (codes "gpt-4o") request_log any_backend_db).0
      ≡ final_reply (first_answer (codes "gpt-4o") second_serves 0 chosen_pair) none)
    × (without_logs
          (dispatch service world endpoint_chat (codes "gpt-4o") request_log any_backend_db).1
        ≡ apply_marks service
            (codes "gpt-4o")
            second_serves
            0
            chosen_pair
            (without_logs recovered_db))
    × (log_count
          (dispatch service world endpoint_chat (codes "gpt-4o") request_log any_backend_db).1
        ≡ log_count recovered_db + entries (codes "gpt-4o") second_serves 0 chosen_pair + 1)
dispatch-selected_example =
    dispatch-selected service world endpoint_chat (codes "gpt-4o") request_log any_backend_db
      recovered_db chosen_pair both_chosen

log_count-failover_example :
    log_count (db_of (failover service (codes "gpt-4o") second_serves 0 pair_of_backends start))
    ≡ log_count pair_db + entries (codes "gpt-4o") second_serves 0 pair_of_backends
log_count-failover_example =
    log_count-failover service (codes "gpt-4o") second_serves 0 pair_of_backends start
