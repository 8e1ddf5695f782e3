-- ===== src/Gateway.antt =====
-- internal/app/app.go, handleProxy: a request of an authenticated client from its checks to its usage
-- log, around the loop of Failover. What the outside does while it is handled is an argument.
pub mod Outcome
use token_gate.Base.{ℕ, Bool, false, ◌||◌, Option, none, some, List, [], ◌++◌, ◌==◌, if◌then◌else◌}
use token_gate.Domain.{endpoint_models, ClientKey, Backend, UsageLog, status_family}
use token_gate.Failover.{
  Attempt, Reply, error_reply, status_only, Progress, with_status, Ended, answered, ran_out,
  failover,
}
use token_gate.Proxy.{endpoint_for_path}
use token_gate.Scheduler.{Service, select_backend}
use token_gate.Store.{Db}
use token_gate.Store.UsageLogs.{append_usage_log}
use token_gate.Text.{Text, codes, text_eq, is_empty, trim_space}
use token_gate.Time.{Time}

-- What net/http and the JSON decoder give of a body.
pub data Body : Type 0 where
  unreadable : Text → Body
  undecodable : ℕ → Text → Body
  -- its size, its preview and whether that is cut, and its member "model", empty if there is none
  decoded : ℕ → Text → Bool → Text → Body

pub record Request : Type 0 where
  pub request_id : Text
  pub method : Text
  pub path : Text
  pub query : Text
  pub client_ip : Text
  pub user_agent : Text
  pub headers_json : Text
  pub body : Body

-- What the log says where the loop ends with an error.
unfoldable pub log_last_error : Text → UsageLog → UsageLog
unfolding is_empty status_family
log_last_error e log =
    let known =
      if log.status_code == 0
      then record log { status_code = 503; status_family = status_family 503 }
      else log in
    if is_empty log.error_message then record known { error_message = e } else known

-- Behind the loop.
unfoldable pub all_failed : Option Text → Progress → Reply × Progress
unfolding with_status log_last_error
all_failed canceled p = elim canceled [
  | some e ↦ (status_only 499, record p { log = with_status 499 e p.log })
  | none ↦
      let reply = error_reply 503 (codes "no backend available") in
      elim (p.last_err) [
        | some e ↦ (reply, record p { log = log_last_error e p.log })
        | none ↦ (
          reply,
          record p { log = with_status 503 (codes "all candidate backends failed") p.log },
        )
      ]
]

-- What the outside does while a request is handled.
pub record World : Type 0 where
  pub started_at : Time
  pub canceled_at_selection : Option Text
  pub attempts : ℕ → Attempt
  pub canceled_at_end : Option Text
  pub finished_at : Time
  pub duration_ms : ℕ

-- The deferred function.
unfoldable pub log_request : World → UsageLog → Db → Db
unfolding append_usage_log
log_request w log db =
    append_usage_log w.finished_at (record log { duration_ms = w.duration_ms }) db

unfoldable pub initial_log : World → ClientKey → Request → UsageLog
initial_log w caller r = record {
  id = 0;
  request_id = r.request_id;
  client_id = caller.id;
  client_name = caller.name;
  client_token_prefix = caller.token_prefix;
  method = r.method;
  path = r.path;
  query = r.query;
  endpoint = [];
  model = [];
  backend_id = 0;
  backend_name = [];
  proxy_id = 0;
  proxy_name = [];
  attempts = 0;
  status_code = 0;
  status_family = [];
  duration_ms = 0;
  error_message = [];
  client_ip = r.client_ip;
  user_agent = r.user_agent;
  trace_id = r.request_id;
  request_bytes = 0;
  response_bytes = 0;
  input_tokens = 0;
  output_tokens = 0;
  input_cache_tokens = 0;
  request_headers_json = r.headers_json;
  request_body_preview = [];
  response_headers_json = [];
  response_body_preview = [];
  preview_truncated = false;
  is_stream = false;
  created_at = w.started_at;
}

-- A request that is answered before a backend is chosen: its log has no status family.
unfoldable pub reject : World → ℕ → Text → Text → UsageLog → Db → Reply × Db
unfolding log_request
reject w code message told log db = (
  error_reply code told,
  log_request w (record log { status_code = code; error_message = message }) db,
)

-- What is behind the loop.
unfoldable pub finished : World → Ended → Reply × Db
unfolding all_failed log_request
finished w (answered reply p) = (reply, log_request w p.log p.db)
finished w (ran_out p) =
    let (reply, q) = all_failed w.canceled_at_end p in (reply, log_request w q.log q.db)

-- The loop and what is behind it, on the candidates.
unfoldable pub serve : Service → World → Text → UsageLog → List Backend → Db → Reply × Db
unfolding failover finished
serve s w model log backends db =
    finished w
      (failover s model w.attempts 0 backends (record { log = log; last_err = none; db = db }))

-- What follows the selection. Where no backend is available, nothing is logged.
unfoldable pub dispatched :
    Service → World → Text → UsageLog → Db × Option (List Backend) → Reply × Db
unfolding with_status log_request serve
dispatched s w model log (db, some backends) = serve s w model log backends db
dispatched s w model log (db, none) = elim (w.canceled_at_selection) [
  | some e ↦ (status_only 499, log_request w (with_status 499 e log) db)
  | none ↦ (error_reply 503 (codes "no backend available"), db)
]

-- From the selection of the backends on.
unfoldable pub dispatch : Service → World → Text → Text → UsageLog → Db → Reply × Db
unfolding select_backend dispatched
dispatch s w endpoint model log db =
    dispatched s w model log (select_backend w.started_at endpoint model db)

-- `ExtractModel` of internal/proxy/proxy.go, on the decoded member
unfoldable pub extract_model : Text → Option Text
unfolding is_empty trim_space
extract_model model = if is_empty (trim_space model) then none else some model

-- The handler, for the client that the authentication found.
unfoldable pub handle_proxy : Service → World → Option ClientKey → Request → Db → Reply × Db
unfolding is_empty text_eq endpoint_for_path initial_log reject extract_model dispatch
handle_proxy s w none r db = (error_reply 401 (codes "missing client context"), db)
handle_proxy s w (some caller) r db =
    let endpoint = endpoint_for_path r.path in
    let log = record (initial_log w caller r) { endpoint = endpoint } in
    let unsupported = codes "unsupported endpoint" in
    let invalid = codes "invalid request body: " in
    if is_empty endpoint || text_eq endpoint endpoint_models
    then reject w 404 unsupported unsupported log db
    else elim (r.body) [
      | unreadable e ↦ reject w 400 e (codes "read request body failed") log db
      | undecodable size e ↦ reject w 400 e (invalid ++ e) log db
      | decoded size preview truncated field ↦ elim (extract_model field) [
        | none ↦ reject w 400 (codes "missing model") (invalid ++ codes "missing model") log db
        | some model ↦
            dispatch s w endpoint model
              (record log {
                model = model;
                request_bytes = size;
                request_body_preview = preview;
                preview_truncated = truncated;
              })
              db
      ]
    ]
