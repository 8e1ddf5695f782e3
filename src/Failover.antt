-- ===== src/Failover.antt =====
-- internal/app/app.go, the loop of handleProxy over the candidates of the scheduler, and what it uses
-- of internal/handler/handle_log.go. What the outside does in an attempt (the network, the codecs,
-- the client that goes away) is an argument. The event log is not modelled.
pub mod Verdicts
pub mod Entries
use token_gate.Base.{
  ℕ, suc, ◌/◌, Bool, true, false, ◌||◌, Option, none, some, List, [], ◌∷◌, ◌++◌, ◌==◌,
  if◌then◌else◌,
}
use token_gate.Domain.{Backend, UsageLog, status_family}
use token_gate.Scheduler.{Service, mark_success, mark_failure}
use token_gate.Store.{Db}
use token_gate.Store.Columns.{map_get}
use token_gate.Store.UsageLogs.{append_usage_log}
use token_gate.Text.{Text, codes, text_eq, is_empty, trim_space}
use token_gate.Time.{Time}

-- What `CloneResponseForLogging` and `extractNormalizedTokenUsage` read off a response.
pub record ResponseLog : Type 0 where
  pub headers_json : Text
  pub is_stream : Bool
  pub bytes : ℕ
  pub preview : Text
  pub truncated : Bool
  pub input_tokens : ℕ
  pub output_tokens : ℕ
  pub input_cache_tokens : ℕ

-- `PrepareExchange`: ready, `ErrCrossProtocolStreamingNotSupported`, or another error.
pub data Exchange : Type 0 where
  ready : Exchange
  streaming_not_supported : Text → Exchange
  not_prepared : Text → Exchange

-- `DoWithPath` and `decodeUpstreamResponse`. The flag says that the request was canceled; a response
-- has a status code, a status text and, if its body can be read, what is logged of it.
pub data Sent : Type 0 where
  no_response : Bool → Text → Sent
  broken_response : Bool → Text → Sent
  response : ℕ → Text → Option ResponseLog → Sent

-- What becomes of a response with a 2xx status: `AdaptResponse` fails, its body cannot be read, or
-- it is written with this status, perhaps with an error on the way.
pub data Delivery : Type 0 where
  not_adapted : Text → Delivery
  not_buffered : Text → Delivery
  delivered : ℕ → ResponseLog → Option Text → Delivery

-- What the outside does in one attempt. `canceled` is the request's context at its start, with the
-- text of its error.
pub record Attempt : Type 0 where
  pub canceled : Option Text
  pub rewrite_error : Option Text
  pub exchange : Exchange
  pub sent : Sent
  pub delivery : Delivery
  pub at : Time
  pub duration_ms : ℕ

-- What the client is answered. `nothing_written` leaves the answer to net/http, which then sends an
-- empty response with the status 200.
pub data Reply : Type 0 where
  error_reply : ℕ → Text → Reply
  status_only : ℕ → Reply
  upstream_reply : ℕ → ℕ → Reply
  nothing_written : Reply

pub record Progress : Type 0 where
  pub log : UsageLog
  pub last_err : Option Text
  pub db : Db

-- Where an attempt leads: the handler returns, the loop goes on, or it breaks.
pub data Next : Type 0 where
  returns : Reply → Progress → Next
  continues : Progress → Next
  breaks : Progress → Next

-- `m[key]`, empty for a key that is missing
unfoldable pub mapping_value : Text → List (Text × Text) → Text
unfolding map_get
mapping_value key m = elim (map_get key m) [ none ↦ [] | some v ↦ v ]

-- `MappedBackendModel` of internal/handler/handle_backend.go
unfoldable pub mapped_backend_model : Backend → Text → Text
unfolding mapping_value is_empty
mapped_backend_model backend client_model =
    let mapped = trim_space (mapping_value (trim_space client_model) backend.model_mapping) in
    if is_empty mapped then client_model else mapped

-- `ApplyResponseLogFields` of internal/handler/handle_log.go
unfoldable pub apply_response_log_fields : ResponseLog → UsageLog → UsageLog
apply_response_log_fields r log = record log {
  response_headers_json = r.headers_json;
  is_stream = r.is_stream;
  response_bytes = r.bytes;
  response_body_preview = r.preview;
  preview_truncated = log.preview_truncated || r.truncated;
  input_tokens = r.input_tokens;
  output_tokens = r.output_tokens;
  input_cache_tokens = r.input_cache_tokens;
}

unfoldable pub with_status : ℕ → Text → UsageLog → UsageLog
unfolding status_family
with_status code message log = record log {
  status_code = code;
  status_family = status_family code;
  error_message = message;
}

-- `AppendAttemptUsageLog` of internal/handler/handle_log.go
unfoldable pub append_attempt_usage_log : Attempt → Progress → Progress
unfolding append_usage_log
append_attempt_usage_log a p = record p {
  db = append_usage_log a.at (record (p.log) { duration_ms = a.duration_ms }) p.db;
}

-- `finishCanceledProxyRequest`
unfoldable pub finish_canceled_proxy_request : Text → Progress → Next
unfolding with_status
finish_canceled_proxy_request message p =
    returns (status_only 499) (record p { log = with_status 499 message p.log })

-- `MarkFailure`, whose own error is dropped.
unfoldable pub marked_failure : Service → Attempt → Backend → Progress → Progress
unfolding mark_failure
marked_failure s a backend p = record p { db = mark_failure s a.at backend.id p.db }

-- An attempt that failed with the loop's variables set: its log is appended if another follows.
unfoldable pub fail_over : Bool → Attempt → Progress → Next
unfolding append_attempt_usage_log
fail_over last a p = if last then breaks p else continues (append_attempt_usage_log a p)

-- A failure before anything was sent: the loop goes on, after the last one too.
unfoldable pub fail_early : Bool → Attempt → Text → Text → Progress → Next
unfolding with_status append_attempt_usage_log
fail_early last a reason message p =
    let q = record p { log = with_status 503 (reason ++ message) p.log; last_err = some message } in
    continues (if last then q else append_attempt_usage_log a q)

-- A failure of the backend: it is marked.
unfoldable pub fail_backend : Service → Bool → Attempt → Backend → Text → Text → Progress → Next
unfolding with_status fail_over marked_failure
fail_backend s last a backend reason message p =
    let q = marked_failure s a backend p in
    fail_over last a
      (record q { log = with_status 503 (reason ++ message) q.log; last_err = some message })

-- A response without a 2xx status.
unfoldable pub fail_status :
    Service → Bool → Attempt → Backend → ℕ → Text → Option ResponseLog → Progress → Next
unfolding with_status apply_response_log_fields fail_over marked_failure
fail_status s last a backend code status logged p =
    let log = with_status code status p.log in
    fail_over last a (record (marked_failure s a backend p) {
      log = elim logged [ none ↦ log | some r ↦ apply_response_log_fields r log ];
      last_err = some status;
    })

-- A response with a 2xx status: the backend is marked, and no other one is tried.
unfoldable pub mark_served : Attempt → Backend → ℕ → Progress → Progress
unfolding with_status mark_success
mark_served a backend code p = record p {
  db = mark_success a.at backend.id p.db;
  log = with_status code [] p.log;
}

unfoldable pub delivered_log : ResponseLog → Option Text → UsageLog → UsageLog
unfolding with_status apply_response_log_fields
delivered_log r none log = apply_response_log_fields r log
delivered_log r (some e) log = with_status 503 e (apply_response_log_fields r log)

unfoldable pub deliver : Attempt → Backend → ℕ → Delivery → Progress → Next
unfolding with_status mark_served delivered_log
deliver a backend code (not_adapted e) p =
    let q = mark_served a backend code p in
    returns nothing_written
      (record q { log = with_status 503 (codes "adapt response failed: " ++ e) q.log })
deliver a backend code (not_buffered e) p =
    let q = mark_served a backend code p in
    returns nothing_written (record q { log = with_status 503 e q.log })
deliver a backend code (delivered status logged failure) p =
    let q = mark_served a backend code p in
    returns (upstream_reply backend.id status)
      (record q { log = delivered_log logged failure q.log })

-- The log's fields on the backend.
unfoldable pub begin_attempt : ℕ → Backend → Progress → Progress
begin_attempt attempt backend p = record p {
  log = record (p.log) {
    attempts = attempt;
    backend_id = backend.id;
    backend_name = backend.name;
    proxy_id = backend.proxy_id;
    proxy_name = elim (backend.proxy) [ none ↦ codes "direct" | some proxy ↦ proxy.name ];
  };
}

-- What follows `DoWithPath`, by its outcome.
unfoldable pub receive : Service → Bool → Attempt → Backend → Sent → Progress → Next
unfolding finish_canceled_proxy_request fail_backend fail_status deliver
receive s last a backend (no_response true e) p = finish_canceled_proxy_request e p
receive s last a backend (no_response false e) p = fail_backend s last a backend [] e p
receive s last a backend (broken_response true e) p = finish_canceled_proxy_request e p
receive s last a backend (broken_response false e) p =
    fail_backend s last a backend (codes "decode response failed: ") e p
receive s last a backend (response code status logged) p =
    if code / 100 == 2
    then deliver a backend code a.delivery p
    else fail_status s last a backend code status logged p

-- What follows `PrepareExchange`, by its outcome.
unfoldable pub exchange_with : Service → Bool → Attempt → Backend → Exchange → Progress → Next
unfolding fail_early receive
exchange_with s last a backend (streaming_not_supported e) p = continues p
exchange_with s last a backend (not_prepared e) p =
    fail_early last a (codes "prepare exchange failed: ") e p
exchange_with s last a backend ready p = receive s last a backend a.sent p

-- The error of `RewriteModel`, which is called only where the backend has another name for the
-- model.
unfoldable pub rewrite_failure : Text → Attempt → Backend → Option Text
unfolding text_eq mapped_backend_model
rewrite_failure model a backend =
    if text_eq (mapped_backend_model backend model) model then none else a.rewrite_error

-- What follows the rewriting of the model, by its error.
unfoldable pub rewritten : Service → Bool → Attempt → Backend → Option Text → Progress → Next
unfolding fail_early exchange_with
rewritten s last a backend (some e) p = fail_early last a (codes "rewrite model failed: ") e p
rewritten s last a backend none p = exchange_with s last a backend a.exchange p

-- The body of the loop, by the error of the context at its start.
unfoldable pub begun : Service → Text → Bool → ℕ → Attempt → Backend → Option Text → Progress → Next
unfolding finish_canceled_proxy_request begin_attempt rewrite_failure rewritten
begun s model last attempt a backend (some e) p = finish_canceled_proxy_request e p
begun s model last attempt a backend none p =
    rewritten s last a backend (rewrite_failure model a backend) (begin_attempt attempt backend p)

unfoldable pub attempt_on : Service → Text → Bool → ℕ → Attempt → Backend → Progress → Next
unfolding begun
attempt_on s model last attempt a backend p = begun s model last attempt a backend a.canceled p

pub data Ended : Type 0 where
  answered : Reply → Progress → Ended
  ran_out : Progress → Ended

abbrev pub is_last : List Backend → Bool
is_last [] = true
is_last (b ∷ bs) = false

-- Where the loop goes from the end of its body.
abbrev pub follow : (Progress → Ended) → Next → Ended
follow rest (returns reply q) = answered reply q
follow rest (breaks q) = ran_out q
follow rest (continues q) = rest q

-- The loop, from the candidate at the position `n` on.
unfoldable pub failover : Service → Text → (ℕ → Attempt) → ℕ → List Backend → Progress → Ended
unfolding attempt_on
failover s model attempts n [] p = ran_out p
failover s model attempts n (b ∷ bs) p =
    follow (failover s model attempts (suc n) bs)
      (attempt_on s model (is_last bs) (suc n) (attempts n) b p)
