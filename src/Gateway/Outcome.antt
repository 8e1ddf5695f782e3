-- ===== src/Gateway/Outcome.antt =====
-- A request from its selected candidates to its answer, by the verdicts on its attempts.
use token_gate.Base.{◌+◌, ◌≡◌, refl, ap, ◌∙◌, inl, inr, Option, none, some, List, Option-cases}
use token_gate.Domain.{Backend, UsageLog}
use token_gate.Failover.{
  Reply, error_reply, status_only, Progress, Ended, answered, ran_out, failover,
}
use token_gate.Failover.Entries.{entries, log_count, log_count-append_usage_log, log_count-failover}
use token_gate.Failover.Verdicts.{
  first_answer, apply_marks, answer_of, db_of, without_logs, failover-verdicts,
}
use token_gate.Gateway.{all_failed, World, log_request, finished, serve, dispatched, dispatch}
use token_gate.Scheduler.{Service, select_backend}
use token_gate.Store.{Db}
use token_gate.Store.UsageLogs.{append_usage_log}
use token_gate.Text.{Text, codes}

-- The answer where no attempt ended the request: 499 if it was canceled, else 503.
unfoldable pub final_reply : Option Reply → Option Text → Reply
final_reply (some reply) canceled = reply
final_reply none (some e) = status_only 499
final_reply none none = error_reply 503 (codes "no backend available")

all_failed-final_reply :
    (canceled : Option Text) (p : Progress)
    → ((all_failed canceled p).0 ≡ final_reply none canceled)
      × ((all_failed canceled p).1.db ≡ p.db)
unfolding all_failed final_reply
all_failed-final_reply (some e) p = (refl, refl)
all_failed-final_reply none p = elim (Option-cases (p.last_err)) [
  | inl e ↦ rw e (refl, refl)
  | inr (m, e) ↦ rw e (refl, refl)
]

without_logs-log_request :
    (w : World) (log : UsageLog) (db : Db) → without_logs (log_request w log db) ≡ without_logs db
unfolding without_logs log_request append_usage_log
without_logs-log_request w log db = refl

log_count-log_request :
    (w : World) (log : UsageLog) (db : Db) → log_count (log_request w log db) ≡ log_count db + 1
unfolding log_request
log_count-log_request w log db =
    log_count-append_usage_log w.finished_at (record log { duration_ms = w.duration_ms }) db

finished-final_reply :
    (w : World) (x : Ended)
    → ((finished w x).0 ≡ final_reply (answer_of x) w.canceled_at_end)
      × (without_logs (finished w x).1 ≡ without_logs (db_of x))
      × (log_count (finished w x).1 ≡ log_count (db_of x) + 1)
unfolding finished answer_of db_of final_reply
finished-final_reply w (answered reply p) =
    (refl, without_logs-log_request w p.log p.db, log_count-log_request w p.log p.db)
finished-final_reply w (ran_out p) =
    let (r, d) = all_failed-final_reply w.canceled_at_end p in
    let q = (all_failed w.canceled_at_end p).1 in
    (
      r,
      without_logs-log_request w q.log q.db ∙ ap without_logs d,
      log_count-log_request w q.log q.db ∙ ap (λ db. log_count db + 1) d,
    )

dispatch-serve :
    (s : Service) (w : World) (endpoint model : Text) (log : UsageLog) (db later : Db)
    (bs : List Backend)
    → select_backend w.started_at endpoint model db ≡ (later, some bs)
    → dispatch s w endpoint model log db ≡ serve s w model log bs later
unfolding dispatch
dispatch-serve s w endpoint model log db later bs h = ap (dispatched s w model log) h

-- If the scheduler selects candidates, the request is answered by its first attempt that ends it,
-- or else with 499 where it was canceled and 503 where it was not; logs aside, the database changes
-- by the marks of the attempts alone; and the logs grow by one for each attempt that failed with
-- another to follow (those skipped for streaming aside) and by one for the request.
pub dispatch-selected :
    (s : Service) (w : World) (endpoint model : Text) (log : UsageLog) (db later : Db)
    (bs : List Backend)
    → select_backend w.started_at endpoint model db ≡ (later, some bs)
    → ((dispatch s w endpoint model log db).0
        ≡ final_reply (first_answer model w.attempts 0 bs) w.canceled_at_end)
      × (without_logs (dispatch s w endpoint model log db).1
          ≡ apply_marks s model w.attempts 0 bs (without_logs later))
      × (log_count (dispatch s w endpoint model log db).1
          ≡ log_count later + entries model w.attempts 0 bs + 1)
unfolding serve
dispatch-selected s w endpoint model log db later bs h =
    let p : Progress = record { log = log; last_err = none; db = later } in
    let x = failover s model w.attempts 0 bs p in
    let (r, d, c) = finished-final_reply w x in
    let (fr, fd) = failover-verdicts s model w.attempts 0 bs p in
    let fc = log_count-failover s model w.attempts 0 bs p in
    rw (dispatch-serve s w endpoint model log db later bs h)
      (r ∙ ap (λ o. final_reply o w.canceled_at_end) fr, d ∙ fd, c ∙ ap (λ n. n + 1) fc)
