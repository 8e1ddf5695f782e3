-- ===== src/Failover/Verdicts.antt =====
-- What the loop does, described without its log and its state: a verdict on each attempt, the first
-- verdict that ends the request, and the marks that the verdicts before it leave on the backends.
use token_gate.Base.{
  ℕ, suc, ◌/◌, ◌≡◌, refl, ap, ◌∙◌, inl, inr, Bool, true, false, Option, none, some, List, [], ◌∷◌,
  arith, ◌==◌, if◌then◌else◌, Bool-cases, Option-cases,
}
use token_gate.Domain.{Backend}
use token_gate.Failover.{
  Exchange, ready, streaming_not_supported, not_prepared, Sent, no_response, broken_response,
  response, Delivery, not_adapted, not_buffered, delivered, Attempt, Reply, status_only,
  upstream_reply, nothing_written, Progress, Next, returns, continues, breaks, fail_over,
  fail_early, deliver, begin_attempt, receive, exchange_with, rewrite_failure, rewritten,
  attempt_on, Ended, answered, ran_out, is_last, follow, failover,
}
use token_gate.Scheduler.{Service, mark_success, mark_failure}
use token_gate.Store.{Db}
use token_gate.Store.Backends.{
  find_backend, get_backend, mark_backend_success, mark_backend_failure,
}
use token_gate.Text.{Text, codes}
use token_gate.Time.{Time}

pub data Verdict : Type 0 where
  -- the backend was not asked: the request could not be put into its form
  passed_over : Verdict
  -- the backend was asked and did not serve
  refused_service : Verdict
  -- the client went away
  withdrawn : Verdict
  -- the backend answered with a 2xx status
  served : Reply → Verdict

-- The client's answer where a backend served.
unfoldable pub served_reply : ℕ → Delivery → Reply
served_reply id (not_adapted e) = nothing_written
served_reply id (not_buffered e) = nothing_written
served_reply id (delivered status logged failure) = upstream_reply id status

unfoldable pub sent_verdict : ℕ → Delivery → Sent → Verdict
unfolding served_reply
sent_verdict id delivery (no_response true e) = withdrawn
sent_verdict id delivery (no_response false e) = refused_service
sent_verdict id delivery (broken_response true e) = withdrawn
sent_verdict id delivery (broken_response false e) = refused_service
sent_verdict id delivery (response code status logged) =
    if code / 100 == 2 then served (served_reply id delivery) else refused_service

unfoldable pub exchange_verdict : ℕ → Attempt → Exchange → Verdict
unfolding sent_verdict
exchange_verdict id a (streaming_not_supported e) = passed_over
exchange_verdict id a (not_prepared e) = passed_over
exchange_verdict id a ready = sent_verdict id a.delivery a.sent

unfoldable pub rewrite_verdict : ℕ → Attempt → Option Text → Verdict
unfolding exchange_verdict
rewrite_verdict id a (some e) = passed_over
rewrite_verdict id a none = exchange_verdict id a a.exchange

unfoldable pub verdict : Text → Attempt → Backend → Verdict
unfolding rewrite_failure rewrite_verdict
verdict model a b = elim (a.canceled) [
  | some e ↦ withdrawn
  | none ↦ rewrite_verdict b.id a (rewrite_failure model a b)
]

-- The answer of the first attempt that ends the request.
unfoldable pub first_answer : Text → (ℕ → Attempt) → ℕ → List Backend → Option Reply
unfolding verdict
first_answer model attempts n [] = none
first_answer model attempts n (b ∷ bs) =
    let rest = first_answer model attempts (suc n) bs in
    elim (verdict model (attempts n) b) [
      | passed_over ↦ rest
      | refused_service ↦ rest
      | withdrawn ↦ some (status_only 499)
      | served reply ↦ some reply
    ]

-- The marks, up to the attempt that ends the request: one on each backend that was asked.
unfoldable pub apply_marks : Service → Text → (ℕ → Attempt) → ℕ → List Backend → Db → Db
unfolding verdict mark_failure mark_success
apply_marks s model attempts n [] db = db
apply_marks s model attempts n (b ∷ bs) db = elim (verdict model (attempts n) b) [
  | passed_over ↦ apply_marks s model attempts (suc n) bs db
  | refused_service ↦
      apply_marks s model attempts (suc n) bs (mark_failure s (attempts n).at b.id db)
  | withdrawn ↦ db
  | served reply ↦ mark_success (attempts n).at b.id db
]

unfoldable pub answer_of : Ended → Option Reply
answer_of (answered reply p) = some reply
answer_of (ran_out p) = none

unfoldable pub db_of : Ended → Db
db_of (answered reply p) = p.db
db_of (ran_out p) = p.db

-- The database without its logs.
unfoldable pub without_logs : Db → Db
without_logs db = record db { usage_logs = []; next_usage_log_id = 1; hourly = [] }

-- What an attempt with this verdict does to the state of the loop.
unfoldable pub Agrees : Bool → Service → Attempt → Backend → Progress → Verdict → Next → Type 0
unfolding mark_failure mark_success without_logs
Agrees last s a b p passed_over (continues q) = without_logs q.db ≡ without_logs p.db
Agrees last s a b p refused_service (continues q) =
    without_logs q.db ≡ without_logs (mark_failure s a.at b.id p.db)
Agrees last s a b p refused_service (breaks q) =
    (last ≡ true) × (without_logs q.db ≡ without_logs (mark_failure s a.at b.id p.db))
Agrees last s a b p withdrawn (returns reply q) =
    (reply ≡ status_only 499) × (without_logs q.db ≡ without_logs p.db)
Agrees last s a b p (served told) (returns reply q) =
    (reply ≡ told) × (without_logs q.db ≡ without_logs (mark_success a.at b.id p.db))
Agrees last s a b p _ _ = ⊥

fail_over-Agrees :
    (s : Service) (a : Attempt) (b : Backend) (p q : Progress) (last : Bool)
    → without_logs q.db ≡ without_logs (mark_failure s a.at b.id p.db)
    → Agrees last s a b p refused_service (fail_over last a q)
unfolding Agrees fail_over
fail_over-Agrees s a b p q true h = (refl, h)
fail_over-Agrees s a b p q false h = h

fail_early-Agrees :
    (s : Service) (a : Attempt) (b : Backend) (p q : Progress) (last : Bool) (reason message : Text)
    → without_logs q.db ≡ without_logs p.db
    → Agrees last s a b p passed_over (fail_early last a reason message q)
unfolding Agrees fail_early
fail_early-Agrees s a b p q true reason message h = h
fail_early-Agrees s a b p q false reason message h = h

without_logs-mark_failure :
    (s : Service) (t : Time) (id : ℕ) (d : Db)
    → without_logs (mark_failure s t id d) ≡ mark_failure s t id (without_logs d)
unfolding without_logs mark_failure mark_backend_failure get_backend
without_logs-mark_failure s t id d = elim (Option-cases (find_backend id d.backends)) [
  | inl e ↦ rw (e, mark_failure, mark_backend_failure, get_backend) refl
  | inr (b, e) ↦ rw (e, mark_failure, mark_backend_failure, get_backend) refl
]

without_logs-mark_success :
    (t : Time) (id : ℕ) (d : Db)
    → without_logs (mark_success t id d) ≡ mark_success t id (without_logs d)
unfolding without_logs mark_success mark_backend_success
without_logs-mark_success t id d = refl

deliver-Agrees :
    (last : Bool) (s : Service) (a : Attempt) (b : Backend) (code : ℕ) (d : Delivery)
    (p q : Progress)
    → q.db ≡ p.db
    → Agrees last s a b p (served (served_reply b.id d)) (deliver a b code d q)
unfolding Agrees deliver served_reply
deliver-Agrees last s a b code (not_adapted e) p q h =
    (refl, ap (λ d. without_logs (mark_success a.at b.id d)) h)
deliver-Agrees last s a b code (not_buffered e) p q h =
    (refl, ap (λ d. without_logs (mark_success a.at b.id d)) h)
deliver-Agrees last s a b code (delivered status logged f) p q h =
    (refl, ap (λ d. without_logs (mark_success a.at b.id d)) h)

receive-Agrees :
    (s : Service) (last : Bool) (a : Attempt) (b : Backend) (x : Sent) (p q : Progress)
    → q.db ≡ p.db
    → Agrees last s a b p (sent_verdict b.id a.delivery x) (receive s last a b x q)
unfolding Agrees receive sent_verdict
receive-Agrees s last a b (no_response true e) p q h = (refl, ap without_logs h)
receive-Agrees s last a b (no_response false e) p q h =
    fail_over-Agrees s a b p _ last (ap (λ d. without_logs (mark_failure s a.at b.id d)) h)
receive-Agrees s last a b (broken_response true e) p q h = (refl, ap without_logs h)
receive-Agrees s last a b (broken_response false e) p q h =
    fail_over-Agrees s a b p _ last (ap (λ d. without_logs (mark_failure s a.at b.id d)) h)
receive-Agrees s last a b (response code status logged) p q h =
    elim (Bool-cases (code / 100 == 2)) [
      | inl e ↦ rw e (deliver-Agrees last s a b code a.delivery p q h)
      | inr e ↦
          rw e (
            fail_over-Agrees s a b p _ last (ap (λ d. without_logs (mark_failure s a.at b.id d)) h))
    ]

exchange_with-Agrees :
    (s : Service) (last : Bool) (a : Attempt) (b : Backend) (x : Exchange) (p q : Progress)
    → q.db ≡ p.db
    → Agrees last s a b p (exchange_verdict b.id a x) (exchange_with s last a b x q)
unfolding Agrees exchange_with exchange_verdict
exchange_with-Agrees s last a b (streaming_not_supported e) p q h = ap without_logs h
exchange_with-Agrees s last a b (not_prepared e) p q h =
    fail_early-Agrees s a b p q last (codes "prepare exchange failed: ") e (ap without_logs h)
exchange_with-Agrees s last a b ready p q h = receive-Agrees s last a b a.sent p q h

rewritten-Agrees :
    (s : Service) (last : Bool) (a : Attempt) (b : Backend) (x : Option Text) (p q : Progress)
    → q.db ≡ p.db
    → Agrees last s a b p (rewrite_verdict b.id a x) (rewritten s last a b x q)
unfolding Agrees rewritten rewrite_verdict
rewritten-Agrees s last a b (some e) p q h =
    fail_early-Agrees s a b p q last (codes "rewrite model failed: ") e (ap without_logs h)
rewritten-Agrees s last a b none p q h = exchange_with-Agrees s last a b a.exchange p q h

attempt_on-Agrees :
    (s : Service) (model : Text) (last : Bool) (n : ℕ) (a : Attempt) (b : Backend) (p : Progress)
    → Agrees last s a b p (verdict model a b) (attempt_on s model last n a b p)
unfolding Agrees attempt_on verdict
attempt_on-Agrees s model last n a b p = elim (Option-cases (a.canceled)) [
  | inl e ↦
      rw e (rewritten-Agrees s last a b (rewrite_failure model a b) p (begin_attempt n b p) refl)
  | inr (m, e) ↦ rw e (refl, refl)
]

-- What the loop has to show from some candidate on.
abbrev Follows : Service → Text → (ℕ → Attempt) → ℕ → List Backend → Progress → Ended → Type 0
Follows s model attempts n bs p x =
    (answer_of x ≡ first_answer model attempts n bs)
    × (without_logs (db_of x) ≡ apply_marks s model attempts n bs (without_logs p.db))

follow-Follows :
    (s : Service) (model : Text) (attempts : ℕ → Attempt) (n : ℕ) (b : Backend) (bs : List Backend)
    (p : Progress) (v : Verdict) (x : Next)
    → verdict model (attempts n) b ≡ v
    → Agrees (is_last bs) s (attempts n) b p v x
    → ((q : Progress)
        → Follows s model attempts (suc n) bs q (failover s model attempts (suc n) bs q))
    → Follows s model attempts n (b ∷ bs) p (follow (failover s model attempts (suc n) bs) x)
unfolding Agrees first_answer apply_marks answer_of db_of
follow-Follows s model attempts n b bs p passed_over (continues q) e h ih =
    let (r, d) = ih q in
    rw (e, first_answer, apply_marks) (r, d ∙ ap (apply_marks s model attempts (suc n) bs) h)
follow-Follows s model attempts n b bs p refused_service (continues q) e h ih =
    let (r, d) = ih q in
    rw (e, first_answer, apply_marks)
      (
        r,
        d
            ∙ ap (apply_marks s model attempts (suc n) bs)
                (h ∙ without_logs-mark_failure s (attempts n).at b.id p.db),
      )
follow-Follows s model attempts n b [] p refused_service (breaks q) e (l, h) ih =
    rw (e, first_answer, apply_marks)
      (refl, h ∙ without_logs-mark_failure s (attempts n).at b.id p.db)
follow-Follows s model attempts n b (c ∷ cs) p refused_service (breaks q) e (l, h) ih = ground arith
follow-Follows s model attempts n b bs p withdrawn (returns reply q) e (r, h) ih =
    rw (e, first_answer, apply_marks) (ap some r, h)
follow-Follows s model attempts n b bs p (served told) (returns reply q) e (r, h) ih =
    rw (e, first_answer, apply_marks)
      (ap some r, h ∙ without_logs-mark_success (attempts n).at b.id p.db)
follow-Follows s model attempts n b bs p _ _ e h ih = elim h [ ]

-- The loop and the verdicts on its attempts give the same answer and, logs aside, the same
-- database: the first attempt that is withdrawn or served ends the request with its answer; up to
-- it each backend that was asked is marked once, in order; later ones are left alone.
pub failover-verdicts :
    (s : Service) (model : Text) (attempts : ℕ → Attempt) (n : ℕ) (bs : List Backend) (p : Progress)
    → (answer_of (failover s model attempts n bs p) ≡ first_answer model attempts n bs)
      × (without_logs (db_of (failover s model attempts n bs p))
          ≡ apply_marks s model attempts n bs (without_logs p.db))
unfolding failover first_answer apply_marks answer_of db_of
failover-verdicts s model attempts n [] p = (refl, refl)
failover-verdicts s model attempts n (b ∷ bs) p =
    follow-Follows s model attempts n b bs p (verdict model (attempts n) b)
      (attempt_on s model (is_last bs) (suc n) (attempts n) b p) refl
      (attempt_on-Agrees s model (is_last bs) (suc n) (attempts n) b p)
      (failover-verdicts s model attempts (suc n) bs)
