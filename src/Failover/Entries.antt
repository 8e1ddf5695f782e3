-- ===== src/Failover/Entries.antt =====
-- The usage logs that the loop appends, counted apart from what they say.
use token_gate.Base.{
  ℕ, suc, ◌+◌, ◌/◌, ◌≡◌, refl, inl, inr, Bool, true, false, Option, none, some, List, [], ◌∷◌, ◌++◌,
  arith, ◌==◌, if◌then◌else◌, Bool-cases, Option-cases, length, length-append,
}
use token_gate.Domain.{Backend, UsageLog}
use token_gate.Failover.{
  Exchange, ready, streaming_not_supported, not_prepared, Sent, no_response, broken_response,
  response, Delivery, not_adapted, not_buffered, delivered, Attempt, Progress, Next, returns,
  continues, breaks, with_status, append_attempt_usage_log, fail_over, fail_early, deliver,
  begin_attempt, receive, exchange_with, rewrite_failure, rewritten, attempt_on, is_last, follow,
  failover,
}
use token_gate.Failover.Verdicts.{db_of}
use token_gate.Scheduler.{Service, mark_success, mark_failure}
use token_gate.Store.{Db}
use token_gate.Store.Backends.{
  find_backend, get_backend, mark_backend_success, mark_backend_failure,
}
use token_gate.Store.UsageLogs.{append_usage_log}
use token_gate.Text.{Text, codes}
use token_gate.Time.{Time}

pub data Account : Type 0 where
  -- the attempt ends the request, or fails without a log, or with one if another attempt follows
  final silent entered : Account

unfoldable pub sent_account : Sent → Account
sent_account (no_response true e) = final
sent_account (no_response false e) = entered
sent_account (broken_response true e) = final
sent_account (broken_response false e) = entered
sent_account (response code status logged) = if code / 100 == 2 then final else entered

unfoldable pub exchange_account : Attempt → Exchange → Account
unfolding sent_account
exchange_account a (streaming_not_supported e) = silent
exchange_account a (not_prepared e) = entered
exchange_account a ready = sent_account a.sent

unfoldable pub rewrite_account : Attempt → Option Text → Account
unfolding exchange_account
rewrite_account a (some e) = entered
rewrite_account a none = exchange_account a a.exchange

unfoldable pub account : Text → Attempt → Backend → Account
unfolding rewrite_failure rewrite_account
account model a b = elim (a.canceled) [
  | some e ↦ final
  | none ↦ rewrite_account a (rewrite_failure model a b)
]

-- The logs of the attempts before the one that ends the request; the last candidate leaves none.
unfoldable pub entries : Text → (ℕ → Attempt) → ℕ → List Backend → ℕ
unfolding account
entries model attempts n [] = 0
entries model attempts n (b ∷ bs) =
    let rest = entries model attempts (suc n) bs in
    elim (account model (attempts n) b) [
      | final ↦ 0
      | silent ↦ rest
      | entered ↦ (if is_last bs then 0 else 1) + rest
    ]

abbrev pub log_count : Db → ℕ
log_count db = length db.usage_logs

-- What an attempt with this account does to the logs.
unfoldable pub Counts : Bool → ℕ → Account → Next → Type 0
Counts last k final (returns reply q) = log_count q.db ≡ k
Counts last k silent (continues q) = log_count q.db ≡ k
Counts last k entered (continues q) = log_count q.db ≡ k + (if last then 0 else 1)
Counts last k entered (breaks q) = (last ≡ true) × (log_count q.db ≡ k)
Counts last k _ _ = ⊥

pub log_count-append_usage_log :
    (t : Time) (log : UsageLog) (db : Db) → log_count (append_usage_log t log db) ≡ log_count db + 1
unfolding append_usage_log
log_count-append_usage_log t log db = length-append db.usage_logs _

log_count-mark_failure :
    (s : Service) (t : Time) (id : ℕ) (db : Db) → log_count (mark_failure s t id db) ≡ log_count db
unfolding mark_failure mark_backend_failure get_backend
log_count-mark_failure s t id db = elim (Option-cases (find_backend id db.backends)) [
  | inl e ↦ rw (e, mark_failure, mark_backend_failure, get_backend) refl
  | inr (b, e) ↦ rw (e, mark_failure, mark_backend_failure, get_backend) refl
]

log_count-mark_success :
    (t : Time) (id : ℕ) (db : Db) → log_count (mark_success t id db) ≡ log_count db
unfolding mark_success mark_backend_success
log_count-mark_success t id db = refl

fail_over-Counts :
    (k : ℕ) (a : Attempt) (q : Progress) (last : Bool)
    → log_count q.db ≡ k
    → Counts last k entered (fail_over last a q)
unfolding Counts fail_over append_attempt_usage_log
fail_over-Counts k a q true h = (refl, h)
fail_over-Counts k a q false h = omega (
  arith,
  h,
  log_count-append_usage_log a.at (record (q.log) { duration_ms = a.duration_ms }) q.db,
)

fail_early-Counts :
    (k : ℕ) (a : Attempt) (q : Progress) (last : Bool) (reason message : Text)
    → log_count q.db ≡ k
    → Counts last k entered (fail_early last a reason message q)
unfolding Counts fail_early append_attempt_usage_log
fail_early-Counts k a q true reason message h = omega (arith, h)
fail_early-Counts k a q false reason message h = omega (
  arith,
  h,
  log_count-append_usage_log a.at
      (record (with_status 503 (reason ++ message) q.log) { duration_ms = a.duration_ms }) q.db,
)

receive-Counts :
    (s : Service) (last : Bool) (a : Attempt) (b : Backend) (x : Sent) (q : Progress)
    → Counts last (log_count q.db) (sent_account x) (receive s last a b x q)
unfolding Counts receive sent_account
receive-Counts s last a b (no_response true e) q = refl
receive-Counts s last a b (no_response false e) q =
    fail_over-Counts _ a _ last (log_count-mark_failure s a.at b.id q.db)
receive-Counts s last a b (broken_response true e) q = refl
receive-Counts s last a b (broken_response false e) q =
    fail_over-Counts _ a _ last (log_count-mark_failure s a.at b.id q.db)
receive-Counts s last a b (response code status logged) q = elim (Bool-cases (code / 100 == 2)) [
  | inl e ↦ rw e (deliver-Counts a.delivery)
  | inr e ↦ rw e (fail_over-Counts _ a _ last (log_count-mark_failure s a.at b.id q.db))
]
  where
    deliver-Counts : (d : Delivery) → Counts last (log_count q.db) final (deliver a b code d q)
    deliver-Counts (not_adapted e) = refl
    deliver-Counts (not_buffered e) = refl
    deliver-Counts (delivered st l f) = refl

exchange_with-Counts :
    (s : Service) (last : Bool) (a : Attempt) (b : Backend) (x : Exchange) (q : Progress)
    → Counts last (log_count q.db) (exchange_account a x) (exchange_with s last a b x q)
unfolding Counts exchange_with exchange_account
exchange_with-Counts s last a b (streaming_not_supported e) q = refl
exchange_with-Counts s last a b (not_prepared e) q =
    fail_early-Counts _ a q last (codes "prepare exchange failed: ") e refl
exchange_with-Counts s last a b ready q = receive-Counts s last a b a.sent q

rewritten-Counts :
    (s : Service) (last : Bool) (a : Attempt) (b : Backend) (x : Option Text) (q : Progress)
    → Counts last (log_count q.db) (rewrite_account a x) (rewritten s last a b x q)
unfolding Counts rewritten rewrite_account
rewritten-Counts s last a b (some e) q =
    fail_early-Counts _ a q last (codes "rewrite model failed: ") e refl
rewritten-Counts s last a b none q = exchange_with-Counts s last a b a.exchange q

attempt_on-Counts :
    (s : Service) (model : Text) (last : Bool) (n : ℕ) (a : Attempt) (b : Backend) (p : Progress)
    → Counts last (log_count p.db) (account model a b) (attempt_on s model last n a b p)
unfolding Counts attempt_on account
attempt_on-Counts s model last n a b p = elim (Option-cases (a.canceled)) [
  | inl e ↦ rw e (rewritten-Counts s last a b (rewrite_failure model a b) (begin_attempt n b p))
  | inr (m, e) ↦ rw e refl
]

follow-Counts :
    (s : Service) (model : Text) (attempts : ℕ → Attempt) (n : ℕ) (b : Backend) (bs : List Backend)
    (k : ℕ) (v : Account) (x : Next)
    → account model (attempts n) b ≡ v
    → Counts (is_last bs) k v x
    → ((q : Progress)
        → log_count (db_of (failover s model attempts (suc n) bs q))
          ≡ log_count q.db + entries model attempts (suc n) bs)
    → log_count (db_of (follow (failover s model attempts (suc n) bs) x))
      ≡ k + entries model attempts n (b ∷ bs)
unfolding Counts entries db_of
follow-Counts s model attempts n b bs k final (returns reply q) e h ih =
    rw (e, entries) (omega (arith, h))
follow-Counts s model attempts n b bs k silent (continues q) e h ih =
    rw (e, entries) (omega (arith, h, ih q))
follow-Counts s model attempts n b bs k entered (continues q) e h ih =
    rw (e, entries) (omega (arith, h, ih q))
follow-Counts s model attempts n b [] k entered (breaks q) e (l, h) ih =
    rw (e, entries) (omega (arith, h))
follow-Counts s model attempts n b (c ∷ cs) k entered (breaks q) e (l, h) ih = ground arith
follow-Counts s model attempts n b bs k _ _ e h ih = elim h [ ]

-- The loop appends one log for each attempt that failed with another one to follow, and none for
-- an attempt that was skipped because the backend cannot stream in its protocol.
pub log_count-failover :
    (s : Service) (model : Text) (attempts : ℕ → Attempt) (n : ℕ) (bs : List Backend) (p : Progress)
    → log_count (db_of (failover s model attempts n bs p))
      ≡ log_count p.db + entries model attempts n bs
unfolding failover entries db_of
log_count-failover s model attempts n [] p = omega arith
log_count-failover s model attempts n (b ∷ bs) p =
    follow-Counts s model attempts n b bs (log_count p.db) (account model (attempts n) b)
      (attempt_on s model (is_last bs) (suc n) (attempts n) b p) refl
      (attempt_on-Counts s model (is_last bs) (suc n) (attempts n) b p)
      (log_count-failover s model attempts (suc n) bs)
