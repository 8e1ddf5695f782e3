-- ===== src/Store/Backends/Breaker.antt =====
-- Runs of failures, and the success that ends them.
use token_gate.Base.{
  ℕ, ◌+◌, ◌≡◌, refl, ap, ◌∙◌, false, not, ◌&&◌, none, some, List, [], ◌∷◌, arith, ◌==◌,
  if◌then◌else◌, length, ℤ, pos, leb_ℤ,
}
use token_gate.Domain.{status_normal, status_abnormal, status_disabled, Backend}
use token_gate.Store.{Db}
use token_gate.Store.Backends.{find_backend, mark_backend_success, mark_backend_failure}
use token_gate.Store.Backends.Changes.{mark_backend_failure-IsTable}
use token_gate.Store.Backends.Health.{
  find-update_self, find-update_other, limit_of, failed_row, mark_backend_failure_lem,
}
use token_gate.Store.Backends.Invariant.{IsTable}
use token_gate.Text.{Text, text_eq}
use token_gate.Time.{Time}

abbrev pub row_after : ℤ → ℕ → List Time → Backend → Backend
row_after threshold cooldown [] b = b
row_after threshold cooldown (now ∷ times) b =
    row_after threshold cooldown times (failed_row threshold cooldown now b)

-- One `MarkBackendFailure` at each of the times.
abbrev pub fail_at : ℕ → ℤ → ℕ → List Time → Db → Db
fail_at id threshold cooldown [] db = db
fail_at id threshold cooldown (now ∷ times) db =
    fail_at id threshold cooldown times (mark_backend_failure id threshold cooldown now db).0

fail_at-row_after :
    (id : ℕ) (threshold : ℤ) (cooldown : ℕ) (times : List Time) (db : Db) {b : Backend}
    → IsTable db
    → find_backend id db.backends ≡ some b
    → find_backend id (fail_at id threshold cooldown times db).backends
      ≡ some (row_after threshold cooldown times b)
fail_at-row_after id threshold cooldown [] db t found = found
fail_at-row_after id threshold cooldown (now ∷ times) db t found =
    fail_at-row_after id threshold cooldown times _
      (mark_backend_failure-IsTable id threshold cooldown now db t)
      (mark_backend_failure_lem id threshold cooldown now db t found).0

-- The status that a row has which has only failed since it was normal.
abbrev pub tripped_at : ℤ → ℕ → Text
tripped_at threshold n =
    if leb_ℤ (limit_of threshold) (pos n) then status_abnormal else status_normal

tripped : ℤ → ℕ → Text
tripped limit n = if leb_ℤ limit (pos n) then status_abnormal else status_normal

tripped-suc :
    (limit : ℤ) (k : ℕ) (s : Text)
    → s ≡ tripped limit k
    → (if not (text_eq s status_disabled) && leb_ℤ limit (pos (k + 1)) then status_abnormal else s)
      ≡ tripped limit (k + 1)
unfolding tripped text_eq
tripped-suc limit k s h = rw h (ground arith)

row_after-counts :
    (threshold : ℤ) (cooldown : ℕ) (times : List Time) (b : Backend)
    → b.status ≡ tripped (limit_of threshold) b.consecutive_failures
    → ((row_after threshold cooldown times b).consecutive_failures
        ≡ b.consecutive_failures + length times)
      × ((row_after threshold cooldown times b).status
          ≡ tripped (limit_of threshold) (b.consecutive_failures + length times))
row_after-counts threshold cooldown [] b h =
    (omega arith, h ∙ ap (tripped (limit_of threshold)) (omega arith))
row_after-counts threshold cooldown (now ∷ times) b h =
    let n = b.consecutive_failures in
    let e : n + 1 + length times ≡ n + length (now ∷ times) = omega arith in
    rw e at (
      row_after-counts threshold cooldown times (failed_row threshold cooldown now b)
        (tripped-suc (limit_of threshold) n b.status h))

-- A backend that is normal and has no failures, after a run of failures: it has one failure for
-- each, and it is abnormal exactly when they are at least the threshold (read as 1 if below 1),
-- whatever the times of the failures and the cooldown.
pub fail_at-trips :
    (id : ℕ) (threshold : ℤ) (cooldown : ℕ) (times : List Time) (db : Db) {b : Backend}
    → IsTable db
    → find_backend id db.backends ≡ some b
    → b.status ≡ status_normal
    → b.consecutive_failures ≡ 0
    → (r : Backend) × (find_backend id (fail_at id threshold cooldown times db).backends ≡ some r)
      × (r.consecutive_failures ≡ length times)
      × (r.status ≡ tripped_at threshold (length times))
unfolding tripped
fail_at-trips id threshold cooldown times db {b} t found normal zero_failures =
    let start : b.status ≡ tripped (limit_of threshold) b.consecutive_failures =
      rw (normal, zero_failures) (ground arith) in
    let counts = row_after-counts threshold cooldown times b start in
    let e : b.consecutive_failures + length times ≡ length times = omega arith in
    (
      row_after threshold cooldown times b,
      fail_at-row_after id threshold cooldown times db t found,
      rw e at counts.0,
      rw e at counts.1,
    )

-- A success makes its backend normal with no failures and no time of recovery, whatever its
-- status was, `disabled` included, and changes no other row.
pub mark_backend_success_lem :
    (now : Time) (id : ℕ) (db : Db) {b : Backend}
    → find_backend id db.backends ≡ some b
    → (find_backend id (mark_backend_success now id db).0.backends
        ≡ some (record b {
          status = status_normal;
          consecutive_failures = 0;
          recover_at = none;
          updated_at = now;
        }))
      × ((j : ℕ)
          → (id == j) ≡ false
          → find_backend j (mark_backend_success now id db).0.backends ≡ find_backend j db.backends)
unfolding mark_backend_success
mark_backend_success_lem now id db found = (
  find-update_self id _ db.backends (λ r. refl) found,
  λ j apart. find-update_other id j _ db.backends (λ r. refl) apart,
)
