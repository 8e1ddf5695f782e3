-- ===== src/Tests/StoreTests.antt =====
-- The table of backends at concrete calls.
use token_gate.Base.{ℕ, ◌<◌, ◌≡◌, refl, true, false, some, [], ◌∷◌, arith, ◌==◌, pos}
use token_gate.Domain.{status_abnormal, Backend, normalize_backend_status}
use token_gate.Store.{empty_db}
use token_gate.Store.Backends.{
  find_backend, create_backend, mark_backend_success, mark_backend_failure, recover_row,
}
use token_gate.Store.Backends.Breaker.{fail_at, fail_at-trips, mark_backend_success_lem}
use token_gate.Store.Backends.Health.{failed_row, mark_backend_failure_lem}
use token_gate.Store.Backends.Histories.{history, history-IsTable}
use token_gate.Store.Backends.Invariant.{IsTable}
use token_gate.Store.Backends.Recovery.{
  recovered, recover_row_by_seconds, recover_row_within_a_second,
}
use token_gate.Store.Columns.{written}
use token_gate.Tests.Samples.{
  at_second, backend, empty_db-IsTable, two_calls, two_backends, two_backends-IsTable,
}
use token_gate.Text.{codes, text_lt, trim_space, to_lower}
use token_gate.Time.{IsValid, seconds_of, before, format_time, add}

history-IsTable_example : IsTable (history two_calls empty_db)
history-IsTable_example = history-IsTable two_calls empty_db empty_db-IsTable

abbrev first_row : Backend
first_row = record (written (backend 0 " edge-a " (pos 5) (codes "gpt-*" ∷ []))) {
  id = 1;
  created_at = at_second 1 0;
  updated_at = at_second 1 0;
}

first_found : find_backend 1 two_backends.backends ≡ some first_row
unfolding create_backend find_backend trim_space
first_found = refl

fail_at-trips_example :
    (r : Backend) × (find_backend 1
        (fail_at 1 (pos 2) 600 (at_second 3 0 ∷ at_second 4 0 ∷ []) two_backends).backends
      ≡ some r)
    × (r.consecutive_failures ≡ 2)
    × (r.status ≡ status_abnormal)
unfolding written normalize_backend_status to_lower trim_space
fail_at-trips_example =
    fail_at-trips 1 (pos 2) 600 (at_second 3 0 ∷ at_second 4 0 ∷ []) two_backends
      two_backends-IsTable first_found refl refl

mark_backend_failure_lem_example :
    (find_backend 1 (mark_backend_failure 1 (pos 1) 600 (at_second 3 0) two_backends).0.backends
      ≡ some (failed_row (pos 1) 600 (at_second 3 0) first_row))
    × ((j : ℕ)
        → (1 == j) ≡ false
        → find_backend j
            (mark_backend_failure 1 (pos 1) 600 (at_second 3 0) two_backends).0.backends
          ≡ find_backend j two_backends.backends)
mark_backend_failure_lem_example =
    mark_backend_failure_lem 1 (pos 1) 600 (at_second 3 0) two_backends two_backends-IsTable
      first_found

mark_backend_success_lem_example :
    (find_backend 1 (mark_backend_success (at_second 3 0) 1 two_backends).0.backends
      ≡ some (recovered (at_second 3 0) first_row))
    × ((j : ℕ)
        → (1 == j) ≡ false
        → find_backend j (mark_backend_success (at_second 3 0) 1 two_backends).0.backends
          ≡ find_backend j two_backends.backends)
mark_backend_success_lem_example =
    mark_backend_success_lem (at_second 3 0) 1 two_backends first_found

at_second-IsValid : (s n : ℕ) → s < 60 → n < 1_000_000_000 → IsValid (at_second s n)
at_second-IsValid s n h k = record {
  year_lt = omega arith;
  month_lt = omega arith;
  day_lt = omega arith;
  hour_lt = omega arith;
  minute_lt = omega arith;
  second_lt = omega arith;
  nanos_lt = k;
}

abbrev resting : ℕ → Backend
resting n = record (backend 1 "edge-a" (pos 5) []) {
  status = status_abnormal;
  consecutive_failures = 3;
  recover_at = some (at_second 20 n);
}

recover_row_by_seconds_example :
    (text_lt (seconds_of (at_second 20 0)) (seconds_of (at_second 21 5)) ≡ true
      → recover_row (at_second 21 5) (resting 0) ≡ recovered (at_second 21 5) (resting 0))
    × (text_lt (seconds_of (at_second 21 5)) (seconds_of (at_second 20 0)) ≡ true
        → recover_row (at_second 21 5) (resting 0) ≡ resting 0)
recover_row_by_seconds_example =
    recover_row_by_seconds (at_second 21 5) (at_second 20 0) (resting 0)
      (at_second-IsValid 21 5 (omega arith) (omega arith))
      (at_second-IsValid 20 0 (omega arith) (omega arith)) refl refl

recover_row_within_a_second_example :
    (◌≡◌ {A = ℕ} 0 0
      → 0 < 5
      → (before (at_second 20 0) (at_second 20 5) ≡ true)
        × (recover_row (at_second 20 5) (resting 0) ≡ resting 0))
    × (◌≡◌ {A = ℕ} 5 0
        → 0 < 0
        → (before (at_second 20 5) (at_second 20 0) ≡ true)
          × (recover_row (at_second 20 5) (resting 0) ≡ recovered (at_second 20 5) (resting 0)))
recover_row_within_a_second_example =
    recover_row_within_a_second (at_second 20 5) (at_second 20 0) (resting 0)
      (at_second-IsValid 20 5 (omega arith) (omega arith))
      (at_second-IsValid 20 0 (omega arith) (omega arith)) refl refl refl

format_time_texts :
    (format_time (at_second 9 0) ≡ codes "2026-07-01T10:30:09Z")
    × (format_time (at_second 9 120_000_000) ≡ codes "2026-07-01T10:30:09.12Z")
unfolding format_time
format_time_texts = (refl, refl)

add_over_midnight :
    add (record (at_second 0 0) { month = 12; day = 31; hour = 23; minute = 59 }) 61_000_000_000
    ≡ record (at_second 1 0) { year = 2027; month = 1; day = 1; hour = 0; minute = 0 }
unfolding add
add_over_midnight = refl
