-- ===== src/Store/UsageLogs/Hourly.antt =====
-- The hourly statistics against the logs: every column of a row is the sum over the logs of its
-- backend, model and hour.
use token_gate.Base.{
  ℕ, ◌+◌, ◌≡◌, refl, sym, ap, ◌∙◌, ◌↔◌, inl, inr, Bool, true, false, not, ◌&&◌, ◌||◌, List, [], ◌∷◌,
  arith, ltb, leb, ◌==◌, if◌then◌else◌, Bool-cases,
}
use token_gate.Domain.{UsageLog}
use token_gate.Store.{HourlyRow, Db}
use token_gate.Store.UsageLogs.{
  is_success_status, backend_hourly_bucket_utc, contribution, same_key, merge, upsert_row,
  is_counted, created, append_usage_log,
}
use token_gate.Text.{Text, text_eq, is_empty, trim_space}
use token_gate.Text.Laws.{text_eq_iff}
use token_gate.Time.{Time, is_zero, format_time, truncate_hour}

-- The columns that add up.
pub data Metric : Type 0 where
  successes failures success_duration_ms success_request_bytes success_response_bytes : Metric
  success_input_tokens success_output_tokens success_input_cache_tokens : Metric

unfoldable pub measure : Metric → HourlyRow → ℕ
measure successes r = r.successes
measure failures r = r.failures
measure success_duration_ms r = r.success_duration_ms_sum
measure success_request_bytes r = r.success_request_bytes
measure success_response_bytes r = r.success_response_bytes
measure success_input_tokens r = r.success_input_tokens
measure success_output_tokens r = r.success_output_tokens
measure success_input_cache_tokens r = r.success_input_cache_tokens

-- What the table holds of a column for the backend, model and hour of `key`.
unfoldable pub recorded : Metric → HourlyRow → List HourlyRow → ℕ
unfolding measure same_key
recorded m key [] = 0
recorded m key (r ∷ rows) =
    let rest = recorded m key rows in if same_key r key then measure m r else rest

-- What a log of this status adds to a column: failures are counted by that column alone.
unfoldable pub added_by : Metric → Bool → UsageLog → ℕ
added_by failures success log = if success then 0 else 1
added_by successes success log = if success then 1 else 0
added_by success_duration_ms success log = if success then log.duration_ms else 0
added_by success_request_bytes success log = if success then log.request_bytes else 0
added_by success_response_bytes success log = if success then log.response_bytes else 0
added_by success_input_tokens success log = if success then log.input_tokens else 0
added_by success_output_tokens success log = if success then log.output_tokens else 0
added_by success_input_cache_tokens success log = if success then log.input_cache_tokens else 0

-- When a log was made: at its own time, or now where it has none.
abbrev pub made_at : Time → UsageLog → Time
unfolding is_zero
made_at now log = if is_zero log.created_at then now else log.created_at

-- Whether a log names a backend and a model, and they and the hour in which it was made are those
-- of `key`.
unfoldable pub belongs_to : HourlyRow → Time → UsageLog → Bool
unfolding is_empty trim_space text_eq format_time truncate_hour is_zero
belongs_to key now log =
    not (log.backend_id == 0)
    && not (is_empty (trim_space log.backend_name))
    && not (is_empty (trim_space log.model))
    && (log.backend_id == key.backend_id)
    && text_eq (trim_space log.model) key.model
    && text_eq (format_time (truncate_hour (made_at now log))) (format_time key.hour_start)

-- What one log adds to it. A status from 200 to 299 is a success.
unfoldable pub counted_for : Metric → HourlyRow → Time → UsageLog → ℕ
unfolding added_by belongs_to
counted_for m key now log =
    if belongs_to key now log
    then added_by m (leb 200 log.status_code && leb log.status_code 299) log
    else 0

measure-merge : (m : Metric) (a b : HourlyRow) → measure m (merge a b) ≡ measure m a + measure m b
unfolding measure merge
measure-merge _ a b = ground arith

pub same_key_iff :
    (a b : HourlyRow)
    → (same_key a b ≡ true)
      ↔ (a.backend_id ≡ b.backend_id)
        × (a.model ≡ b.model)
        × (format_time a.hour_start ≡ format_time b.hour_start)
unfolding same_key
same_key_iff a b = ground (
  arith,
  text_eq_iff a.model b.model,
  text_eq_iff (format_time a.hour_start) (format_time b.hour_start),
)

same_key-merge : (a b key : HourlyRow) → same_key (merge a b) key ≡ same_key a key
unfolding same_key merge
same_key-merge a b key = refl

-- The test by its parts.
abbrev key_test : ℕ → Text → Text → HourlyRow → Bool
key_test id model hour key =
    id == key.backend_id && text_eq model key.model && text_eq hour (format_time key.hour_start)

add_to_either :
    (t : Bool) (x y z : ℕ) → (if t then x + y else z) ≡ (if t then x else z) + (if t then y else 0)
add_to_either true x y z = refl
add_to_either false x y z = omega arith

same_key-swap : (a b key : HourlyRow) → same_key a b ≡ true → same_key b key ≡ same_key a key
unfolding same_key
same_key-swap a b key h =
    let (i, m, t) = (same_key_iff a b).0 h in
    ap (λ x. key_test x b.model (format_time b.hour_start) key) (sym i)
    ∙ ap (λ y. key_test a.backend_id y (format_time b.hour_start) key) (sym m)
    ∙ ap (λ z. key_test a.backend_id a.model z key) (sym t)

same_key-apart :
    (a b key : HourlyRow) → same_key a b ≡ false → same_key a key ≡ true → same_key b key ≡ false
same_key-apart a b key h k =
    ground (arith, same_key_iff a b, same_key_iff a key, same_key_iff b key)

add_behind :
    (t s : Bool) (x y z : ℕ)
    → (t ≡ true → s ≡ false)
    → (if t then x else y + (if s then z else 0)) ≡ (if t then x else y) + (if s then z else 0)
add_behind true s x y z h = rw (h refl) (omega arith)
add_behind false s x y z h = refl

recorded-upsert_row :
    (m : Metric) (key fresh : HourlyRow) (rows : List HourlyRow)
    → recorded m key (upsert_row fresh rows)
      ≡ recorded m key rows + (if same_key fresh key then measure m fresh else 0)
unfolding recorded upsert_row
recorded-upsert_row m key fresh [] = omega arith
recorded-upsert_row m key fresh (r ∷ rows) = elim (Bool-cases (same_key r fresh)) [
  | inl e ↦
      rw (e, same_key-merge r fresh key, measure-merge m r fresh, same_key-swap r fresh key e)
        (add_to_either (same_key r key) (measure m r) (measure m fresh) (recorded m key rows))
  | inr e ↦
      rw (e, recorded-upsert_row m key fresh rows)
        (add_behind (same_key r key) (same_key fresh key) (measure m r) (recorded m key rows)
          (measure m fresh) (same_key-apart r fresh key e))
]

status_range : (n : ℕ) → (leb 200 n && leb n 299) ≡ (leb 200 n && ltb n 300)
status_range n = ground arith

measure-contribution :
    (m : Metric) (t : Time) (log : UsageLog)
    → measure m (contribution t log)
      ≡ added_by m (leb 200 log.status_code && leb log.status_code 299) log
unfolding measure contribution added_by is_success_status
measure-contribution successes t log = rw (status_range log.status_code) refl
measure-contribution failures t log = rw (status_range log.status_code) refl
measure-contribution success_duration_ms t log = rw (status_range log.status_code) refl
measure-contribution success_request_bytes t log = rw (status_range log.status_code) refl
measure-contribution success_response_bytes t log = rw (status_range log.status_code) refl
measure-contribution success_input_tokens t log = rw (status_range log.status_code) refl
measure-contribution success_output_tokens t log = rw (status_range log.status_code) refl
measure-contribution success_input_cache_tokens t log = rw (status_range log.status_code) refl

six_tests :
    (a b c x y z : Bool)
    → (not a && not b && not c && x && y && z) ≡ (not (a || b || c) && (x && y && z))
six_tests a b c x y z = ground arith

belongs_to_iff :
    (key : HourlyRow) (now : Time) (log : UsageLog)
    → belongs_to key now log ≡ (is_counted log && same_key (contribution (created now log) log) key)
unfolding belongs_to is_counted same_key contribution created backend_hourly_bucket_utc
belongs_to_iff key now log =
    six_tests (log.backend_id == 0) (is_empty (trim_space log.backend_name))
      (is_empty (trim_space log.model)) (log.backend_id == key.backend_id)
      (text_eq (trim_space log.model) key.model)
      (text_eq (format_time (truncate_hour (created now log))) (format_time key.hour_start))

-- What a log adds, by the row that the code makes of it.
counted_for_lem :
    (m : Metric) (key : HourlyRow) (now : Time) (log : UsageLog)
    → counted_for m key now log ≡ (
        if is_counted log && same_key (contribution (created now log) log) key
        then measure m (contribution (created now log) log)
        else 0)
unfolding counted_for
counted_for_lem m key now log =
    ap (λ t. if t then added_by m (leb 200 log.status_code && leb log.status_code 299) log else 0)
      (belongs_to_iff key now log)
    ∙ ap (λ n. if is_counted log && same_key (contribution (created now log) log) key then n else 0)
        (sym (measure-contribution m (created now log) log))

-- One log adds to a column of a key what it contributes to that key, and to no other.
recorded-append_usage_log :
    (m : Metric) (key : HourlyRow) (now : Time) (log : UsageLog) (db : Db)
    → recorded m key (append_usage_log now log db).hourly
      ≡ recorded m key db.hourly + counted_for m key now log
unfolding append_usage_log
recorded-append_usage_log m key now log db = elim (Bool-cases (is_counted log)) [
  | inl e ↦
      rw
        (
          counted_for_lem m key now log,
          e,
          recorded-upsert_row m key (contribution (created now log) log) db.hourly,
        )
        refl
  | inr e ↦ rw (counted_for_lem m key now log, e) (omega arith)
]

-- Logs appended in turn, each at its time.
unfoldable pub append_all : List (Time × UsageLog) → Db → Db
unfolding append_usage_log
append_all [] db = db
append_all ((now, log) ∷ logs) db = append_all logs (append_usage_log now log db)

unfoldable pub total : Metric → HourlyRow → List (Time × UsageLog) → ℕ
unfolding counted_for
total m key [] = 0
total m key ((now, log) ∷ logs) = counted_for m key now log + total m key logs

-- After any logs, each column of the hourly statistics holds, for every backend, model and hour,
-- what it held before and the sum over the logs of that backend, model and hour: the number with a
-- status from 200 to 299, the number of all others, and of the former the durations, bytes and
-- tokens. Logs without a backend, a name of it or a model count nowhere.
pub recorded-append_all :
    (m : Metric) (key : HourlyRow) (logs : List (Time × UsageLog)) (db : Db)
    → recorded m key (append_all logs db).hourly ≡ recorded m key db.hourly + total m key logs
unfolding append_all total
recorded-append_all m key [] db = omega arith
recorded-append_all m key ((now, log) ∷ logs) db = omega (
  arith,
  recorded-append_all m key logs (append_usage_log now log db),
  recorded-append_usage_log m key now log db,
)
