-- ===== src/Store/Backends.antt =====
-- internal/store/store_backend.go: the operations on the table of backends.
pub mod Health
pub mod Breaker
pub mod Recovery
pub mod Invariant
pub mod Preserve
pub mod Changes
pub mod Histories
use token_gate.Base.{
  ℕ, ◌+◌, Bool, not, ◌&&◌, Option, none, some, List, [], ◌∷◌, ◌++◌, map, reverse, ◌==◌,
  if◌then◌else◌, any, ℤ, pos, ltb_ℤ, leb_ℤ,
}
use token_gate.Domain.{
  status_normal, status_abnormal, status_disabled, SocksProxy, Backend, normalize_backend_protocol,
  normalize_backend_type, normalize_backend_status,
}
use token_gate.Store.{unique_violation, no_rows, Result, ok, err, Db}
use token_gate.Store.Columns.{normalize_list, normalize_map, normalize_json_object, written}
use token_gate.Text.{Text, text_eq, is_empty, text_lt, trim_space}
use token_gate.Time.{Time, before, format_time, format_optional_time, add}

unfoldable pub find_backend : ℕ → List Backend → Option Backend
find_backend id [] = none
find_backend id (b ∷ rows) = if b.id == id then some b else find_backend id rows

unfoldable pub find_proxy : ℕ → List SocksProxy → Option SocksProxy
find_proxy id [] = none
find_proxy id (p ∷ rows) = if p.id == id then some p else find_proxy id rows

-- `UPDATE backends SET … WHERE id = ?`
unfoldable pub update_backend_row : ℕ → (Backend → Backend) → List Backend → List Backend
update_backend_row id f [] = []
update_backend_row id f (b ∷ rows) = (if b.id == id then f b else b) ∷ update_backend_row id f rows

-- Another row has the name.
unfoldable pub name_taken : ℕ → Text → List Backend → Bool
unfolding text_eq
name_taken id name rows = any (λ b. not (b.id == id) && text_eq b.name name) rows

-- The row with the proxy that LEFT JOIN finds, and the columns as `scanBackend` reads them.
unfoldable pub scan_backend : List SocksProxy → Backend → Backend
unfolding find_proxy
scan_backend proxies b = record b {
  status = normalize_backend_status b.status;
  protocol = normalize_backend_protocol b.protocol;
  backend_type = normalize_backend_type b.backend_type;
  console_url = trim_space b.console_url;
  tags = normalize_list b.tags;
  console_username = trim_space b.console_username;
  console_password = trim_space b.console_password;
  console_authorization = trim_space b.console_authorization;
  console_checkin_path = trim_space b.console_checkin_path;
  channel_url = trim_space b.channel_url;
  console_cookie = trim_space b.console_cookie;
  console_account_json = normalize_json_object b.console_account_json;
  console_pricing_json = normalize_json_object b.console_pricing_json;
  notes = trim_space b.notes;
  models = normalize_list b.models;
  model_mapping = normalize_map b.model_mapping;
  endpoints = normalize_list b.endpoints;
  proxy = find_proxy b.proxy_id proxies;
}

-- `ORDER BY b.id DESC`: the rows stand in the order of their ids
unfoldable pub list_backends : Db → List Backend
unfolding scan_backend
list_backends db = reverse (map (scan_backend db.proxies) db.backends)

unfoldable pub get_backend : ℕ → Db → Result Backend
unfolding find_backend scan_backend
get_backend id db = elim (find_backend id db.backends) [
  | none ↦ err no_rows
  | some b ↦ ok (scan_backend db.proxies b)
]

-- The row that INSERT adds, under the next id.
unfoldable pub insert_backend : Backend → Db → Db
insert_backend b db = record db {
  backends = db.backends ++ record b { id = db.next_backend_id } ∷ [];
  next_backend_id = db.next_backend_id + 1;
}

-- The values that `CreateBackend` inserts; the id is the table's to give.
unfoldable pub created_row : Time → Backend → Backend
unfolding written
created_row now backend = record (written backend) {
  proxy = none;
  consecutive_failures = 0;
  recover_at = none;
  created_at = now;
  updated_at = now;
}

unfoldable pub create_backend : Time → Backend → Db → Db × Result Backend
unfolding created_row name_taken insert_backend get_backend
create_backend now backend db =
    let row = created_row now backend in
    if name_taken 0 row.name db.backends
    then (db, err unique_violation)
    else (insert_backend row db, get_backend db.next_backend_id (insert_backend row db))

-- The values that `ImportBackends` inserts, and the backend that it answers with.
unfoldable pub imported_row : Time → Backend → Backend
unfolding written
imported_row now backend = record (written backend) {
  proxy = none;
  recover_at = none;
  created_at = now;
  updated_at = now;
}

unfoldable pub imported_answer : Time → ℕ → Backend → Backend
unfolding written
imported_answer now id backend = record (written backend) {
  id = id;
  tags = backend.tags;
  models = backend.models;
  model_mapping = backend.model_mapping;
  endpoints = backend.endpoints;
  recover_at = none;
  created_at = now;
  updated_at = now;
}

-- The loop of `ImportBackends` inside its transaction, with the backends created so far.
unfoldable pub import_rows : Time → List Backend → List Backend → Db → Db × Result (List Backend)
unfolding imported_row imported_answer name_taken insert_backend
import_rows now created [] db = (db, ok created)
import_rows now created (backend ∷ more) db =
    let row = imported_row now backend in
    let answer = imported_answer now db.next_backend_id backend in
    let rest = import_rows now (created ++ answer ∷ []) more (insert_backend row db) in
    if name_taken 0 row.name db.backends then (db, err unique_violation) else rest

-- COMMIT keeps what the loop wrote, ROLLBACK goes back to the state before it.
unfoldable pub finish_import : Db → Db × Result (List Backend) → Db × Result (List Backend)
finish_import before (after, ok created) = (after, ok created)
finish_import before (after, err e) = (before, err e)

unfoldable pub import_backends : Time → List Backend → Db → Db × Result (List Backend)
unfolding import_rows finish_import
import_backends now backends db = finish_import db (import_rows now [] backends db)

-- The values that `UpdateBackend` sets; `created_at` is no column of its statement.
unfoldable pub updated_row : Time → Backend → Time → Backend
unfolding written
updated_row now backend created_at = record (written backend) {
  proxy = none;
  created_at = created_at;
  updated_at = now;
}

unfoldable pub update_backend : Time → Backend → Db → Db × Result Backend
unfolding updated_row name_taken update_backend_row get_backend find_backend
update_backend now backend db =
    let after = record db {
      backends =
          update_backend_row backend.id (λ old. updated_row now backend old.created_at) db.backends;
    } in
    elim (find_backend backend.id db.backends) [
      | none ↦ (db, err no_rows)
      | some old ↦
          if name_taken backend.id (written backend).name db.backends
          then (db, err unique_violation)
          else (after, get_backend backend.id after)
    ]

unfoldable pub mark_backend_success : Time → ℕ → Db → Db × Result Backend
unfolding update_backend_row get_backend
mark_backend_success now id db =
    let after = record db {
      backends =
          update_backend_row id
            (λ b. record b {
              status = status_normal;
              consecutive_failures = 0;
              recover_at = none;
              updated_at = now;
            })
            db.backends;
    } in
    (after, get_backend id after)

-- The status and the time of recovery after one more failure.
unfoldable pub failure_state : ℤ → ℕ → Time → Backend → Text × Option Time
unfolding text_eq is_empty
failure_state threshold cooldown now backend =
    let limit = if ltb_ℤ threshold (pos 1) then pos 1 else threshold in
    let failures = backend.consecutive_failures + 1 in
    let status = if is_empty backend.status then status_normal else backend.status in
    if not (text_eq status status_disabled) && leb_ℤ limit (pos failures)
    then (status_abnormal, some (add now cooldown))
    else (status, backend.recover_at)

unfoldable pub mark_backend_failure : ℕ → ℤ → ℕ → Time → Db → Db × Result Backend
unfolding failure_state update_backend_row get_backend
mark_backend_failure id threshold cooldown now db = elim (get_backend id db) [
  | err e ↦ (db, err e)
  | ok backend ↦
      let (status, recover_at) = failure_state threshold cooldown now backend in
      let after = record db {
        backends =
            update_backend_row id
              (λ b. record b {
                status = status;
                consecutive_failures = backend.consecutive_failures + 1;
                recover_at = recover_at;
                updated_at = now;
              })
              db.backends;
      } in
      (after, get_backend id after)
]

-- `recover_at != '' AND recover_at <= ?`, on texts
unfoldable pub is_due : Time → Option Time → Bool
unfolding format_optional_time
is_due now recover_at =
    let text = format_optional_time recover_at in
    not (is_empty text) && not (text_lt (format_time now) text)

unfoldable pub recover_row : Time → Backend → Backend
unfolding is_due text_eq
recover_row now b =
    if text_eq b.status status_abnormal && is_due now b.recover_at
    then record b {
      status = status_normal;
      consecutive_failures = 0;
      recover_at = none;
      updated_at = now;
    }
    else b

unfoldable pub recover_expired_backends : Time → Db → Db
unfolding recover_row
recover_expired_backends now db = record db { backends = map (recover_row now) db.backends }

unfoldable pub without_backend : ℕ → List Backend → List Backend
without_backend id [] = []
without_backend id (b ∷ rows) =
    let rest = without_backend id rows in if b.id == id then rest else b ∷ rest

unfoldable pub delete_backend : ℕ → Db → Db
unfolding without_backend
delete_backend id db = record db { backends = without_backend id db.backends }
