-- ===== src/Admin.antt =====
-- internal/handler/handle_backend.go: creating, updating and deleting a backend by the console. The
-- body of a request is the form that decoding it gives; the audit events are left out.
pub mod Updates
use token_gate.Base.{
  ℕ, Bool, true, false, not, ◌&&◌, ◌||◌, Option, none, some, List, [], ◌∷◌, if◌then◌else◌, ℤ, pos,
  pos_part,
}
use token_gate.Domain.{
  status_normal, status_disabled, type_new_api, type_sub2api, Backend, one_of,
  normalize_backend_protocol, normalize_backend_type,
}
use token_gate.Failover.Entries.{account}
use token_gate.Json.{
  Json, null_value, string, object, Object, entries_of, mapping, put, remove, Codec,
}
use token_gate.Store.{StoreError, Result, ok, err, Db}
use token_gate.Store.Backends.{get_backend, create_backend, update_backend, delete_backend}
use token_gate.Text.{Text, codes, text_eq, is_empty, trim_space}
use token_gate.Time.{Time, zero_time}
use token_gate.Transfer.{normalize_console_api_path, validate_socks_proxy_reference, Outside}

-- The payload of `HandleCreateBackend` and of `HandleUpdateBackend`; neither reads the endpoints, and
-- the first one does not read the status.
pub record BackendForm : Type 0 where
  pub name : Text
  pub protocol : Text
  pub backend_type : Text
  pub base_url : Text
  pub api_key : Text
  pub console_url : Text
  pub tags : List Text
  pub console_username : Text
  pub console_password : Text
  pub console_authorization : Text
  pub console_checkin_path : Text
  pub channel_url : Text
  pub console_cookie : Text
  pub console_user_id : Option Text
  pub notes : Text
  pub proxy_id : ℤ
  pub status : Text
  pub weight : ℤ
  pub models : List Text
  pub model_mapping : List (Text × Text)

-- The checks that both handlers make: the two URLs, and the proxy.
unfoldable pub form_is_valid : Outside → Db → BackendForm → Bool
unfolding is_empty trim_space validate_socks_proxy_reference
form_is_valid out db f =
    out.valid_url f.base_url
    && ((is_empty (trim_space f.console_url) || out.valid_url f.console_url)
        && validate_socks_proxy_reference f.proxy_id db)

-- `decodeJSONMap`, of what decoding gives: a text that is no object gives an empty one; null gives a
-- nil map, here `none`.
unfoldable pub decode_json_map : Option Json → Option Object
unfolding entries_of
decode_json_map (some (object m)) = some (entries_of m)
decode_json_map (some null_value) = none
decode_json_map _ = some []

-- What becomes of a text: it is written, or the handler panics.
pub data Written : Type 0 where
  wrote : Text → Written
  panicked : Written

-- The identifier set, or deleted where it is blank: deleting from a nil map is nothing, and gives
-- null; an assignment to it panics.
unfoldable pub with_user_id : Codec → Bool → Text → Option Object → Written
unfolding put remove mapping
with_user_id codec true id (some m) = wrote (codec.marshal (mapping (remove (codes "id") m)))
with_user_id codec false id (some m) =
    wrote (codec.marshal (mapping (put (codes "id") (string id) m)))
with_user_id codec true id none = wrote (codec.marshal null_value)
with_user_id codec false id none = panicked

-- `consoleAccountJSONWithUserID`
unfoldable pub console_account_json_with_user_id : Codec → Text → Text → Written
unfolding trim_space is_empty decode_json_map with_user_id
console_account_json_with_user_id codec raw user_id =
    let id = trim_space user_id in
    with_user_id codec (is_empty id) id (decode_json_map (codec.unmarshal raw))

-- The account of a form, where it has one.
unfoldable pub account_of : Codec → Text → Option Text → Written
unfolding console_account_json_with_user_id
account_of codec raw none = wrote raw
account_of codec raw (some id) = console_account_json_with_user_id codec raw id

-- A text that only one type of backend has.
abbrev pub only_for : Text → Text → Text → Text
unfolding text_eq
only_for wanted actual value = if text_eq actual wanted then value else []

-- What both handlers set in one way.
unfoldable pub with_form : BackendForm → Text → Backend → Backend
unfolding text_eq trim_space normalize_console_api_path normalize_backend_type
with_form f account b =
    let kind = normalize_backend_type f.backend_type in
    record b {
      name = f.name;
      backend_type = kind;
      base_url = f.base_url;
      console_url = f.console_url;
      tags = f.tags;
      console_username = f.console_username;
      console_password = f.console_password;
      console_authorization = only_for type_sub2api kind (trim_space f.console_authorization);
      console_checkin_path =
          only_for type_sub2api kind (normalize_console_api_path f.console_checkin_path);
      channel_url = only_for type_sub2api kind (normalize_console_api_path f.channel_url);
      console_cookie = only_for type_new_api kind (trim_space f.console_cookie);
      console_account_json = account;
      notes = f.notes;
      proxy_id = pos_part f.proxy_id;
      weight = f.weight;
      models = f.models;
      model_mapping = f.model_mapping;
    }

-- The status of an update: none leaves everything, another one resets the breaker.
unfoldable pub with_new_status : Text → Backend → Option Backend
unfolding text_eq is_empty one_of
with_new_status status b =
    if is_empty status
    then some b
    else if not (one_of status (status_normal ∷ status_disabled ∷ []))
    then none
    else if text_eq b.status status
    then some b
    else some (record b { status = status; consecutive_failures = 0; recover_at = none })

-- The backend that `HandleUpdateBackend` writes: a blank protocol and a blank key leave the old ones.
unfoldable pub changed_backend : BackendForm → Text → Backend → Backend
unfolding is_empty trim_space normalize_backend_protocol with_form
changed_backend f account b = record (with_form f account b) {
  protocol =
      if is_empty (trim_space f.protocol)
      then b.protocol
      else normalize_backend_protocol f.protocol;
  api_key = if is_empty (trim_space f.api_key) then b.api_key else f.api_key;
}

pub data Answer : Type 0 where
  answered_with : Backend → Answer
  not_found invalid_form invalid_new_status crashed : Answer
  refused_by_store : StoreError → Answer

abbrev pub answer_of : Db × Result Backend → Db × Answer
answer_of (db, ok b) = (db, answered_with b)
answer_of (db, err e) = (db, refused_by_store e)

unfoldable pub update_with : Time → Option Backend → Db → Db × Answer
unfolding update_backend
update_with now none db = (db, invalid_new_status)
update_with now (some b) db = answer_of (update_backend now b db)

unfoldable pub update_account : Time → BackendForm → Backend → Db → Written → Db × Answer
unfolding update_with with_new_status changed_backend
update_account now f current db panicked = (db, crashed)
update_account now f current db (wrote account) =
    update_with now (with_new_status f.status (changed_backend f account current)) db

-- `HandleUpdateBackend`
unfoldable pub handle_update_backend : Outside → Codec → Time → ℕ → BackendForm → Db → Db × Answer
unfolding get_backend form_is_valid account_of update_account
handle_update_backend out codec now id f db = elim (get_backend id db) [
  | err e ↦ (db, not_found)
  | ok current ↦
      if form_is_valid out db f
      then update_account now f current db
          (account_of codec current.console_account_json f.console_user_id)
      else (db, invalid_form)
]

abbrev pub no_backend : Backend
no_backend = record {
  id = 0;
  name = [];
  protocol = [];
  backend_type = [];
  base_url = [];
  api_key = [];
  console_url = [];
  tags = [];
  console_username = [];
  console_password = [];
  console_authorization = [];
  console_checkin_path = [];
  channel_url = [];
  console_cookie = [];
  console_account_json = [];
  console_pricing_json = [];
  notes = [];
  proxy_id = 0;
  proxy = none;
  status = [];
  consecutive_failures = 0;
  recover_at = none;
  weight = pos 0;
  models = [];
  model_mapping = [];
  endpoints = [];
  created_at = zero_time;
  updated_at = zero_time;
}

unfoldable pub create_account : Time → BackendForm → Db → Written → Db × Answer
unfolding create_backend with_form normalize_backend_protocol
create_account now f db panicked = (db, crashed)
create_account now f db (wrote account) = answer_of (
    create_backend now
      (record (with_form f account no_backend) {
        protocol = normalize_backend_protocol f.protocol;
        api_key = f.api_key;
      })
      db)

-- `HandleCreateBackend`
unfoldable pub handle_create_backend : Outside → Codec → Time → BackendForm → Db → Db × Answer
unfolding form_is_valid account_of create_account
handle_create_backend out codec now f db =
    if form_is_valid out db f
    then create_account now f db (account_of codec [] f.console_user_id)
    else (db, invalid_form)

-- `HandleDeleteBackend`
unfoldable pub handle_delete_backend : ℕ → Db → Db × Answer
unfolding get_backend delete_backend
handle_delete_backend id db = elim (get_backend id db) [
  | err e ↦ (db, not_found)
  | ok b ↦ (delete_backend id db, answered_with b)
]
