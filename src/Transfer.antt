-- ===== src/Transfer.antt =====
-- internal/handler/handle_backend.go: the export of backends and their import, whose items are
-- checked before the store sees them.
pub mod Import
use token_gate.Base.{
  ℕ, ◌+◌, Bool, true, false, not, ◌&&◌, ◌||◌, Option, none, some, List, [], ◌∷◌, ◌++◌, map, ◌==◌,
  if◌then◌else◌, ℤ, pos, negsuc, pos_part, ltb_ℤ,
}
use token_gate.Domain.{
  status_normal, status_abnormal, status_disabled, Backend, one_of, normalize_backend_protocol,
  normalize_backend_type,
}
use token_gate.Store.{StoreError, Result, ok, err, Db}
use token_gate.Store.Backends.{find_proxy, list_backends, import_backends}
use token_gate.Text.{Text, codes, is_empty, trim_space, to_lower, has_prefix}
use token_gate.Time.{Time, zero_time}

-- `backendImportExportItem`
pub record TransferItem : Type 0 where
  pub name : Text
  pub protocol : Text
  pub backend_type : Text
  pub base_url : Text
  pub api_key : Text
  pub console_url : Text
  pub tags : List Text
  pub console_username : Text
  pub console_password : Text
  pub console_authorization : Text
  pub console_checkin_path : Text
  pub channel_url : Text
  pub console_cookie : Text
  pub console_account_json : Text
  pub console_pricing_json : Text
  pub notes : Text
  pub proxy_id : ℤ
  pub status : Text
  pub consecutive_failures : ℤ
  pub weight : ℤ
  pub models : List Text
  pub model_mapping : List (Text × Text)

-- `backendToImportExportItem`
unfoldable pub backend_to_import_export_item : Backend → TransferItem
unfolding normalize_backend_protocol normalize_backend_type
backend_to_import_export_item b = record {
  name = b.name;
  protocol = normalize_backend_protocol b.protocol;
  backend_type = normalize_backend_type b.backend_type;
  base_url = b.base_url;
  api_key = b.api_key;
  console_url = b.console_url;
  tags = b.tags;
  console_username = b.console_username;
  console_password = b.console_password;
  console_authorization = b.console_authorization;
  console_checkin_path = b.console_checkin_path;
  channel_url = b.channel_url;
  console_cookie = b.console_cookie;
  console_account_json = b.console_account_json;
  console_pricing_json = b.console_pricing_json;
  notes = b.notes;
  proxy_id = pos b.proxy_id;
  status = b.status;
  consecutive_failures = pos b.consecutive_failures;
  weight = b.weight;
  models = b.models;
  model_mapping = b.model_mapping;
}

-- `HandleExportBackends`
unfoldable pub export_backends : Db → List TransferItem
unfolding list_backends backend_to_import_export_item
export_backends db = map backend_to_import_export_item (list_backends db)

-- `normalizeConsoleAPIPath`
unfoldable pub normalize_console_api_path : Text → Text
unfolding trim_space is_empty has_prefix
normalize_console_api_path value =
    let path = trim_space value in
    if is_empty path then [] else if has_prefix (codes "/") path then path else codes "/" ++ path

-- `validateSocksProxyReference`
unfoldable pub validate_socks_proxy_reference : ℤ → Db → Bool
unfolding find_proxy
validate_socks_proxy_reference (negsuc n) db = false
validate_socks_proxy_reference (pos n) db =
    n == 0 || elim (find_proxy n db.proxies) [ none ↦ false | some p ↦ true ]

-- The errors of `validateBackendImportPayload`.
pub data ImportError : Type 0 where
  name_required : ℕ → ImportError
  duplicate_name name_exists invalid_base_url invalid_console_url : Text → ImportError
  invalid_proxy invalid_status negative_failures : Text → ImportError

-- The error of the first check that fails.
unfoldable pub first_failure : List (Bool × ImportError) → Option ImportError
first_failure [] = none
first_failure ((fails, e) ∷ checks) =
    let rest = first_failure checks in if fails then some e else rest

-- What the checks use of the libraries: whether a text is a URL with a scheme of HTTP and a host
-- (`validateURL`, by net/url), and `strings.ToLower`, of names in any script.
pub record Outside : Type 0 where
  pub valid_url : Text → Bool
  pub lower : Text → Text

-- The key of a name in the sets of names.
unfoldable pub name_key : Outside → Text → Text
unfolding trim_space
name_key out name = out.lower (trim_space name)

-- The status of an item, normal where it is blank.
unfoldable pub status_of : TransferItem → Text
unfolding to_lower trim_space is_empty
status_of it =
    let status = to_lower (trim_space it.status) in
    if is_empty status then status_normal else status

-- The checks of an item, in the order of the source, with the names seen before it.
unfoldable pub checks_of :
    Outside → Db → List Text → List Text → ℕ → TransferItem → List (Bool × ImportError)
unfolding trim_space is_empty one_of name_key status_of validate_socks_proxy_reference
checks_of out db existing seen i it =
    let name = trim_space it.name in
    (is_empty name, name_required (i + 1))
    ∷ (one_of (name_key out it.name) seen, duplicate_name name)
    ∷ (one_of (name_key out it.name) existing, name_exists name)
    ∷ (not (out.valid_url it.base_url), invalid_base_url name)
    ∷ (
      not (is_empty (trim_space it.console_url)) && not (out.valid_url it.console_url),
      invalid_console_url name,
    )
    ∷ (not (validate_socks_proxy_reference it.proxy_id db), invalid_proxy name)
    ∷ (
      not (one_of (status_of it) (status_normal ∷ status_abnormal ∷ status_disabled ∷ [])),
      invalid_status name,
    )
    ∷ (ltb_ℤ it.consecutive_failures (pos 0), negative_failures name)
    ∷ []

-- The backend of an item that passed the checks.
unfoldable pub imported_backend : TransferItem → Backend
unfolding trim_space normalize_backend_protocol normalize_backend_type normalize_console_api_path
    status_of
imported_backend it = record {
  id = 0;
  name = trim_space it.name;
  protocol = normalize_backend_protocol it.protocol;
  backend_type = normalize_backend_type it.backend_type;
  base_url = it.base_url;
  api_key = it.api_key;
  console_url = it.console_url;
  tags = it.tags;
  console_username = it.console_username;
  console_password = it.console_password;
  console_authorization = it.console_authorization;
  console_checkin_path = normalize_console_api_path it.console_checkin_path;
  channel_url = normalize_console_api_path it.channel_url;
  console_cookie = it.console_cookie;
  console_account_json = it.console_account_json;
  console_pricing_json = it.console_pricing_json;
  notes = it.notes;
  proxy_id = pos_part it.proxy_id;
  proxy = none;
  status = status_of it;
  consecutive_failures = pos_part it.consecutive_failures;
  recover_at = none;
  weight = it.weight;
  models = it.models;
  model_mapping = it.model_mapping;
  endpoints = [];
  created_at = zero_time;
  updated_at = zero_time;
}

pub data Checked : Type 0 where
  not_accepted : ImportError → Checked
  accepted : List Backend → Checked

abbrev pub in_front : Backend → Checked → Checked
in_front b (not_accepted e) = not_accepted e
in_front b (accepted bs) = accepted (b ∷ bs)

abbrev pub unless_failure : Option ImportError → Checked → Checked
unless_failure (some e) c = not_accepted e
unless_failure none c = c

-- The loop over the items.
unfoldable pub validate_items :
    Outside → Db → List Text → List Text → ℕ → List TransferItem → Checked
unfolding first_failure checks_of imported_backend name_key
validate_items out db existing seen i [] = accepted []
validate_items out db existing seen i (it ∷ items) =
    let rest = validate_items out db existing (seen ++ (name_key out it.name ∷ [])) (i + 1) items in
    unless_failure (first_failure (checks_of out db existing seen i it))
      (in_front (imported_backend it) rest)

-- `validateBackendImportPayload`
unfoldable pub validate_backend_import_payload : Outside → Db → List TransferItem → Checked
unfolding name_key validate_items
validate_backend_import_payload out db items =
    validate_items out db (map (λ (b : Backend). name_key out b.name) db.backends) [] 0 items

-- What `HandleImportBackends` answers.
pub data Imported : Type 0 where
  bad_request : ImportError → Imported
  store_refused : StoreError → Imported
  created_backends : List Backend → Imported

abbrev pub stored : Db × Result (List Backend) → Db × Imported
stored (db, ok bs) = (db, created_backends bs)
stored (db, err e) = (db, store_refused e)

unfoldable pub handle_import_backends : Outside → Time → List TransferItem → Db → Db × Imported
unfolding validate_backend_import_payload import_backends
handle_import_backends out now items db = elim (validate_backend_import_payload out db items) [
  | not_accepted e ↦ (db, bad_request e)
  | accepted bs ↦ stored (import_backends now bs db)
]
