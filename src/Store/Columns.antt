-- ===== src/Store/Columns.antt =====
-- How internal/store/store.go and store_backend.go bring a value into the form of its column.
-- A list or a map column holds JSON of the normalised value; it is that value here.
pub mod Laws
use token_gate.Base.{◌||◌, Option, none, some, List, [], ◌∷◌, if◌then◌else◌, any, ℤ, pos, ltb_ℤ}
use token_gate.Domain.{
  Backend, normalize_backend_protocol, normalize_backend_type, normalize_backend_status,
}
use token_gate.JsonText.{json_valid}
use token_gate.Text.{Text, codes, text_eq, is_empty, trim_space}

-- `normalizeList`, with the values seen so far
unfoldable pub normalize_from : List Text → List Text → List Text
unfolding text_eq
normalize_from seen [] = []
normalize_from seen (v ∷ vs) =
    let t = trim_space v in
    let skip = normalize_from seen vs in
    let take = t ∷ normalize_from (t ∷ seen) vs in
    if is_empty t then skip else if any (text_eq t) seen then skip else take

unfoldable pub normalize_list : List Text → List Text
unfolding normalize_from is_empty trim_space
normalize_list values = normalize_from [] values

-- An assignment to a key of a map.
unfoldable pub map_set : Text → Text → List (Text × Text) → List (Text × Text)
unfolding text_eq
map_set k v [] = (k, v) ∷ []
map_set k v ((j, w) ∷ m) = if text_eq j k then (k, v) ∷ m else (j, w) ∷ map_set k v m

-- The value at a key, and whether there is one.
unfoldable pub map_get : Text → List (Text × Text) → Option Text
unfolding text_eq
map_get k [] = none
map_get k ((j, w) ∷ m) = if text_eq j k then some w else map_get k m

unfoldable pub normalize_onto : List (Text × Text) → List (Text × Text) → List (Text × Text)
normalize_onto out [] = out
normalize_onto out ((k, v) ∷ m) =
    let key = trim_space k in
    let value = trim_space v in
    normalize_onto (if is_empty key || is_empty value then out else map_set key value out) m

-- `normalizeMap`, over the entries in the order in which the `range` visits them
unfoldable pub normalize_map : List (Text × Text) → List (Text × Text)
unfolding normalize_onto map_set is_empty trim_space
normalize_map values = normalize_onto [] values

unfoldable pub normalize_weight : ℤ → ℤ
normalize_weight value = if ltb_ℤ value (pos 1) then pos 1 else value

unfoldable pub normalize_json_object : Text → Text
normalize_json_object value =
    let v = trim_space value in
    if is_empty v then codes "{}" else if json_valid v then v else codes "{}"

-- The columns that `CreateBackend`, `ImportBackends` and `UpdateBackend` write in one way.
unfoldable pub written : Backend → Backend
written b = record b {
  name = trim_space b.name;
  protocol = normalize_backend_protocol b.protocol;
  backend_type = normalize_backend_type b.backend_type;
  base_url = trim_space b.base_url;
  api_key = trim_space b.api_key;
  console_url = trim_space b.console_url;
  tags = normalize_list b.tags;
  console_username = trim_space b.console_username;
  console_password = trim_space b.console_password;
  console_authorization = trim_space b.console_authorization;
  console_checkin_path = trim_space b.console_checkin_path;
  channel_url = trim_space b.channel_url;
  console_cookie = trim_space b.console_cookie;
  console_account_json = normalize_json_object b.console_account_json;
  console_pricing_json = normalize_json_object b.console_pricing_json;
  notes = trim_space b.notes;
  status = normalize_backend_status b.status;
  weight = normalize_weight b.weight;
  models = normalize_list b.models;
  model_mapping = normalize_map b.model_mapping;
  endpoints = normalize_list b.endpoints;
}
