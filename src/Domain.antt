-- ===== src/Domain.antt =====
-- internal/domain/types.go: the records of the store, the constants and their normalisation.
pub mod Normal
use token_gate.Base.{ℕ, Bool, ◌&&◌, ◌||◌, Option, List, [], ◌∷◌, ltb, leb, if◌then◌else◌, any, ℤ}
use token_gate.Text.{Text, codes, text_eq, trim_space, to_lower}
use token_gate.Time.{Time}

abbrev pub endpoint_chat : Text
endpoint_chat = codes "chat"

abbrev pub endpoint_responses : Text
endpoint_responses = codes "responses"

abbrev pub endpoint_embeddings : Text
endpoint_embeddings = codes "embeddings"

abbrev pub endpoint_images : Text
endpoint_images = codes "images"

abbrev pub endpoint_messages : Text
endpoint_messages = codes "messages"

abbrev pub endpoint_models : Text
endpoint_models = codes "models"

abbrev pub status_normal : Text
status_normal = codes "normal"

abbrev pub status_abnormal : Text
status_abnormal = codes "abnormal"

abbrev pub status_disabled : Text
status_disabled = codes "disabled"

abbrev pub protocol_openai : Text
protocol_openai = codes "openai"

abbrev pub protocol_anthropic : Text
protocol_anthropic = codes "anthropic"

abbrev pub protocol_both : Text
protocol_both = codes "both"

abbrev pub type_new_api : Text
type_new_api = codes "new-api"

abbrev pub type_sub2api : Text
type_sub2api = codes "sub2api"

pub record ClientKey : Type 0 where
  pub id : ℕ
  pub name : Text
  pub token_hash : Text
  pub token : Text
  pub token_prefix : Text
  pub allowed_models : Text
  pub enabled : Bool
  pub created_at : Time
  pub updated_at : Time

pub record SocksProxy : Type 0 where
  pub id : ℕ
  pub name : Text
  pub address : Text
  pub username : Text
  pub password : Text
  pub enabled : Bool
  pub created_at : Time
  pub updated_at : Time

-- A mapping is its entries, one for each key.
pub record Backend : Type 0 where
  pub id : ℕ
  pub name : Text
  pub protocol : Text
  pub backend_type : Text
  pub base_url : Text
  pub api_key : Text
  pub console_url : Text
  pub tags : List Text
  pub console_username : Text
  pub console_password : Text
  pub console_authorization : Text
  pub console_checkin_path : Text
  pub channel_url : Text
  pub console_cookie : Text
  pub console_account_json : Text
  pub console_pricing_json : Text
  pub notes : Text
  pub proxy_id : ℕ
  pub proxy : Option SocksProxy
  pub status : Text
  pub consecutive_failures : ℕ
  pub recover_at : Option Time
  pub weight : ℤ
  pub models : List Text
  pub model_mapping : List (Text × Text)
  pub endpoints : List Text
  pub created_at : Time
  pub updated_at : Time

pub record UsageLog : Type 0 where
  pub id : ℕ
  pub request_id : Text
  pub client_id : ℕ
  pub client_name : Text
  pub client_token_prefix : Text
  pub method : Text
  pub path : Text
  pub query : Text
  pub endpoint : Text
  pub model : Text
  pub backend_id : ℕ
  pub backend_name : Text
  pub proxy_id : ℕ
  pub proxy_name : Text
  pub attempts : ℕ
  pub status_code : ℕ
  pub status_family : Text
  pub duration_ms : ℕ
  pub error_message : Text
  pub client_ip : Text
  pub user_agent : Text
  pub trace_id : Text
  pub request_bytes : ℕ
  pub response_bytes : ℕ
  pub input_tokens : ℕ
  pub output_tokens : ℕ
  pub input_cache_tokens : ℕ
  pub request_headers_json : Text
  pub request_body_preview : Text
  pub response_headers_json : Text
  pub response_body_preview : Text
  pub preview_truncated : Bool
  pub is_stream : Bool
  pub created_at : Time

-- Whether the value is one of the cases of a `switch`.
unfoldable pub one_of : Text → List Text → Bool
unfolding text_eq
one_of v cases = any (text_eq v) cases

unfoldable pub normalize_backend_protocol : Text → Text
unfolding one_of text_eq
normalize_backend_protocol value =
    let v = to_lower (trim_space value) in
    if one_of v (protocol_anthropic ∷ codes "claude" ∷ [])
    then protocol_anthropic
    else if one_of v
        (protocol_both ∷ codes "dual" ∷ codes "openai+anthropic" ∷ codes "anthropic+openai" ∷ [])
    then protocol_both
    else protocol_openai

unfoldable pub normalize_backend_type : Text → Text
unfolding one_of text_eq
normalize_backend_type value =
    let v = to_lower (trim_space value) in
    if one_of v ([] ∷ [])
    then []
    else if one_of v (type_new_api ∷ codes "newapi" ∷ codes "new_api" ∷ [])
    then type_new_api
    else if one_of v (type_sub2api ∷ codes "sub-2-api" ∷ codes "sub_2_api" ∷ [])
    then type_sub2api
    else type_new_api

-- internal/store/store_backend.go, `normalizeBackendStatus`
unfoldable pub normalize_backend_status : Text → Text
unfolding one_of text_eq
normalize_backend_status value =
    let v = to_lower (trim_space value) in
    if one_of v (status_abnormal ∷ [])
    then status_abnormal
    else if one_of v (status_disabled ∷ [])
    then status_disabled
    else status_normal

unfoldable pub is_backend_failure_status : ℕ → Bool
is_backend_failure_status status = ltb 0 status && (ltb status 200 || leb 300 status)

-- `StatusFamily` of internal/handler/handle_log.go, and `statusFamily` of the store
unfoldable pub status_family : ℕ → Text
status_family code =
    if leb 200 code && ltb code 300
    then codes "2xx"
    else if leb 300 code && ltb code 400
    then codes "3xx"
    else if leb 400 code && ltb code 500
    then codes "4xx"
    else if leb 500 code && ltb code 600
    then codes "5xx"
    else codes "other"
