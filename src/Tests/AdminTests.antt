-- ===== src/Tests/AdminTests.antt =====
-- Updates by the console at concrete values.
use token_gate.Base.{◌≡◌, refl, ◌↔◌, false, not, none, some, [], ◌∷◌, if◌then◌else◌, pos}
use token_gate.Admin.{
  BackendForm, panicked, console_account_json_with_user_id, with_new_status, changed_backend,
  crashed, handle_update_backend,
}
use token_gate.Admin.Updates.{
  Breaker, changed_backend-Breaker, console_account_json_with_user_id-panicked,
}
use token_gate.Domain.{status_abnormal, Backend}
use token_gate.Json.{null_value, as_string, Codec}
use token_gate.JsonText.{json_valid}
use token_gate.Store.{empty_db}
use token_gate.Store.Columns.{normalize_json_object}
use token_gate.Tests.Samples.{at_second, backend}
use token_gate.Text.{codes, text_eq, is_empty, trim_space}

abbrev disabling : BackendForm
disabling = record {
  name = codes "a";
  protocol = [];
  backend_type = codes "new-api";
  base_url = codes "https://up.example";
  api_key = [];
  console_url = [];
  tags = [];
  console_username = [];
  console_password = [];
  console_authorization = codes "token";
  console_checkin_path = [];
  channel_url = [];
  console_cookie = [];
  console_user_id = some (codes "7");
  notes = [];
  proxy_id = pos 0;
  status = codes "disabled";
  weight = pos 1;
  models = [];
  model_mapping = [];
}

abbrev failing : Backend
failing = record (backend 1 "a" (pos 1) []) {
  status = status_abnormal;
  consecutive_failures = 3;
  recover_at = some (at_second 9 0);
}

abbrev disabled_backend : Backend
unfolding changed_backend
disabled_backend = record (changed_backend disabling (codes "{}") failing) {
  status = codes "disabled";
  consecutive_failures = 0;
  recover_at = none;
}

changed_backend-Breaker_example : Breaker (codes "disabled") failing disabled_backend
changed_backend-Breaker_example =
    changed_backend-Breaker disabling (codes "{}") failing disabled_backend
      (unfold with_new_status changed_backend in refl)

abbrev null_codec : Codec
null_codec = record {
  marshal = as_string;
  unmarshal = λ t. if text_eq t (codes "null") then some null_value else none;
}

console_account_json_with_user_id-panicked_example :
    (console_account_json_with_user_id null_codec (codes "null") (codes "7") ≡ panicked) ↔ (
      (null_codec.unmarshal (codes "null") ≡ some null_value)
      × (is_empty (trim_space (codes "7")) ≡ false))
console_account_json_with_user_id-panicked_example =
    console_account_json_with_user_id-panicked null_codec (codes "null") (codes "7")

-- An account that is null crashes the update that sets an identifier.
update_crashes :
    (handle_update_backend
      (record { valid_url = λ s. not (is_empty s); lower = λ s. s })
      null_codec
      (at_second 5 0)
      1
      disabling
      (record empty_db {
        backends = record (backend 1 "a" (pos 1) []) { console_account_json = codes "null" } ∷ [];
        next_backend_id = 2;
      })).1
    ≡ crashed
unfolding handle_update_backend normalize_json_object json_valid
update_crashes = refl
