-- ===== src/Tests/Samples.antt =====
-- Times, backends and databases that the tests share.
use token_gate.Base.{ℕ, String, none, List, [], ◌∷◌, arith, ℤ, pos}
use token_gate.Domain.{status_normal, protocol_openai, Backend}
use token_gate.Store.{Db, empty_db}
use token_gate.Store.Backends.Histories.{Call, create, history, history-IsTable}
use token_gate.Store.Backends.Invariant.{IsTable}
use token_gate.Text.{Text, codes}
use token_gate.Time.{Time}

abbrev pub at_second : ℕ → ℕ → Time
at_second s n = record {
  year = 2026;
  month = 7;
  day = 1;
  hour = 10;
  minute = 30;
  second = s;
  nanos = n;
}

abbrev pub backend : ℕ → String → ℤ → List Text → Backend
backend id name weight models = record {
  id = id;
  name = codes name;
  protocol = protocol_openai;
  backend_type = [];
  base_url = codes "https://up.example/v1";
  api_key = codes "sk-1";
  console_url = [];
  tags = [];
  console_username = [];
  console_password = [];
  console_authorization = [];
  console_checkin_path = [];
  channel_url = [];
  console_cookie = [];
  console_account_json = [];
  console_pricing_json = [];
  notes = [];
  proxy_id = 0;
  proxy = none;
  status = status_normal;
  consecutive_failures = 0;
  recover_at = none;
  weight = weight;
  models = models;
  model_mapping = [];
  endpoints = [];
  created_at = at_second 0 0;
  updated_at = at_second 0 0;
}

pub empty_db-IsTable : IsTable empty_db
empty_db-IsTable = record { rows_ok = tt; ids_ok = omega arith; names_ok = tt }

abbrev pub two_calls : List Call
two_calls =
    create (at_second 1 0) (backend 0 " edge-a " (pos 5) (codes "gpt-*" ∷ []))
    ∷ create (at_second 2 0) (backend 0 "edge-b" (pos 9) [])
    ∷ []

abbrev pub two_backends : Db
two_backends = history two_calls empty_db

pub two_backends-IsTable : IsTable two_backends
two_backends-IsTable = history-IsTable two_calls empty_db empty_db-IsTable
