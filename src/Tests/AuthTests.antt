-- ===== src/Tests/AuthTests.antt =====
-- The authentication at a concrete table. The tests take for the hash the token between marks.
use token_gate.Base.{◌≡◌, refl, ◌↔◌, Bool, true, false, List, [], ◌∷◌, ◌++◌, Has}
use token_gate.Auth.{extract_client_token, admitted, client_auth}
use token_gate.Auth.Admission.{client_auth-admitted}
use token_gate.Domain.{ClientKey}
use token_gate.HttpHeader.{Header}
use token_gate.Store.{Db, empty_db}
use token_gate.Store.ClientKeys.Table.{
  DistinctHashes, KeyCall, create_key, delete_key, key_history, key_history-DistinctHashes,
}
use token_gate.Tests.Samples.{at_second}
use token_gate.Text.{Text, codes, is_empty, trim_space}

abbrev marked : Text → Text
marked t = codes "<" ++ (t ++ codes ">")

abbrev app_key : Bool → ClientKey
app_key enabled = record {
  id = 1;
  name = codes "app";
  token_hash = marked (codes "sk-1");
  token = codes "sk-1";
  token_prefix = codes "sk-1";
  allowed_models = [];
  enabled = enabled;
  created_at = at_second 1 0;
  updated_at = at_second 1 0;
}

abbrev key_calls : List KeyCall
key_calls =
    create_key (at_second 1 0) (app_key true)
    ∷ create_key (at_second 2 0) (app_key false)
    ∷ create_key (at_second 3 0) (record (app_key true) { token_hash = marked (codes "sk-2") })
    ∷ delete_key 1
    ∷ []

key_history-DistinctHashes_example : DistinctHashes (key_history key_calls empty_db).client_keys
key_history-DistinctHashes_example = key_history-DistinctHashes key_calls empty_db tt

abbrev one_key : Db
one_key = record empty_db { client_keys = app_key true ∷ []; next_client_key_id = 2 }

abbrev bearer_header : Header
bearer_header = (codes "Authorization", codes "bearer  sk-1" ∷ []) ∷ []

app_is_admitted : client_auth marked bearer_header one_key ≡ admitted (app_key true)
unfolding client_auth
app_is_admitted = refl

client_auth-admitted_example :
    (client_auth marked bearer_header one_key ≡ admitted (app_key true))
    ↔ (is_empty (extract_client_token bearer_header) ≡ false)
      × (Has (app_key true) one_key.client_keys
          × ((true ≡ true)
              × (marked (codes "sk-1") ≡ marked (trim_space (extract_client_token bearer_header)))))
client_auth-admitted_example =
    client_auth-admitted marked bearer_header one_key (app_key true) (tt, tt)
