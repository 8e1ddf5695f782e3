-- ===== src/Auth.antt =====
-- internal/app/app.go, clientAuth: which client a request comes from. The event log is not modelled.
pub mod Admission
use token_gate.Base.{ℕ, zero, suc, none, some, [], ◌∷◌, if◌then◌else◌}
use token_gate.Domain.{ClientKey}
use token_gate.HttpHeader.{Header, values}
use token_gate.Store.{Db}
use token_gate.Store.ClientKeys.{find_client_key_by_token}
use token_gate.Text.{Text, codes, is_empty, trim_space, to_lower, has_prefix}

-- `header.Get` at a canonical key
unfoldable pub first_value : Text → Header → Text
unfolding values
first_value key h = elim (values key h) [ [] ↦ [] | v ∷ vs ↦ v ]

abbrev pub drop : ℕ → Text → Text
drop zero s = s
drop (suc n) [] = []
drop (suc n) (c ∷ s) = drop n s

-- No letter beyond ASCII folds to one of `Bearer`, so lower case decides.
unfoldable pub extract_bearer : Text → Text
unfolding has_prefix trim_space to_lower
extract_bearer value =
    if has_prefix (codes "bearer ") (to_lower value)
    then trim_space (drop 7 value)
    else trim_space value

unfoldable pub extract_client_token : Header → Text
unfolding is_empty trim_space extract_bearer first_value
extract_client_token h =
    let token = trim_space (extract_bearer (first_value (codes "Authorization") h)) in
    if is_empty token then trim_space (first_value (codes "X-Api-Key") h) else token

pub data Authenticated : Type 0 where
  unauthorized : ℕ → Text → Authenticated
  admitted : ClientKey → Authenticated

unfoldable pub client_auth : (Text → Text) → Header → Db → Authenticated
unfolding is_empty extract_client_token find_client_key_by_token
client_auth hash_token h db =
    let token = extract_client_token h in
    if is_empty token
    then unauthorized 401 (codes "missing api key")
    else elim (find_client_key_by_token hash_token token db) [
      | none ↦ unauthorized 401 (codes "invalid api key")
      | some key ↦ admitted key
    ]
