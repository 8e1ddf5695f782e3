-- ===== src/Store/ClientKeys.antt =====
-- internal/store/store_client_key.go: the client keys. The hash of a token (SHA-256 in hexadecimal)
-- is an argument.
pub mod Table
use token_gate.Base.{
  ℕ, suc, Bool, ◌&&◌, Option, none, some, List, [], ◌∷◌, ◌++◌, reverse, ◌==◌, if◌then◌else◌, any,
}
use token_gate.Domain.{ClientKey}
use token_gate.Socks5.Grants.{after}
use token_gate.Store.{unique_violation, no_rows, Result, ok, err, Db}
use token_gate.Text.{Text, text_eq, trim_space}
use token_gate.Time.{Time}

unfoldable pub find_key : ℕ → List ClientKey → Option ClientKey
find_key id [] = none
find_key id (k ∷ ks) = let rest = find_key id ks in if k.id == id then some k else rest

-- The UNIQUE constraint on token_hash.
unfoldable pub hash_taken : Text → List ClientKey → Bool
unfolding text_eq
hash_taken hash ks = any (λ (k : ClientKey). text_eq k.token_hash hash) ks

unfoldable pub find_enabled : Text → List ClientKey → Option ClientKey
unfolding text_eq
find_enabled hash [] = none
find_enabled hash (k ∷ ks) =
    let rest = find_enabled hash ks in
    if text_eq k.token_hash hash && k.enabled then some k else rest

unfoldable pub find_client_key_by_token : (Text → Text) → Text → Db → Option ClientKey
unfolding find_enabled trim_space
find_client_key_by_token hash_token token db =
    find_enabled (hash_token (trim_space token)) db.client_keys

unfoldable pub list_client_keys : Db → List ClientKey
list_client_keys db = reverse db.client_keys

unfoldable pub get_client_key : ℕ → Db → Result ClientKey
unfolding find_key
get_client_key id db = elim (find_key id db.client_keys) [ none ↦ err no_rows | some k ↦ ok k ]

-- The row is trimmed; the caller gets its own fields back with the id and the times.
unfoldable pub create_client_key : Time → ClientKey → Db → Db × Result ClientKey
unfolding hash_taken trim_space
create_client_key now key db =
    let stamped = record key { created_at = now; updated_at = now; id = db.next_client_key_id } in
    if hash_taken key.token_hash db.client_keys then (db, err unique_violation) else (
      record db {
        client_keys =
            db.client_keys
            ++ (record stamped { name = trim_space key.name; token = trim_space key.token } ∷ []);
        next_client_key_id = suc db.next_client_key_id;
      },
      ok stamped,
    )

unfoldable pub updated_key : Time → ClientKey → ClientKey → ClientKey
unfolding trim_space
updated_key now key old = record old {
  name = trim_space key.name;
  allowed_models = key.allowed_models;
  enabled = key.enabled;
  updated_at = now;
}

unfoldable pub update_key_row : ℕ → (ClientKey → ClientKey) → List ClientKey → List ClientKey
update_key_row id f [] = []
update_key_row id f (k ∷ ks) = (if k.id == id then f k else k) ∷ update_key_row id f ks

unfoldable pub update_client_key : Time → ClientKey → Db → Db × Result ClientKey
unfolding update_key_row updated_key get_client_key
update_client_key now key db =
    let after = record db {
      client_keys = update_key_row key.id (updated_key now key) db.client_keys;
    } in
    (after, get_client_key key.id after)

unfoldable pub without_key : ℕ → List ClientKey → List ClientKey
without_key id [] = []
without_key id (k ∷ ks) = let rest = without_key id ks in if k.id == id then rest else k ∷ rest

unfoldable pub delete_client_key : ℕ → Db → Db
unfolding without_key
delete_client_key id db = record db { client_keys = without_key id db.client_keys }
