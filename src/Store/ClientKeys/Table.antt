-- ===== src/Store/ClientKeys/Table.antt =====
-- The table of client keys: token hashes are pairwise different, whatever is called.
use token_gate.Base.{ℕ, ◌≡◌, inl, inr, false, List, [], ◌∷◌, ◌++◌, arith, ◌==◌, Bool-cases, All}
use token_gate.Domain.{ClientKey}
use token_gate.Store.{Db}
use token_gate.Store.ClientKeys.{
  hash_taken, create_client_key, updated_key, update_key_row, update_client_key, without_key,
  delete_client_key,
}
use token_gate.Text.{Text, text_eq}
use token_gate.Text.Laws.{text_eq_iff}
use token_gate.Time.{Time}

-- No row has the hash.
abbrev pub IsFresh : Text → List ClientKey → Type 0
IsFresh hash ks = All (λ (k : ClientKey). text_eq k.token_hash hash ≡ false) ks

abbrev pub DistinctHashes : List ClientKey → Type 0
DistinctHashes [] = Unit
DistinctHashes (k ∷ ks) = IsFresh k.token_hash ks × DistinctHashes ks

pub data KeyCall : Type 0 where
  create_key : Time → ClientKey → KeyCall
  update_key : Time → ClientKey → KeyCall
  delete_key : ℕ → KeyCall

unfoldable pub key_step : KeyCall → Db → Db
unfolding create_client_key update_client_key delete_client_key
key_step (create_key now key) db = (create_client_key now key db).0
key_step (update_key now key) db = (update_client_key now key db).0
key_step (delete_key id) db = delete_client_key id db

unfoldable pub key_history : List KeyCall → Db → Db
unfolding key_step
key_history [] db = db
key_history (c ∷ cs) db = key_history cs (key_step c db)

IsFresh-append :
    (hash : Text) (ks : List ClientKey) (k : ClientKey)
    → IsFresh hash ks
    → text_eq k.token_hash hash ≡ false
    → IsFresh hash (ks ++ (k ∷ []))
IsFresh-append hash [] k f e = (e, tt)
IsFresh-append hash (j ∷ ks) k (d, f) e = (d, IsFresh-append hash ks k f e)

DistinctHashes-append :
    (ks : List ClientKey) (k : ClientKey)
    → DistinctHashes ks
    → hash_taken k.token_hash ks ≡ false
    → DistinctHashes (ks ++ (k ∷ []))
unfolding hash_taken
DistinctHashes-append [] k d e = (tt, tt)
DistinctHashes-append (j ∷ ks) k (f, d) e = (
  IsFresh-append j.token_hash ks k f (
      ground (arith, text_eq_iff j.token_hash k.token_hash, text_eq_iff k.token_hash j.token_hash)),
  DistinctHashes-append ks k d (ground arith),
)

IsFresh-update :
    (hash : Text) (id : ℕ) (now : Time) (key : ClientKey) (ks : List ClientKey)
    → IsFresh hash ks
    → IsFresh hash (update_key_row id (updated_key now key) ks)
unfolding update_key_row updated_key
IsFresh-update hash id now key [] f = tt
IsFresh-update hash id now key (k ∷ ks) (e, f) = elim (Bool-cases (k.id == id)) [
  | inl h ↦ rw h (e, IsFresh-update hash id now key ks f)
  | inr h ↦ rw h (e, IsFresh-update hash id now key ks f)
]

DistinctHashes-update :
    (id : ℕ) (now : Time) (key : ClientKey) (ks : List ClientKey)
    → DistinctHashes ks
    → DistinctHashes (update_key_row id (updated_key now key) ks)
unfolding update_key_row updated_key
DistinctHashes-update id now key [] d = tt
DistinctHashes-update id now key (k ∷ ks) (f, d) = elim (Bool-cases (k.id == id)) [
  | inl h ↦
      rw h (IsFresh-update k.token_hash id now key ks f, DistinctHashes-update id now key ks d)
  | inr h ↦
      rw h (IsFresh-update k.token_hash id now key ks f, DistinctHashes-update id now key ks d)
]

IsFresh-without_key :
    (hash : Text) (id : ℕ) (ks : List ClientKey)
    → IsFresh hash ks
    → IsFresh hash (without_key id ks)
unfolding without_key
IsFresh-without_key hash id [] f = tt
IsFresh-without_key hash id (k ∷ ks) (e, f) = elim (Bool-cases (k.id == id)) [
  | inl h ↦ rw h (IsFresh-without_key hash id ks f)
  | inr h ↦ rw h (e, IsFresh-without_key hash id ks f)
]

DistinctHashes-without_key :
    (id : ℕ) (ks : List ClientKey) → DistinctHashes ks → DistinctHashes (without_key id ks)
unfolding without_key
DistinctHashes-without_key id [] d = tt
DistinctHashes-without_key id (k ∷ ks) (f, d) = elim (Bool-cases (k.id == id)) [
  | inl h ↦ rw h (DistinctHashes-without_key id ks d)
  | inr h ↦ rw h (IsFresh-without_key k.token_hash id ks f, DistinctHashes-without_key id ks d)
]

key_step-DistinctHashes :
    (c : KeyCall) (db : Db)
    → DistinctHashes db.client_keys
    → DistinctHashes (key_step c db).client_keys
unfolding key_step create_client_key update_client_key delete_client_key
key_step-DistinctHashes (create_key now key) db d =
    elim (Bool-cases (hash_taken key.token_hash db.client_keys)) [
      | inl h ↦ rw (h, DistinctHashes) d
      | inr h ↦ rw (h, DistinctHashes) (DistinctHashes-append db.client_keys _ d h)
    ]
key_step-DistinctHashes (update_key now key) db d =
    DistinctHashes-update key.id now key db.client_keys d
key_step-DistinctHashes (delete_key id) db d = DistinctHashes-without_key id db.client_keys d

-- If no two keys of a table have the same token hash, none have after any keys have been created,
-- updated and deleted.
pub key_history-DistinctHashes :
    (cs : List KeyCall) (db : Db)
    → DistinctHashes db.client_keys
    → DistinctHashes (key_history cs db).client_keys
unfolding key_history
key_history-DistinctHashes [] db d = d
key_history-DistinctHashes (c ∷ cs) db d =
    key_history-DistinctHashes cs (key_step c db) (key_step-DistinctHashes c db d)
