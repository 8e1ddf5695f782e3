-- ===== src/Auth/Admission.antt =====
-- Who is admitted: the enabled key whose hash is that of the token, if the table has one.
use token_gate.Base.{
  ◌≡◌, refl, ap, ◌∙◌, ◌↔◌, inl, inr, true, false, Option, none, some, List, [], ◌∷◌, arith,
  Bool-cases, Has,
}
use token_gate.Auth.{extract_client_token, Authenticated, unauthorized, admitted, client_auth}
use token_gate.Domain.{ClientKey}
use token_gate.HttpHeader.{Header}
use token_gate.Store.{Db}
use token_gate.Store.ClientKeys.{find_enabled, find_client_key_by_token}
use token_gate.Store.ClientKeys.Table.{IsFresh, DistinctHashes}
use token_gate.Text.{Text, codes, text_eq, is_empty, trim_space}
use token_gate.Text.Laws.{text_eq_iff}

find_enabled-Has :
    (hash : Text) (ks : List ClientKey) (k : ClientKey)
    → find_enabled hash ks ≡ some k
    → Has k ks × ((k.enabled ≡ true) × (k.token_hash ≡ hash))
unfolding find_enabled
find_enabled-Has hash [] k h = ground arith
find_enabled-Has hash (j ∷ ks) k h =
    ground (arith, find_enabled-Has hash ks k, text_eq_iff j.token_hash hash)

IsFresh-Has :
    (ks : List ClientKey) (k : ClientKey) (hash : Text)
    → IsFresh hash ks
    → Has k ks
    → text_eq k.token_hash hash ≡ false
IsFresh-Has [] k hash f m = elim m [ ]
IsFresh-Has (j ∷ ks) k hash (e, f) (inl p) = ap (λ (x : ClientKey). text_eq x.token_hash hash) p ∙ e
IsFresh-Has (j ∷ ks) k hash (e, f) (inr m) = IsFresh-Has ks k hash f m

find_enabled-some :
    (hash : Text) (ks : List ClientKey) (k : ClientKey)
    → DistinctHashes ks
    → Has k ks
    → k.enabled ≡ true
    → k.token_hash ≡ hash
    → find_enabled hash ks ≡ some k
unfolding find_enabled
find_enabled-some hash [] k d m en h = elim m [ ]
find_enabled-some hash (j ∷ ks) k (f, d) (inl e) en h =
    ground (arith, text_eq_iff j.token_hash hash)
find_enabled-some hash (j ∷ ks) k (f, d) (inr m) en h =
    let apart = IsFresh-Has ks k j.token_hash f m in
    let rest = find_enabled-some hash ks k d m en h in
    ground (arith, text_eq_iff j.token_hash hash, text_eq_iff k.token_hash j.token_hash)

told_iff :
    (o : Option ClientKey) (k : ClientKey)
    → ((elim o as (λ x. Authenticated) [
      | none ↦ unauthorized 401 (codes "invalid api key")
      | some key ↦ admitted key
    ])
        ≡ admitted k)
      ↔ (o ≡ some k)
told_iff none k = (λ p. ground arith, λ p. ground arith)
told_iff (some j) k = (λ p. ground arith, λ p. ground arith)

-- If the token hashes of the table are pairwise different, a request is admitted as a client
-- exactly if it carries a token and the client is an enabled key of the table whose stored hash is
-- the hash of that token.
pub client_auth-admitted :
    (hash_token : Text → Text) (h : Header) (db : Db) (k : ClientKey)
    → DistinctHashes db.client_keys
    → (client_auth hash_token h db ≡ admitted k)
      ↔ (is_empty (extract_client_token h) ≡ false)
        × (Has k db.client_keys
            × ((k.enabled ≡ true)
                × (k.token_hash ≡ hash_token (trim_space (extract_client_token h)))))
unfolding client_auth find_client_key_by_token
client_auth-admitted hash_token h db k d =
    let hash = hash_token (trim_space (extract_client_token h)) in
    elim (Bool-cases (is_empty (extract_client_token h))) [
      | inl e ↦ rw e (λ p. ground arith, λ (q, _). ground arith)
      | inr e ↦ rw e (
        λ p. (
          refl,
          find_enabled-Has hash db.client_keys k
              ((told_iff (find_enabled hash db.client_keys) k).0 p),
        ),
        λ (_, (m, (en, t))).
            (told_iff (find_enabled hash db.client_keys) k).1
              (find_enabled-some hash db.client_keys k d m en t),
      )
    ]
