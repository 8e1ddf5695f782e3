-- ===== src/Proxy/Forwarding.antt =====
-- What reaches the upstream of the headers of a client, described apart from the code: one value
-- list for every key, whatever the order of the steps of `DoWithPath`.
use token_gate.Base.{
  ◌≡◌, refl, sym, ap, ◌∙◌, inl, inr, Bool, ◌||◌, List, [], ◌∷◌, ◌++◌, append-nil, append_assoc,
  arith, if◌then◌else◌, Bool-cases, any, All,
}
use token_gate.Domain.{protocol_anthropic, Backend}
use token_gate.HttpHeader.{Header, canonical_key, values, add, del, set}
use token_gate.HttpHeader.Laws.{values-add_value, values-drop_key, values-set}
use token_gate.Proxy.{
  effective_backend_protocol_for_path, bearer_value, add_values, copy_headers, del_all, hop_by_hop,
  remove_hop_by_hop_headers, client_only, upstream_headers,
}
use token_gate.Text.{Text, codes, text_eq, trim_space, to_lower, has_prefix}

-- The values that the client sent under a key, however it spelled the key.
unfoldable pub collected : Text → Header → List Text
unfolding text_eq canonical_key
collected k [] = []
collected k ((key, vs) ∷ h) =
    let rest = collected k h in if text_eq (canonical_key key) k then vs ++ rest else rest

-- The text with which a backend of the OpenAI protocol is called: its key behind `Bearer`, which the
-- key may have already.
unfoldable pub bearer_credential : Backend → Text
unfolding trim_space to_lower has_prefix
bearer_credential backend =
    let key = trim_space backend.api_key in
    if has_prefix (codes "bearer ") (to_lower key) then key else codes "Bearer " ++ key

-- The key under which a backend expects its credentials, and the credentials.
unfoldable pub credential : Backend → Text → Text × Text
unfolding text_eq effective_backend_protocol_for_path bearer_credential
credential backend path =
    if text_eq (effective_backend_protocol_for_path backend path) protocol_anthropic
    then (codes "X-Api-Key", trim_space backend.api_key)
    else (codes "Authorization", bearer_credential backend)

-- The keys that say something of one connection only.
abbrev pub of_the_connection : List Text
of_the_connection =
    codes "Connection"
    ∷ codes "Keep-Alive"
    ∷ codes "Proxy-Authenticate"
    ∷ codes "Proxy-Authorization"
    ∷ codes "Proxy-Connection"
    ∷ codes "Te"
    ∷ codes "Trailer"
    ∷ codes "Transfer-Encoding"
    ∷ codes "Upgrade"
    ∷ []

-- The credentials of the client, and what its own connection needs.
abbrev pub of_the_client : List Text
of_the_client =
    codes "Authorization" ∷ codes "X-Api-Key" ∷ codes "Host" ∷ codes "Content-Length" ∷ []

-- The keys that never reach the upstream of that protocol.
unfoldable pub withheld : Backend → Text → List Text
unfolding text_eq effective_backend_protocol_for_path
withheld backend path =
    of_the_connection
    ++ (of_the_client
        ++ (if text_eq (effective_backend_protocol_for_path backend path) protocol_anthropic
            then []
            else codes "Anthropic-Version" ∷ codes "Anthropic-Beta" ∷ []))

-- Whether a key is among these.
abbrev pub among : Text → List Text → Bool
among k keys = any (λ x. text_eq x k) keys

values-add_values :
    (k key : Text) (vs : List Text) (h : Header)
    → values k (add_values key vs h)
      ≡ (if text_eq (canonical_key key) k then values k h ++ vs else values k h)
unfolding add_values add
values-add_values k key [] h = elim (Bool-cases (text_eq (canonical_key key) k)) [
  | inl e ↦ rw (e, append-nil (values k h)) refl
  | inr e ↦ rw e refl
]
values-add_values k key (v ∷ vs) h = elim (Bool-cases (text_eq (canonical_key key) k)) [
  | inl e ↦
      rw
        (
          values-add_values k key vs (add key v h),
          e,
          values-add_value k (canonical_key key) v h,
          e,
          append_assoc (values k h) (v ∷ []) vs,
        )
        refl
  | inr e ↦
      rw
        (values-add_values k key vs (add key v h), e, values-add_value k (canonical_key key) v h, e)
        refl
]

pub values-copy_headers :
    (k : Text) (dst src : Header)
    → values k (copy_headers dst src) ≡ values k dst ++ collected k src
unfolding copy_headers collected
values-copy_headers k dst [] = sym (append-nil (values k dst))
values-copy_headers k dst ((key, vs) ∷ src) = elim (Bool-cases (text_eq (canonical_key key) k)) [
  | inl e ↦
      rw
        (
          values-copy_headers k (add_values key vs dst) src,
          values-add_values k key vs dst,
          e,
          append_assoc (values k dst) vs (collected k src),
        )
        refl
  | inr e ↦
      rw (values-copy_headers k (add_values key vs dst) src, values-add_values k key vs dst, e) refl
]

-- Keys in their canonical spelling.
abbrev pub Canonical : List Text → Type 0
Canonical keys = All (λ x. canonical_key x ≡ x) keys

same_branches : (b : Bool) (v : List Text) → (if b then v else v) ≡ v
same_branches b v = ground arith

pub values-del_all :
    (k : Text) (keys : List Text) (h : Header)
    → Canonical keys
    → values k (del_all keys h) ≡ (if among k keys then [] else values k h)
unfolding del_all del
values-del_all k [] h c = refl
values-del_all k (key ∷ keys) h (c, cs) = elim (Bool-cases (text_eq key k)) [
  | inl e ↦
      rw (values-del_all k keys (del key h) cs, values-drop_key k (canonical_key key) h, c, e)
        (same_branches _ [])
  | inr e ↦
      rw (values-del_all k keys (del key h) cs, values-drop_key k (canonical_key key) h, c, e) refl
]

pub among-append : (k : Text) (xs ys : List Text) → among k (xs ++ ys) ≡ (among k xs || among k ys)
among-append k [] ys = refl
among-append k (x ∷ xs) ys = ground (arith, among-append k xs ys)

merge_two :
    (a b : Bool) (v : List Text)
    → (if b then [] else (if a then [] else v)) ≡ (if a || b then [] else v)
merge_two a b v = ground arith

merge_three :
    (a b c : Bool) (v : List Text)
    → (if c then [] else (if b then [] else (if a then [] else v)))
      ≡ (if a || (b || c) then [] else v)
merge_three a b c v = ground arith

hop_by_hop-Canonical : Canonical hop_by_hop
unfolding canonical_key
hop_by_hop-Canonical = ground arith

client_only-Canonical : Canonical client_only
unfolding canonical_key
client_only-Canonical = ground arith

-- The incoming values, where the keys are taken out that go to no upstream.
values-copied :
    (k : Text) (incoming : Header)
    → values k (del_all client_only (remove_hop_by_hop_headers (copy_headers [] incoming))) ≡ (
        if among k client_only
        then []
        else (if among k hop_by_hop then [] else collected k incoming))
unfolding remove_hop_by_hop_headers values
values-copied k incoming =
    rw
      (
        values-del_all k client_only (remove_hop_by_hop_headers (copy_headers [] incoming))
            client_only-Canonical,
        values-del_all k hop_by_hop (copy_headers [] incoming) hop_by_hop-Canonical,
        values-copy_headers k [] incoming,
      )
      refl

abbrev anthropic_only : List Text
anthropic_only = codes "Anthropic-Version" ∷ codes "Anthropic-Beta" ∷ []

abbrev copied : Header → Header
copied incoming = del_all client_only (remove_hop_by_hop_headers (copy_headers [] incoming))

-- The values where these keys are withheld.
abbrev less_these : Text → List Text → Header → List Text
less_these k keys incoming = if among k keys then [] else collected k incoming

values-for_anthropic :
    (k : Text) (incoming : Header)
    → values k (copied incoming) ≡ less_these k (hop_by_hop ++ client_only) incoming
values-for_anthropic k incoming =
    values-copied k incoming
    ∙ merge_two (among k hop_by_hop) (among k client_only) (collected k incoming)
    ∙ ap (λ b. if b then [] else collected k incoming) (sym (among-append k hop_by_hop client_only))

anthropic_only-Canonical : Canonical anthropic_only
unfolding canonical_key
anthropic_only-Canonical = ground arith

values-for_openai :
    (k : Text) (incoming : Header)
    → values k (del_all anthropic_only (copied incoming))
      ≡ less_these k (hop_by_hop ++ (client_only ++ anthropic_only)) incoming
values-for_openai k incoming =
    values-del_all k anthropic_only (copied incoming) anthropic_only-Canonical
    ∙ ap (λ v. if among k anthropic_only then [] else v) (values-copied k incoming)
    ∙ merge_three (among k hop_by_hop) (among k client_only) (among k anthropic_only)
        (collected k incoming)
    ∙ ap (λ b. if among k hop_by_hop || b then [] else collected k incoming)
        (sym (among-append k client_only anthropic_only))
    ∙ ap (λ b. if b then [] else collected k incoming)
        (sym (among-append k hop_by_hop (client_only ++ anthropic_only)))

values-set_then :
    (k key v : Text) (h : Header) (w : List Text)
    → canonical_key key ≡ key
    → values k h ≡ w
    → values k (set key v h) ≡ (if text_eq key k then v ∷ [] else w)
values-set_then k key v h w c e =
    values-set k key v h c ∙ ap (λ x. if text_eq key k then v ∷ [] else x) e

credential_key-Canonical :
    (canonical_key (codes "X-Api-Key") ≡ codes "X-Api-Key")
    × (canonical_key (codes "Authorization") ≡ codes "Authorization")
unfolding canonical_key
credential_key-Canonical = (refl, refl)

-- What an upstream sees under each key. Its credential key holds the credentials of the backend and
-- nothing of the client; a hop-by-hop key, a client credential, `Host`, `Content-Length`, and for
-- the OpenAI protocol the Anthropic keys, hold nothing; every other key holds what the client sent
-- under all its spellings.
pub values-upstream_headers :
    (incoming : Header) (backend : Backend) (path k : Text)
    → values k (upstream_headers incoming backend path) ≡ (
        if text_eq (credential backend path).0 k
        then (credential backend path).1 ∷ []
        else (if among k (withheld backend path) then [] else collected k incoming))
unfolding upstream_headers credential withheld bearer_credential bearer_value
values-upstream_headers incoming backend path k =
    elim (Bool-cases
      (text_eq (effective_backend_protocol_for_path backend path) protocol_anthropic)) [
        | inl e ↦ rw e (
            values-set_then k (codes "X-Api-Key") _ (copied incoming) _ credential_key-Canonical.0
              (values-for_anthropic k incoming))
        | inr e ↦ rw e (
            values-set_then k (codes "Authorization") _ (del_all anthropic_only (copied incoming)) _
              credential_key-Canonical.1 (values-for_openai k incoming))
      ]
