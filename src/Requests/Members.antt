-- ===== src/Requests/Members.antt =====
-- What becomes of the members of a request, one by one.
use token_gate.Base.{◌≡◌, refl, ◌∙◌, false, Option, none, some, List, [], ◌∷◌, All}
use token_gate.Json.{Json, string, Object, lookup, put, remove, Codec}
use token_gate.Json.Laws.{lookup-put, lookup-remove}
use token_gate.Requests.{move, convert_at, move_text, responses_request, messages_request}
use token_gate.Text.{Text, codes, text_eq}

-- A key that is none of these.
abbrev pub NoneOf : List Text → Text → Type 0
NoneOf keys key = All (λ k. text_eq k key ≡ false) keys

pub lookup-put_other :
    (key to : Text) (v : Json) (m : Object)
    → text_eq to key ≡ false
    → lookup key (put to v m) ≡ lookup key m
lookup-put_other key to v m h = lookup-put key to v m ∙ rw h refl

pub lookup-remove_other :
    (key from : Text) (m : Object)
    → text_eq from key ≡ false
    → lookup key (remove from m) ≡ lookup key m
lookup-remove_other key from m h = lookup-remove key from m ∙ rw h refl

pub lookup-move_other :
    (key from to : Text) (m : Object)
    → NoneOf (from ∷ to ∷ []) key
    → lookup key (move from to m) ≡ lookup key m
unfolding move
lookup-move_other key from to m (h, (k, n)) = moved (lookup from m)
  where
    moved :
        (o : Option Json)
        → lookup key (elim o as (λ x. Object) [ none ↦ m | some v ↦ remove from (put to v m) ])
          ≡ lookup key m
    moved none = refl
    moved (some v) = lookup-remove_other key from (put to v m) h ∙ lookup-put_other key to v m k

pub lookup-convert_at_other :
    (key at : Text) (f : Json → Json) (m : Object)
    → text_eq at key ≡ false
    → lookup key (convert_at at f m) ≡ lookup key m
unfolding convert_at
lookup-convert_at_other key at f m h = converted (lookup at m)
  where
    converted :
        (o : Option Json)
        → lookup key (elim o as (λ x. Object) [ none ↦ m | some v ↦ put at (f v) m ]) ≡ lookup key m
    converted none = refl
    converted (some v) = lookup-put_other key at (f v) m h

pub lookup-move_text_other :
    (key from to : Text) (f : Json → Option Text) (m : Object)
    → NoneOf (from ∷ to ∷ []) key
    → lookup key (move_text from to f m) ≡ lookup key m
unfolding move_text
lookup-move_text_other key from to f m (h, (k, n)) = moved (lookup from m)
  where
    put_text :
        (t : Option Text)
        → lookup key (elim t as (λ x. Object) [ none ↦ m | some s ↦ put to (string s) m ])
          ≡ lookup key m
    put_text none = refl
    put_text (some s) = lookup-put_other key to (string s) m k

    moved :
        (o : Option Json)
        → lookup key (elim o as (λ x. Object) [
          | none ↦ m
          | some v ↦
              remove from (elim (f v) as (λ x. Object) [ none ↦ m | some s ↦ put to (string s) m ])
        ])
          ≡ lookup key m
    moved none = refl
    moved (some v) = lookup-remove_other key from _ h ∙ put_text (f v)

-- The members that a conversion of a request may change.
abbrev pub shared_members : List Text
shared_members =
    codes "messages"
    ∷ codes "input"
    ∷ codes "system"
    ∷ codes "instructions"
    ∷ codes "max_tokens"
    ∷ codes "max_output_tokens"
    ∷ codes "stop_sequences"
    ∷ codes "stop"
    ∷ codes "tools"
    ∷ codes "tool_choice"
    ∷ codes "thinking"
    ∷ codes "top_k"
    ∷ []

responses_request_other :
    (codec : Codec) (p : Object) (key : Text)
    → NoneOf shared_members key
    → lookup key (responses_request codec p) ≡ lookup key p
unfolding responses_request
responses_request_other codec p key (m, (i, (s, (n, (t, (o, (q, (r, (u, (c, (k, (l, e)))))))))))) =
    lookup-remove_other key (codes "top_k") _ l
    ∙ lookup-remove_other key (codes "thinking") _ k
    ∙ lookup-convert_at_other key (codes "tool_choice") _ _ c
    ∙ lookup-convert_at_other key (codes "tools") _ _ u
    ∙ lookup-move_other key (codes "stop_sequences") (codes "stop") _ (q, (r, tt))
    ∙ lookup-move_other key (codes "max_tokens") (codes "max_output_tokens") _ (t, (o, tt))
    ∙ lookup-move_text_other key (codes "system") (codes "instructions") _ _ (s, (n, tt))
    ∙ lookup-remove_other key (codes "messages") _ m
    ∙ lookup-put_other key (codes "input") _ p i

messages_request_other :
    (codec : Codec) (p : Object) (key : Text)
    → NoneOf shared_members key
    → lookup key (messages_request codec p) ≡ lookup key p
unfolding messages_request
messages_request_other codec p key (m, (i, (s, (n, (t, (o, (q, (r, (u, (c, e)))))))))) =
    lookup-convert_at_other key (codes "tool_choice") _ _ c
    ∙ lookup-convert_at_other key (codes "tools") _ _ u
    ∙ lookup-move_other key (codes "stop") (codes "stop_sequences") _ (r, (q, tt))
    ∙ lookup-move_other key (codes "max_output_tokens") (codes "max_tokens") _ (o, (t, tt))
    ∙ lookup-move_text_other key (codes "instructions") (codes "system") _ _ (n, (s, tt))
    ∙ lookup-remove_other key (codes "input") _ i
    ∙ lookup-put_other key (codes "messages") _ p m

-- The conversions of a request, in both directions, pass every member on that is not one of the
-- twelve they know.
pub other_members :
    (codec : Codec) (p : Object) (key : Text)
    → NoneOf shared_members key
    → (lookup key (responses_request codec p) ≡ lookup key p)
      × (lookup key (messages_request codec p) ≡ lookup key p)
other_members codec p key h =
    (responses_request_other codec p key h, messages_request_other codec p key h)
