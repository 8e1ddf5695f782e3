-- ===== src/Requests/Known.antt =====
-- The members that the conversion of a Messages request knows.
use token_gate.Base.{◌≡◌, refl, ap, ◌∙◌, false, Option, none, some, [], ◌∷◌}
use token_gate.Conversation.{convert_anthropic_messages_to_responses_input}
use token_gate.Json.{Json, Object, lookup, get, put, remove, Codec}
use token_gate.Json.Laws.{lookup-put, lookup-remove}
use token_gate.Requests.{
  convert_anthropic_tools_to_responses_tools,
  convert_anthropic_tool_choice_to_responses_tool_choice,
  convert_anthropic_system_to_responses_instructions, move, convert_at, move_text,
  responses_request,
}
use token_gate.Requests.Members.{
  NoneOf, lookup-put_other, lookup-remove_other, lookup-move_other, lookup-convert_at_other,
  lookup-move_text_other,
}
use token_gate.Text.{Text, codes, text_eq}
use token_gate.Text.Laws.{text_eq_refl}

-- The first value, or else the second one.
abbrev pub or_else_value : Option Json → Option Json → Option Json
or_else_value none o = o
or_else_value (some v) o = some v

abbrev pub converted_value : (Json → Json) → Option Json → Option Json
converted_value f none = none
converted_value f (some v) = some (f v)

lookup-put_same : (key : Text) (v : Json) (m : Object) → lookup key (put key v m) ≡ some v
lookup-put_same key v m = lookup-put key key v m ∙ rw (text_eq_refl key) refl

lookup-remove_same : (key : Text) (m : Object) → lookup key (remove key m) ≡ none
lookup-remove_same key m = lookup-remove key key m ∙ rw (text_eq_refl key) refl

lookup-move_to :
    (from to : Text) (m : Object)
    → text_eq from to ≡ false
    → lookup to (move from to m) ≡ or_else_value (lookup from m) (lookup to m)
unfolding move
lookup-move_to from to m h = moved (lookup from m)
  where
    moved :
        (o : Option Json)
        → lookup to (elim o as (λ x. Object) [ none ↦ m | some v ↦ remove from (put to v m) ])
          ≡ or_else_value o (lookup to m)
    moved none = refl
    moved (some v) = lookup-remove_other to from (put to v m) h ∙ lookup-put_same to v m

lookup-convert_at_same :
    (key : Text) (f : Json → Json) (m : Object)
    → lookup key (convert_at key f m) ≡ converted_value f (lookup key m)
unfolding convert_at
lookup-convert_at_same key f m = converted (lookup key m) refl
  where
    converted :
        (o : Option Json)
        → lookup key m ≡ o
        → lookup key (elim o as (λ x. Object) [ none ↦ m | some v ↦ put key (f v) m ])
          ≡ converted_value f o
    converted none e = e
    converted (some v) e = lookup-put_same key (f v) m

-- The steps of the conversion, one after the other.
abbrev with_input : Codec → Object → Object
with_input codec p =
    move_text (codes "system") (codes "instructions")
      convert_anthropic_system_to_responses_instructions
      (remove (codes "messages") (
        put (codes "input")
          (convert_anthropic_messages_to_responses_input codec (get (codes "messages") p)) p))

abbrev with_limits : Codec → Object → Object
with_limits codec p =
    move (codes "stop_sequences") (codes "stop")
      (move (codes "max_tokens") (codes "max_output_tokens") (with_input codec p))

abbrev with_tools : Codec → Object → Object
with_tools codec p =
    convert_at (codes "tool_choice") convert_anthropic_tool_choice_to_responses_tool_choice
      (convert_at (codes "tools") convert_anthropic_tools_to_responses_tools (with_limits codec p))

responses_request_steps :
    (codec : Codec) (p : Object)
    → responses_request codec p
      ≡ remove (codes "top_k") (remove (codes "thinking") (with_tools codec p))
unfolding responses_request
responses_request_steps codec p = refl

-- The other keys, through the first steps and through the last ones.
with_input_other :
    (codec : Codec) (p : Object) (key : Text)
    → NoneOf (codes "system" ∷ codes "instructions" ∷ codes "messages" ∷ codes "input" ∷ []) key
    → lookup key (with_input codec p) ≡ lookup key p
with_input_other codec p key (s, (n, (m, (i, e)))) =
    lookup-move_text_other key (codes "system") (codes "instructions") _ _ (s, (n, tt))
    ∙ lookup-remove_other key (codes "messages") _ m
    ∙ lookup-put_other key (codes "input") _ p i

after_tools :
    (codec : Codec) (p : Object) (key : Text)
    → NoneOf (codes "top_k" ∷ codes "thinking" ∷ codes "tool_choice" ∷ codes "tools" ∷ []) key
    → lookup key (responses_request codec p) ≡ lookup key (with_limits codec p)
after_tools codec p key (l, (k, (c, (u, e)))) =
    ap (lookup key) (responses_request_steps codec p)
    ∙ lookup-remove_other key (codes "top_k") _ l
    ∙ lookup-remove_other key (codes "thinking") _ k
    ∙ lookup-convert_at_other key (codes "tool_choice") _ _ c
    ∙ lookup-convert_at_other key (codes "tools") _ _ u

with_limits_other :
    (codec : Codec) (p : Object) (key : Text)
    → NoneOf
        (codes "stop_sequences"
          ∷ codes "stop"
          ∷ codes "max_tokens"
          ∷ codes "max_output_tokens"
          ∷ [])
        key
    → lookup key (with_limits codec p) ≡ lookup key (with_input codec p)
with_limits_other codec p key (q, (r, (t, (o, e)))) =
    lookup-move_other key (codes "stop_sequences") (codes "stop") _ (q, (r, tt))
    ∙ lookup-move_other key (codes "max_tokens") (codes "max_output_tokens") _ (t, (o, tt))

-- A member that the later of the two names has, or else the earlier one.
moved_member :
    (codec : Codec) (p : Object) (from to : Text) (m : Object)
    → text_eq from to ≡ false
    → lookup from m ≡ lookup from p
    → lookup to m ≡ lookup to p
    → lookup to (move from to m) ≡ or_else_value (lookup from p) (lookup to p)
moved_member codec p from to m h e f =
    lookup-move_to from to m h
    ∙ ap (λ o. or_else_value o (lookup to m)) e
    ∙ ap (or_else_value (lookup from p)) f

max_tokens_member :
    (codec : Codec) (p : Object)
    → lookup (codes "max_output_tokens") (responses_request codec p)
      ≡ or_else_value (lookup (codes "max_tokens") p) (lookup (codes "max_output_tokens") p)
unfolding text_eq
max_tokens_member codec p =
    after_tools codec p (codes "max_output_tokens") (refl, (refl, (refl, (refl, tt))))
    ∙ lookup-move_other (codes "max_output_tokens") (codes "stop_sequences") (codes "stop") _
        (refl, (refl, tt))
    ∙ moved_member codec p (codes "max_tokens") (codes "max_output_tokens") (with_input codec p)
        refl (with_input_other codec p (codes "max_tokens") (refl, (refl, (refl, (refl, tt)))))
        (with_input_other codec p (codes "max_output_tokens") (refl, (refl, (refl, (refl, tt)))))

stop_member :
    (codec : Codec) (p : Object)
    → lookup (codes "stop") (responses_request codec p)
      ≡ or_else_value (lookup (codes "stop_sequences") p) (lookup (codes "stop") p)
unfolding text_eq
stop_member codec p =
    let m = move (codes "max_tokens") (codes "max_output_tokens") (with_input codec p) in
    let before : (key : Text)
        → NoneOf (codes "max_tokens" ∷ codes "max_output_tokens" ∷ []) key
        → lookup key m ≡ lookup key (with_input codec p) =
      λ key h. lookup-move_other key (codes "max_tokens") (codes "max_output_tokens") _ h in
    after_tools codec p (codes "stop") (refl, (refl, (refl, (refl, tt))))
    ∙ moved_member codec p (codes "stop_sequences") (codes "stop") m refl
        (before (codes "stop_sequences") (refl, (refl, tt))
          ∙ with_input_other codec p (codes "stop_sequences") (refl, (refl, (refl, (refl, tt)))))
        (before (codes "stop") (refl, (refl, tt))
          ∙ with_input_other codec p (codes "stop") (refl, (refl, (refl, (refl, tt)))))

input_member :
    (codec : Codec) (p : Object)
    → lookup (codes "input") (responses_request codec p)
      ≡ some (convert_anthropic_messages_to_responses_input codec (get (codes "messages") p))
unfolding text_eq
input_member codec p =
    after_tools codec p (codes "input") (refl, (refl, (refl, (refl, tt))))
    ∙ with_limits_other codec p (codes "input") (refl, (refl, (refl, (refl, tt))))
    ∙ lookup-move_text_other (codes "input") (codes "system") (codes "instructions") _ _
        (refl, (refl, tt))
    ∙ lookup-remove_other (codes "input") (codes "messages") _ refl
    ∙ lookup-put_same (codes "input") _ p

messages_member :
    (codec : Codec) (p : Object) → lookup (codes "messages") (responses_request codec p) ≡ none
unfolding text_eq
messages_member codec p =
    after_tools codec p (codes "messages") (refl, (refl, (refl, (refl, tt))))
    ∙ with_limits_other codec p (codes "messages") (refl, (refl, (refl, (refl, tt))))
    ∙ lookup-move_text_other (codes "messages") (codes "system") (codes "instructions") _ _
        (refl, (refl, tt))
    ∙ lookup-remove_same (codes "messages") _

tools_member :
    (codec : Codec) (p : Object)
    → lookup (codes "tools") (responses_request codec p)
      ≡ converted_value convert_anthropic_tools_to_responses_tools (lookup (codes "tools") p)
unfolding text_eq
tools_member codec p =
    ap (lookup (codes "tools")) (responses_request_steps codec p)
    ∙ lookup-remove_other (codes "tools") (codes "top_k") _ refl
    ∙ lookup-remove_other (codes "tools") (codes "thinking") _ refl
    ∙ lookup-convert_at_other (codes "tools") (codes "tool_choice") _ _ refl
    ∙ lookup-convert_at_same (codes "tools") convert_anthropic_tools_to_responses_tools
        (with_limits codec p)
    ∙ ap (converted_value convert_anthropic_tools_to_responses_tools) (
        with_limits_other codec p (codes "tools") (refl, (refl, (refl, (refl, tt))))
        ∙ with_input_other codec p (codes "tools") (refl, (refl, (refl, (refl, tt)))))

-- The request that goes to a Responses backend has the converted messages as its input and no
-- messages. Its limit of tokens and its stop texts are those of the Messages names, or else those
-- that stood under the Responses names. Its tools are converted, if there are any.
pub responses_request_lem :
    (codec : Codec) (p : Object)
    → (lookup (codes "input") (responses_request codec p)
        ≡ some (convert_anthropic_messages_to_responses_input codec (get (codes "messages") p)))
      × (lookup (codes "messages") (responses_request codec p) ≡ none)
      × (lookup (codes "max_output_tokens") (responses_request codec p)
          ≡ or_else_value (lookup (codes "max_tokens") p) (lookup (codes "max_output_tokens") p))
      × (lookup (codes "stop") (responses_request codec p)
          ≡ or_else_value (lookup (codes "stop_sequences") p) (lookup (codes "stop") p))
      × (lookup (codes "tools") (responses_request codec p)
          ≡ converted_value convert_anthropic_tools_to_responses_tools (lookup (codes "tools") p))
responses_request_lem codec p = (
  input_member codec p,
  messages_member codec p,
  max_tokens_member codec p,
  stop_member codec p,
  tools_member codec p,
)
