-- ===== src/Requests.antt =====
-- internal/proxy/translate.go: the tools and the members of a request, turned from the form of one
-- protocol into that of the other.
pub mod Tools
pub mod Members
pub mod Known
use token_gate.Base.{Bool, false, Option, none, some, List, [], ◌∷◌, ◌++◌, map, if◌then◌else◌}
use token_gate.Content.{type_of, is_blank}
use token_gate.Conversation.{
  convert_anthropic_messages_to_responses_input, message_json,
  convert_responses_input_to_anthropic_messages,
}
use token_gate.Json.{
  Json, boolean, string, array, object, Object, list_of, entries_of, slice, mapping, lookup, get,
  put, remove, as_string, Codec, decode_json_object,
}
use token_gate.Text.{Text, codes, text_eq, is_empty, trim_space, join}

-- A description that is not blank, trimmed.
unfoldable pub described : Object → Object
unfolding get as_string trim_space is_empty
described tool =
    let text = trim_space (as_string (get (codes "description") tool)) in
    if is_empty text then [] else (codes "description", string text) ∷ []

-- A member under another name, if it is there.
unfoldable pub renamed : Text → Text → Object → Object
unfolding lookup
renamed from to m = elim (lookup from m) [ none ↦ [] | some v ↦ (to, v) ∷ [] ]

-- The body of the loop of `convertAnthropicToolsToResponsesTools`.
unfoldable pub responses_tool : Json → Json
unfolding entries_of mapping get described renamed
responses_tool (object m) = mapping (
    (codes "type", string (codes "function"))
    ∷ (codes "name", get (codes "name") (entries_of m))
    ∷ (described (entries_of m)
        ++ renamed (codes "input_schema") (codes "parameters") (entries_of m)))
responses_tool raw = raw

-- `convertAnthropicToolsToResponsesTools`
unfoldable pub convert_anthropic_tools_to_responses_tools : Json → Json
unfolding slice list_of responses_tool
convert_anthropic_tools_to_responses_tools (array vs) = slice (map responses_tool (list_of vs))
convert_anthropic_tools_to_responses_tools v = v

-- The body of the loop of `convertResponsesToolsToAnthropicTools`.
unfoldable pub anthropic_tool : Json → Json
unfolding entries_of mapping get described renamed
anthropic_tool (object m) = mapping (
    (codes "name", get (codes "name") (entries_of m))
    ∷ (described (entries_of m)
        ++ renamed (codes "parameters") (codes "input_schema") (entries_of m)))
anthropic_tool raw = raw

-- `convertResponsesToolsToAnthropicTools`
unfoldable pub convert_responses_tools_to_anthropic_tools : Json → Json
unfolding slice list_of anthropic_tool
convert_responses_tools_to_anthropic_tools (array vs) = slice (map anthropic_tool (list_of vs))
convert_responses_tools_to_anthropic_tools v = v

-- `convertAnthropicToolChoiceToResponsesToolChoice`
unfoldable pub convert_anthropic_tool_choice_to_responses_tool_choice : Json → Json
unfolding entries_of get as_string trim_space text_eq mapping
convert_anthropic_tool_choice_to_responses_tool_choice (object m) =
    let kind = type_of (entries_of m) in
    if text_eq kind (codes "auto")
    then string (codes "auto")
    else if text_eq kind (codes "any")
    then string (codes "required")
    else if text_eq kind (codes "none")
    then string (codes "none")
    else if text_eq kind (codes "tool")
    then mapping (
        (codes "type", string (codes "function"))
        ∷ (codes "name", get (codes "name") (entries_of m))
        ∷ [])
    else object m
convert_anthropic_tool_choice_to_responses_tool_choice v = v

abbrev pub only_type : Text → Json
unfolding mapping
only_type kind = mapping ((codes "type", string kind) ∷ [])

-- `convertResponsesToolChoiceToAnthropicToolChoice`
unfoldable pub convert_responses_tool_choice_to_anthropic_tool_choice : Json → Json
unfolding entries_of get as_string trim_space text_eq mapping
convert_responses_tool_choice_to_anthropic_tool_choice (string s) =
    let choice = trim_space s in
    if text_eq choice (codes "auto")
    then only_type (codes "auto")
    else if text_eq choice (codes "required")
    then only_type (codes "any")
    else if text_eq choice (codes "none")
    then only_type (codes "none")
    else string s
convert_responses_tool_choice_to_anthropic_tool_choice (object m) =
    if text_eq (type_of (entries_of m)) (codes "function")
    then mapping (
        (codes "type", string (codes "tool"))
        ∷ (codes "name", get (codes "name") (entries_of m))
        ∷ [])
    else object m
convert_responses_tool_choice_to_anthropic_tool_choice v = v

-- The texts of the blocks of a system prompt that are not blank, trimmed.
unfoldable pub system_texts : List Json → List Text
unfolding entries_of get as_string trim_space text_eq is_empty
system_texts [] = []
system_texts (object m ∷ vs) =
    let rest = system_texts vs in
    let text = trim_space (as_string (get (codes "text") (entries_of m))) in
    if text_eq (type_of (entries_of m)) (codes "text")
    then (if is_empty text then rest else text ∷ rest)
    else rest
system_texts (raw ∷ vs) = system_texts vs

abbrev pub joined : List Text → Option Text
unfolding join
joined [] = none
joined (t ∷ ts) = some (join (codes "\n\n") (t ∷ ts))

-- `convertAnthropicSystemToResponsesInstructions`; `none` is nil
unfoldable pub convert_anthropic_system_to_responses_instructions : Json → Option Text
unfolding is_empty trim_space list_of system_texts join
convert_anthropic_system_to_responses_instructions (string s) = if is_blank s then none else some s
convert_anthropic_system_to_responses_instructions (array vs) = joined (system_texts (list_of vs))
convert_anthropic_system_to_responses_instructions v = none

-- `convertResponsesInstructionsToAnthropicSystem`; `none` is nil
unfoldable pub convert_responses_instructions_to_anthropic_system : Json → Option Text
unfolding as_string trim_space is_empty
convert_responses_instructions_to_anthropic_system v =
    let text = trim_space (as_string v) in if is_empty text then none else some text

-- A member that is moved, if it is there.
unfoldable pub move : Text → Text → Object → Object
unfolding lookup put remove
move from to m = elim (lookup from m) [ none ↦ m | some v ↦ remove from (put to v m) ]

-- A member that is converted in place, if it is there.
unfoldable pub convert_at : Text → (Json → Json) → Object → Object
unfolding lookup put
convert_at key f m = elim (lookup key m) [ none ↦ m | some v ↦ put key (f v) m ]

-- A member that is moved as a text, and dropped where its text is nil.
unfoldable pub move_text : Text → Text → (Json → Option Text) → Object → Object
unfolding lookup put remove
move_text from to f m = elim (lookup from m) [
  | none ↦ m
  | some v ↦ remove from (elim (f v) [ none ↦ m | some t ↦ put to (string t) m ])
]

-- What `ConvertMessagesToResponsesRequest` does to the payload.
unfoldable pub responses_request : Codec → Object → Object
unfolding get put remove move convert_at move_text convert_anthropic_messages_to_responses_input
    convert_anthropic_system_to_responses_instructions convert_anthropic_tools_to_responses_tools
    convert_anthropic_tool_choice_to_responses_tool_choice
responses_request codec p =
    let input = convert_anthropic_messages_to_responses_input codec (get (codes "messages") p) in
    let a = remove (codes "messages") (put (codes "input") input p) in
    let b =
      move_text (codes "system") (codes "instructions")
        convert_anthropic_system_to_responses_instructions a in
    let c = move (codes "max_tokens") (codes "max_output_tokens") b in
    let d = move (codes "stop_sequences") (codes "stop") c in
    let e = convert_at (codes "tools") convert_anthropic_tools_to_responses_tools d in
    let f =
      convert_at (codes "tool_choice") convert_anthropic_tool_choice_to_responses_tool_choice e in
    remove (codes "top_k") (remove (codes "thinking") f)

-- `ConvertMessagesToResponsesRequest`
unfoldable pub convert_messages_to_responses_request : Codec → Text → Option Text
unfolding decode_json_object responses_request mapping
convert_messages_to_responses_request codec body = elim (decode_json_object codec body) [
  | none ↦ none
  | some p ↦ some (codec.marshal (mapping (responses_request codec p)))
]

-- What `ConvertResponsesToMessagesRequest` does to the payload.
unfoldable pub messages_request : Codec → Object → Object
unfolding get put remove move convert_at move_text convert_responses_input_to_anthropic_messages
    convert_responses_instructions_to_anthropic_system convert_responses_tools_to_anthropic_tools
    convert_responses_tool_choice_to_anthropic_tool_choice slice message_json
messages_request codec p =
    let messages = convert_responses_input_to_anthropic_messages codec (get (codes "input") p) in
    let a = remove (codes "input") (put (codes "messages") (slice (map message_json messages)) p) in
    let b =
      move_text (codes "instructions") (codes "system")
        convert_responses_instructions_to_anthropic_system a in
    let c = move (codes "max_output_tokens") (codes "max_tokens") b in
    let d = move (codes "stop") (codes "stop_sequences") c in
    let e = convert_at (codes "tools") convert_responses_tools_to_anthropic_tools d in
    convert_at (codes "tool_choice") convert_responses_tool_choice_to_anthropic_tool_choice e

-- `ConvertResponsesToMessagesRequest`
unfoldable pub convert_responses_to_messages_request : Codec → Text → Option Text
unfolding decode_json_object messages_request mapping
convert_responses_to_messages_request codec body = elim (decode_json_object codec body) [
  | none ↦ none
  | some p ↦ some (codec.marshal (mapping (messages_request codec p)))
]

-- `requestStreams`; `none` is an error
unfoldable pub request_streams : Codec → Text → Option Bool
unfolding decode_json_object get
request_streams codec body = elim (decode_json_object codec body) [
  | none ↦ none
  | some p ↦ elim (get (codes "stream") p) [ boolean b ↦ some b | _ ↦ some false ]
]
