-- ===== src/Replies.antt =====
-- internal/proxy/translate.go: a response that is no stream, turned from the form of one protocol
-- into that of the other.
use token_gate.Base.{◌||◌, Option, none, some, List, [], ◌∷◌, ◌++◌, if◌then◌else◌}
use token_gate.Content.{
  type_of, typed_text, text_unless_blank, text_unless_empty,
  convert_responses_content_to_anthropic_content,
  convert_responses_function_call_to_anthropic_tool_use,
}
use token_gate.Json.{
  Json, string, array, object, Object, list_of, entries_of, slice, mapping, to_slice, get,
  as_string, first_non_blank, Codec, decode_json_object,
}
use token_gate.Requests.{renamed}
use token_gate.Text.{Text, codes, text_eq, is_empty, trim_space}

-- What an item of the output is: the cases of the `switch` on its type.
pub data OutputKind : Type 0 where
  is_message is_call is_text is_ignored : OutputKind

unfoldable pub output_kind : Object → OutputKind
unfolding get as_string trim_space text_eq
output_kind it =
    let kind = type_of it in
    if text_eq kind (codes "message")
    then is_message
    else if text_eq kind (codes "function_call")
    then is_call
    else if text_eq kind (codes "output_text") || text_eq kind (codes "text")
    then is_text
    else is_ignored

abbrev pub slice_or_none : Option (List Json) → List Json
slice_or_none none = []
slice_or_none (some vs) = vs

unfoldable pub output_content : Codec → OutputKind → Object → List Json
unfolding get as_string to_slice text_unless_blank convert_responses_content_to_anthropic_content
    convert_responses_function_call_to_anthropic_tool_use
output_content codec is_message it =
    slice_or_none
      (to_slice (convert_responses_content_to_anthropic_content (get (codes "content") it)))
output_content codec is_call it =
    convert_responses_function_call_to_anthropic_tool_use codec it ∷ []
output_content codec is_text it =
    text_unless_blank (codes "text") (as_string (get (codes "text") it))
output_content codec is_ignored it = []

unfoldable pub output_contents : Codec → List Json → List Json
unfolding entries_of output_kind output_content
output_contents codec [] = []
output_contents codec (object m ∷ vs) =
    output_content codec (output_kind (entries_of m)) (entries_of m) ++ output_contents codec vs
output_contents codec (raw ∷ vs) = output_contents codec vs

-- `convertResponsesOutputToAnthropicContent`
unfoldable pub convert_responses_output_to_anthropic_content : Codec → Json → List Json
unfolding list_of output_contents
convert_responses_output_to_anthropic_content codec (array vs) = output_contents codec (list_of vs)
convert_responses_output_to_anthropic_content codec v = []

-- The text of an output that has no content.
unfoldable pub or_output_text : Object → List Json → List Json
unfolding get as_string trim_space text_unless_empty
or_output_text p [] =
    text_unless_empty (codes "text") (trim_space (as_string (get (codes "output_text") p)))
or_output_text p (b ∷ bs) = b ∷ bs

unfoldable pub stop_reason_of : Object → Text
unfolding get as_string trim_space is_empty
stop_reason_of p =
    let reason = trim_space (as_string (get (codes "stop_reason") p)) in
    if is_empty reason then codes "end_turn" else reason

-- What `ConvertResponsesResponseToMessagesResponse` makes of the payload.
unfoldable pub messages_response : Codec → Object → Object
unfolding get slice renamed or_output_text convert_responses_output_to_anthropic_content
    stop_reason_of
messages_response codec p =
    let content =
      or_output_text p
        (convert_responses_output_to_anthropic_content codec (get (codes "output") p)) in
    (codes "id", get (codes "id") p)
    ∷ (codes "type", string (codes "message"))
    ∷ (codes "role", string (codes "assistant"))
    ∷ (codes "model", get (codes "model") p)
    ∷ (codes "content", slice content)
    ∷ (codes "stop_reason", string (stop_reason_of p))
    ∷ (renamed (codes "usage") (codes "usage") p
        ++ renamed (codes "stop_sequence") (codes "stop_sequence") p)

-- `ConvertResponsesResponseToMessagesResponse`
unfoldable pub convert_responses_response_to_messages_response : Codec → Text → Option Text
unfolding decode_json_object messages_response mapping
convert_responses_response_to_messages_response codec body = elim (decode_json_object codec body) [
  | none ↦ none
  | some p ↦ some (codec.marshal (mapping (messages_response codec p)))
]

-- Content that is no list is a text.
unfoldable pub output_blocks : List Json → List Json
unfolding entries_of get as_string trim_space text_eq typed_text
output_blocks [] = []
output_blocks (object m ∷ vs) =
    (if text_eq (type_of (entries_of m)) (codes "text")
      then typed_text (codes "output_text") (as_string (get (codes "text") (entries_of m)))
      else object m)
    ∷ output_blocks vs
output_blocks (raw ∷ vs) = output_blocks vs

-- `convertAnthropicContentToResponsesOutputContent`
unfoldable pub convert_anthropic_content_to_responses_output_content : Json → List Json
unfolding list_of output_blocks text_unless_empty as_string trim_space
convert_anthropic_content_to_responses_output_content (array vs) = output_blocks (list_of vs)
convert_anthropic_content_to_responses_output_content v =
    text_unless_empty (codes "output_text") (trim_space (as_string v))

-- What `ConvertMessagesResponseToResponsesResponse` makes of the payload.
unfoldable pub responses_response : Object → Object
unfolding get slice mapping as_string first_non_blank renamed
    convert_anthropic_content_to_responses_output_content
responses_response p =
    let role = first_non_blank (as_string (get (codes "role") p) ∷ codes "assistant" ∷ []) in
    (codes "id", get (codes "id") p)
    ∷ (codes "object", string (codes "response"))
    ∷ (codes "model", get (codes "model") p)
    ∷ (
      codes "output",
      slice (
          mapping (
            (codes "type", string (codes "message"))
            ∷ (codes "role", string role)
            ∷ (
              codes "content",
              slice
                  (convert_anthropic_content_to_responses_output_content (get (codes "content") p)),
            )
            ∷ [])
          ∷ []),
    )
    ∷ (codes "status", string (codes "completed"))
    ∷ renamed (codes "usage") (codes "usage") p

-- `ConvertMessagesResponseToResponsesResponse`
unfoldable pub convert_messages_response_to_responses_response : Codec → Text → Option Text
unfolding decode_json_object responses_response mapping
convert_messages_response_to_responses_response codec body = elim (decode_json_object codec body) [
  | none ↦ none
  | some p ↦ some (codec.marshal (mapping (responses_response p)))
]
