-- ===== src/Conversation.antt =====
-- internal/proxy/translate.go: the messages of a request turned into the items of its input
-- (convertAnthropicMessagesToResponsesInput) and back (convertResponsesInputToAnthropicMessages).
pub mod Turns
pub mod Blocks
pub mod RoundTrip
use token_gate.Base.{Bool, none, some, List, [], ◌∷◌, ◌++◌, reverse, if◌then◌else◌}
use token_gate.Content.{
  type_of, typed_text, text_unless_empty, convert_responses_content_to_anthropic_content,
  convert_anthropic_content_block_to_responses_input_block, some_of,
  convert_anthropic_content_to_responses_input_blocks,
  convert_anthropic_tool_use_to_responses_function_call,
  convert_anthropic_tool_result_to_responses_function_call_output,
  convert_responses_function_call_to_anthropic_tool_use,
  convert_responses_function_call_output_to_anthropic_tool_result,
}
use token_gate.Json.{
  Json, string, array, object, Object, list_of, entries_of, slice, mapping, lookup, get, as_string,
  first_non_blank, Codec,
}
use token_gate.Text.{Text, codes, text_eq, is_empty, trim_space}

-- `appendMessage` of `convertAnthropicMessageToResponsesItems`
unfoldable pub message_items : Text → List Json → List Json
unfolding mapping slice
message_items role [] = []
message_items role (b ∷ bs) =
    mapping (
      (codes "type", string (codes "message"))
      ∷ (codes "role", string role)
      ∷ (codes "content", slice (b ∷ bs))
      ∷ [])
    ∷ []

-- What a block of content is: the cases of the `switch` on its type.
pub data BlockKind : Type 0 where
  is_tool_use is_tool_result is_other_block : BlockKind

unfoldable pub block_kind : Object → BlockKind
unfolding get as_string trim_space text_eq
block_kind m =
    if text_eq (type_of m) (codes "tool_use")
    then is_tool_use
    else if text_eq (type_of m) (codes "tool_result")
    then is_tool_result
    else is_other_block

-- A block that is an object: a call of a tool and its result are items of their own. What follows it
-- is a function of the blocks that no item has yet.
unfoldable pub block_items_of :
    Codec → Text → (List Json → List Json) → List Json → BlockKind → Object → List Json
unfolding message_items convert_anthropic_tool_use_to_responses_function_call
    convert_anthropic_tool_result_to_responses_function_call_output
    convert_anthropic_content_block_to_responses_input_block
block_items_of codec role rest pending is_tool_use m =
    message_items role pending
    ++ (convert_anthropic_tool_use_to_responses_function_call codec m ∷ rest [])
block_items_of codec role rest pending is_tool_result m =
    message_items role pending
    ++ (convert_anthropic_tool_result_to_responses_function_call_output m ∷ rest [])
block_items_of codec role rest pending is_other_block m =
    rest (pending ++ some_of (convert_anthropic_content_block_to_responses_input_block m))

-- The loop over the blocks of a message, with the blocks that no item has yet.
unfoldable pub block_items : Codec → Text → List Json → List Json → List Json
unfolding message_items block_kind entries_of block_items_of
block_items codec role pending [] = message_items role pending
block_items codec role pending (object m ∷ vs) =
    block_items_of codec role (λ p. block_items codec role p vs) pending (block_kind (entries_of m))
      (entries_of m)
block_items codec role pending (raw ∷ vs) = block_items codec role (pending ++ (raw ∷ [])) vs

-- `convertAnthropicMessageToResponsesItems`
unfoldable pub convert_anthropic_message_to_responses_items : Codec → Text → Json → List Json
unfolding message_items block_items list_of convert_anthropic_content_to_responses_input_blocks
convert_anthropic_message_to_responses_items codec role (array vs) =
    block_items codec role [] (list_of vs)
convert_anthropic_message_to_responses_items codec role v =
    message_items role (convert_anthropic_content_to_responses_input_blocks v)

abbrev pub role_of : Object → Text
unfolding first_non_blank get as_string
role_of m = first_non_blank (as_string (get (codes "role") m) ∷ codes "user" ∷ [])

unfoldable pub input_items : Codec → List Json → List Json
unfolding entries_of first_non_blank get as_string convert_anthropic_message_to_responses_items
input_items codec [] = []
input_items codec (object m ∷ vs) =
    convert_anthropic_message_to_responses_items codec (role_of (entries_of m))
      (get (codes "content") (entries_of m))
    ++ input_items codec vs
input_items codec (raw ∷ vs) = raw ∷ input_items codec vs

-- `convertAnthropicMessagesToResponsesInput`
unfoldable pub convert_anthropic_messages_to_responses_input : Codec → Json → Json
unfolding slice list_of input_items
convert_anthropic_messages_to_responses_input codec (array vs) =
    slice (input_items codec (list_of vs))
convert_anthropic_messages_to_responses_input codec v = v

-- A message that the converter appends: all of them have a role and a list of blocks. The messages
-- are kept with the last one first.
pub record ChatMessage : Type 0 where
  pub role : Text
  pub content : List Json

unfoldable pub message_json : ChatMessage → Json
unfolding mapping slice
message_json m = mapping ((codes "role", string m.role) ∷ (codes "content", slice m.content) ∷ [])

-- `anthropicUserMessage`
unfoldable pub anthropic_user_message : Text → ChatMessage
unfolding typed_text
anthropic_user_message text = record {
  role = codes "user";
  content = typed_text (codes "text") text ∷ [];
}

-- `lastAnthropicMessageWithRole`, of the last message
unfoldable pub has_role : Text → ChatMessage → Bool
unfolding first_non_blank text_eq
has_role role m = text_eq (first_non_blank (m.role ∷ codes "user" ∷ [])) role

-- Blocks added to the last message, if it has the role, or as a new message.
unfoldable pub add_blocks : Text → List Json → List ChatMessage → List ChatMessage
unfolding has_role
add_blocks role blocks [] = record { role = role; content = blocks } ∷ []
add_blocks role blocks (m ∷ ms) =
    if has_role role m
    then record m { content = m.content ++ blocks } ∷ ms
    else record { role = role; content = blocks } ∷ m ∷ ms

unfoldable pub add_unless_empty : Text → List Json → List ChatMessage → List ChatMessage
unfolding add_blocks
add_unless_empty role [] ms = ms
add_unless_empty role (b ∷ bs) ms = add_blocks role (b ∷ bs) ms

-- `appendAnthropicMessageContent`
unfoldable pub append_anthropic_message_content : Text → Json → List ChatMessage → List ChatMessage
unfolding list_of add_unless_empty
append_anthropic_message_content role (array vs) ms = add_unless_empty role (list_of vs) ms
append_anthropic_message_content role _ ms = ms

-- `appendAnthropicContentBlock`, of a block that is not nil
unfoldable pub append_anthropic_content_block : Text → Json → List ChatMessage → List ChatMessage
unfolding add_blocks
append_anthropic_content_block role block ms = add_blocks role (block ∷ []) ms

-- What an item of the input is: the cases of the `switch` on its type.
pub data ItemKind : Type 0 where
  is_function_call is_function_call_output is_other_item : ItemKind

unfoldable pub item_kind : Object → ItemKind
unfolding get as_string trim_space text_eq
item_kind m =
    if text_eq (type_of m) (codes "function_call")
    then is_function_call
    else if text_eq (type_of m) (codes "function_call_output")
    then is_function_call_output
    else is_other_item

unfoldable pub take_object : Codec → ItemKind → Object → List ChatMessage → List ChatMessage
unfolding lookup get as_string first_non_blank text_unless_empty append_anthropic_content_block
    append_anthropic_message_content add_unless_empty
    convert_responses_function_call_to_anthropic_tool_use
    convert_responses_function_call_output_to_anthropic_tool_result
    convert_responses_content_to_anthropic_content
take_object codec is_function_call m ms =
    append_anthropic_content_block (codes "assistant")
      (convert_responses_function_call_to_anthropic_tool_use codec m) ms
take_object codec is_function_call_output m ms =
    append_anthropic_content_block (codes "user")
      (convert_responses_function_call_output_to_anthropic_tool_result m) ms
take_object codec is_other_item m ms = elim (lookup (codes "content") m) [
  | some v ↦
      append_anthropic_message_content (role_of m)
        (convert_responses_content_to_anthropic_content v) ms
  | none ↦
      let text = as_string (get (codes "text") m) in
      add_unless_empty (role_of m) (text_unless_empty (codes "text") text) ms
]

-- The body of the loop over the input.
unfoldable pub take_item : Codec → Json → List ChatMessage → List ChatMessage
unfolding anthropic_user_message entries_of item_kind take_object
take_item codec (string text) ms = anthropic_user_message text ∷ ms
take_item codec (object m) ms = take_object codec (item_kind (entries_of m)) (entries_of m) ms
take_item codec _ ms = ms

unfoldable pub take_items : Codec → List Json → List ChatMessage → List ChatMessage
unfolding take_item
take_items codec [] ms = ms
take_items codec (v ∷ vs) ms = take_items codec vs (take_item codec v ms)

-- `convertResponsesInputToAnthropicMessages`
unfoldable pub convert_responses_input_to_anthropic_messages : Codec → Json → List ChatMessage
unfolding list_of take_items anthropic_user_message as_string is_empty
convert_responses_input_to_anthropic_messages codec (string text) = anthropic_user_message text ∷ []
convert_responses_input_to_anthropic_messages codec (array vs) =
    reverse (take_items codec (list_of vs) [])
convert_responses_input_to_anthropic_messages codec v =
    let text = as_string v in if is_empty text then [] else anthropic_user_message text ∷ []
