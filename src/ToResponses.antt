-- ===== src/ToResponses.antt =====
-- internal/proxy/translate.go, ConvertMessagesStreamToResponsesStream: the events of the Messages
-- protocol turned into those of the Responses protocol.
pub mod Grammar
pub mod Upstream
pub mod Arrivals
pub mod Parts
pub mod Ends
pub mod Whole
pub mod SentDeltas
pub mod Deltas
use token_gate.Base.{
  Bool, true, false, Option, none, some, List, [], ◌∷◌, ◌++◌, map, if◌then◌else◌, and_then, ℤ,
}
use token_gate.Json.{
  Json, null_value, string, Object, slice, get, as_string, as_object, int_value, first_non_blank,
  Codec,
}
use token_gate.ResponsesEvents.{
  OutputItem, ResponsesEvent, response_begun, item_added, part_added, text_delta, text_done,
  part_done, item_done, response_ended, open_ai_error, responses_payload,
}
use token_gate.Sse.{SseEvent, parse_sse_stream, marshal_sse_stream}
use token_gate.Streams.{
  BlockMap, block_at, set_block, ordered_block_indexes, Decoding, malformed, nothing_sent, payload,
  decode_sse_json, is_ping, event_type, normalize_usage_object, is_anthropic_text_block,
  open_ai_error_payload, optional_member,
}
use token_gate.Text.{Text, codes, text_eq, is_empty, trim_space}
use token_gate.ToMessages.{written_event}

-- `messagesToResponsesStreamState`, with the events appended so far.
pub record ToResponses : Type 0 where
  pub response_id : Text
  pub item_id : Text
  pub model : Text
  pub role : Text
  pub usage : Option Object
  pub stop_reason : Text
  pub stop_seq : Json
  pub created : Bool
  pub added : Bool
  pub blocks : BlockMap
  pub out : List ResponsesEvent

abbrev pub append_event : ResponsesEvent → ToResponses → ToResponses
append_event e s = record s { out = s.out ++ (e ∷ []) }

unfoldable pub created_response : ToResponses → Object
unfolding slice
created_response s =
    (codes "id", string s.response_id)
    ∷ (codes "object", string (codes "response"))
    ∷ (codes "model", string s.model)
    ∷ (codes "status", string (codes "in_progress"))
    ∷ (codes "output", slice [])
    ∷ optional_member (codes "usage") s.usage

unfoldable pub ensure_responses_created : ToResponses → ToResponses
unfolding created_response
ensure_responses_created s =
    if s.created
    then s
    else record (append_event (response_begun (created_response s)) s) { created = true }

abbrev pub role_or_assistant : ToResponses → Text
unfolding first_non_blank
role_or_assistant s = first_non_blank (s.role ∷ codes "assistant" ∷ [])

-- The identifier of the item, set where it is empty.
abbrev pub with_item_id : ToResponses → ToResponses
unfolding is_empty
with_item_id s = record s { item_id = if is_empty s.item_id then s.response_id else s.item_id }

unfoldable pub ensure_responses_output_item_added : ToResponses → ToResponses
unfolding first_non_blank is_empty
ensure_responses_output_item_added s =
    let q = with_item_id s in
    if s.added
    then s
    else record (append_event (item_added q.item_id (role_or_assistant q)) q) { added = true }

unfoldable pub ensure_responses_content_part_added : ℤ → ToResponses → ToResponses
unfolding block_at set_block
ensure_responses_content_part_added i s =
    let block = block_at i s.blocks in
    if block.started then s else record (append_event (part_added s.item_id i) s) {
      blocks = set_block i (record block { started = true; is_open = true }) s.blocks;
    }

-- A block that is open is closed, with two events.
unfoldable pub close_part : ℤ → ToResponses → ToResponses
unfolding block_at set_block
close_part i s =
    let block = block_at i s.blocks in
    if block.is_open
    then record (append_event (part_done s.item_id i block.text)
        (append_event (text_done s.item_id i block.text) s)) {
          blocks = set_block i (record block { is_open = false }) s.blocks;
        }
    else s

unfoldable pub close_parts : List ℤ → ToResponses → ToResponses
unfolding close_part
close_parts [] s = s
close_parts (i ∷ is) s = close_parts is (close_part i s)

unfoldable pub close_open_responses_blocks : ToResponses → ToResponses
unfolding close_parts ordered_block_indexes
close_open_responses_blocks s = close_parts (ordered_block_indexes s.blocks) s

-- The texts of the blocks, in the order of their indexes.
unfoldable pub block_texts : BlockMap → List Text
block_texts [] = []
block_texts ((i, b) ∷ bs) = b.text ∷ block_texts bs

unfoldable pub build_responses_output_item : ToResponses → OutputItem
unfolding block_texts first_non_blank
build_responses_output_item s = record {
  id = s.item_id;
  role = role_or_assistant s;
  texts = block_texts s.blocks;
}

-- The two calls that come before every event on a block.
abbrev pub ensure_item : ToResponses → ToResponses
ensure_item s = ensure_responses_output_item_added (ensure_responses_created s)

abbrev pub ensure_part : ℤ → ToResponses → ToResponses
ensure_part i s = ensure_responses_content_part_added i (ensure_item s)

-- What the start of a message sets.
unfoldable pub message_state : Object → ToResponses → ToResponses
unfolding first_non_blank get as_string normalize_usage_object
message_state m s =
    let id = as_string (get (codes "id") m) in
    let response_id = first_non_blank (id ∷ s.response_id ∷ []) in
    record s {
      response_id = response_id;
      item_id = first_non_blank (id ∷ s.item_id ∷ response_id ∷ []);
      model = first_non_blank (as_string (get (codes "model") m) ∷ s.model ∷ []);
      role = first_non_blank (as_string (get (codes "role") m) ∷ s.role ∷ codes "assistant" ∷ []);
      usage = normalize_usage_object (get (codes "usage") m);
    }

-- "message_start"
unfoldable pub on_message_start : Object → ToResponses → ToResponses
unfolding get as_object message_state ensure_responses_created ensure_responses_output_item_added
on_message_start p s = ensure_item (message_state (as_object (get (codes "message") p)) s)

unfoldable pub block_index : Object → ℤ
unfolding get int_value
block_index p = int_value (get (codes "index") p)

-- "content_block_start"
unfoldable pub on_block_start : Object → ToResponses → ToResponses
unfolding get as_object is_anthropic_text_block ensure_responses_created
    ensure_responses_output_item_added ensure_responses_content_part_added block_index
on_block_start p s =
    if is_anthropic_text_block (as_object (get (codes "content_block") p))
    then ensure_part (block_index p) s
    else s

-- The text of a block grows, with an event.
unfoldable pub grow_part : ℤ → Text → ToResponses → ToResponses
unfolding block_at set_block
grow_part i text s =
    let block = block_at i s.blocks in
    append_event (text_delta s.item_id i text)
      (record s { blocks = set_block i (record block { text = block.text ++ text }) s.blocks })

-- The text of a delta of text; it is empty for any other delta.
unfoldable pub delta_text : Object → Text
unfolding get as_object as_string trim_space text_eq
delta_text p =
    let d = as_object (get (codes "delta") p) in
    if text_eq (trim_space (as_string (get (codes "type") d))) (codes "text_delta")
    then as_string (get (codes "text") d)
    else []

-- "content_block_delta"
unfoldable pub on_block_delta : Object → ToResponses → ToResponses
unfolding is_empty delta_text ensure_responses_created ensure_responses_output_item_added
    ensure_responses_content_part_added block_index grow_part
on_block_delta p s =
    if is_empty (delta_text p)
    then s
    else grow_part (block_index p) (delta_text p) (ensure_part (block_index p) s)

-- "content_block_stop"
unfoldable pub on_block_stop : Object → ToResponses → ToResponses
unfolding ensure_responses_created ensure_responses_output_item_added
    ensure_responses_content_part_added block_index close_part
on_block_stop p s = close_part (block_index p) (ensure_part (block_index p) s)

abbrev pub newer : Option Object → Option Object → Option Object
newer (some m) old = some m
newer none old = old

-- "message_delta"
unfoldable pub on_message_delta : Object → ToResponses → ToResponses
unfolding first_non_blank get as_object as_string normalize_usage_object
on_message_delta p s =
    let d = as_object (get (codes "delta") p) in
    record s {
      stop_reason = first_non_blank (as_string (get (codes "stop_reason") d) ∷ s.stop_reason ∷ []);
      stop_seq = get (codes "stop_sequence") d;
      usage = newer (normalize_usage_object (get (codes "usage") p)) s.usage;
    }

-- A member that is there unless its value is nil.
abbrev pub member_unless_nil : Text → Json → Object
member_unless_nil key null_value = []
member_unless_nil key v = (key, v) ∷ []

unfoldable pub ended_rest : ToResponses → Object
unfolding is_empty
ended_rest s =
    optional_member (codes "usage") s.usage
    ++ ((if is_empty s.stop_reason then [] else (codes "stop_reason", string s.stop_reason) ∷ [])
        ++ member_unless_nil (codes "stop_sequence") s.stop_seq)

-- The two events that end the response.
unfoldable pub end_response : ToResponses → ToResponses
unfolding build_responses_output_item ended_rest
end_response s =
    let it = build_responses_output_item s in
    append_event (response_ended s.response_id s.model it (ended_rest s))
      (append_event (item_done it) s)

-- "message_stop"
unfoldable pub on_message_stop : ToResponses → ToResponses
unfolding ensure_responses_created ensure_responses_output_item_added close_open_responses_blocks
    end_response
on_message_stop s = end_response (close_open_responses_blocks (ensure_item s))

-- The cases of the `switch` on the type of an event.
pub data MessagesKind : Type 0 where
  at_message_start at_block_start at_block_delta at_block_stop : MessagesKind
  at_message_delta at_message_stop at_error at_unknown : MessagesKind

unfoldable pub messages_kind : Text → MessagesKind
unfolding text_eq
messages_kind kind =
    if text_eq kind (codes "message_start")
    then at_message_start
    else if text_eq kind (codes "content_block_start")
    then at_block_start
    else if text_eq kind (codes "content_block_delta")
    then at_block_delta
    else if text_eq kind (codes "content_block_stop")
    then at_block_stop
    else if text_eq kind (codes "message_delta")
    then at_message_delta
    else if text_eq kind (codes "message_stop")
    then at_message_stop
    else if text_eq kind (codes "error")
    then at_error
    else at_unknown

unfoldable pub handle_kind : MessagesKind → Object → ToResponses → ToResponses
unfolding on_message_start on_block_start on_block_delta on_block_stop on_message_delta
    on_message_stop open_ai_error_payload
handle_kind at_message_start p s = on_message_start p s
handle_kind at_block_start p s = on_block_start p s
handle_kind at_block_delta p s = on_block_delta p s
handle_kind at_block_stop p s = on_block_stop p s
handle_kind at_message_delta p s = on_message_delta p s
handle_kind at_message_stop p s = on_message_stop s
handle_kind at_error p s = append_event (open_ai_error (open_ai_error_payload p)) s
handle_kind at_unknown p s = s

-- What follows the decoding of an event; `none` is an error.
unfoldable pub convert_decoded : SseEvent → Decoding → ToResponses → Option ToResponses
unfolding event_type messages_kind handle_kind
convert_decoded e malformed s = none
convert_decoded e nothing_sent s = some s
convert_decoded e (payload p) s = some (handle_kind (messages_kind (event_type p e)) p s)

-- The body of the loop.
unfoldable pub convert_event : Codec → SseEvent → ToResponses → Option ToResponses
unfolding is_ping decode_sse_json convert_decoded
convert_event codec e s =
    if is_ping e.event then some s else convert_decoded e (decode_sse_json codec e.data_text) s

unfoldable pub convert_events : Codec → List SseEvent → ToResponses → Option ToResponses
unfolding convert_event
convert_events codec [] s = some s
convert_events codec (e ∷ es) s = and_then (convert_events codec es) (convert_event codec e s)

abbrev pub first_state : ToResponses
first_state = record {
  response_id = [];
  item_id = [];
  model = [];
  role = codes "assistant";
  usage = none;
  stop_reason = [];
  stop_seq = null_value;
  created = false;
  added = false;
  blocks = [];
  out = [];
}

-- `ConvertMessagesStreamToResponsesStream`
unfoldable pub convert_messages_stream_to_responses_stream : Codec → Text → Option Text
unfolding parse_sse_stream convert_events marshal_sse_stream responses_payload written_event
convert_messages_stream_to_responses_stream codec body = elim (parse_sse_stream body) [
  | none ↦ none
  | some es ↦ elim (convert_events codec es first_state) [
    | none ↦ none
    | some s ↦
        some (marshal_sse_stream (map (λ e. written_event codec (responses_payload e)) s.out))
  ]
]
