-- ===== src/ToMessages.antt =====
-- internal/proxy/translate.go, ConvertResponsesStreamToMessagesStream: the events of the Responses
-- protocol turned into those of the Messages protocol.
pub mod Grammar
pub mod Upstream
pub mod Arrivals
pub mod Blocks
pub mod Stops
pub mod Order
use token_gate.Base.{
  Bool, true, false, ◌||◌, Option, none, some, List, [], ◌∷◌, ◌++◌, map, if◌then◌else◌, and_then, ℤ,
}
use token_gate.Json.{
  Json, null_value, string, Object, items_of, slice, mapping, get, as_string, as_object, int_value,
  first_non_blank, Codec,
}
use token_gate.MessagesEvents.{
  MessagesEvent, ping, message_stop, message_start, content_block_start, content_block_stop,
  content_block_delta, message_delta, stream_error, messages_payload,
}
use token_gate.Sse.{SseEvent, parse_sse_stream, marshal_sse_stream}
use token_gate.Streams.{
  BlockMap, block_at, set_block, ordered_block_indexes, Decoding, malformed, nothing_sent, payload,
  decode_sse_json, is_ping, event_type, normalize_usage_object, is_responses_text_part,
  anthropic_error_message, optional_member,
}
use token_gate.Text.{Text, codes, text_eq, is_empty}

-- `responsesToMessagesStreamState`, with the events appended so far.
pub record ToMessages : Type 0 where
  pub message_id : Text
  pub model : Text
  pub role : Text
  pub start_usage : Option Object
  pub message_started : Bool
  pub blocks : BlockMap
  pub out : List MessagesEvent

abbrev pub emit : MessagesEvent → ToMessages → ToMessages
emit e s = record s { out = s.out ++ (e ∷ []) }

abbrev pub present : Text → Text → Object
present key [] = []
present key (c ∷ s) = (key, string (c ∷ s)) ∷ []

unfoldable pub start_message : ToMessages → Object
unfolding first_non_blank items_of
start_message s =
    (codes "type", string (codes "message"))
    ∷ (codes "role", string (first_non_blank (s.role ∷ codes "assistant" ∷ [])))
    ∷ (codes "content", slice [])
    ∷ (codes "stop_reason", null_value)
    ∷ (codes "stop_sequence", null_value)
    ∷ (present (codes "id") s.message_id
        ++ (present (codes "model") s.model ++ optional_member (codes "usage") s.start_usage))

unfoldable pub ensure_anthropic_message_start : ToMessages → ToMessages
unfolding start_message
ensure_anthropic_message_start s =
    if s.message_started
    then s
    else record (emit (message_start (start_message s)) s) { message_started = true }

unfoldable pub ensure_anthropic_content_block_start : ℤ → ToMessages → ToMessages
unfolding block_at set_block
ensure_anthropic_content_block_start i s =
    let block = block_at i s.blocks in
    if block.started then s else record (emit (content_block_start i) s) {
      blocks = set_block i (record block { started = true; is_open = true }) s.blocks;
    }

-- A block that is open is closed, with an event.
unfoldable pub close_block : ℤ → ToMessages → ToMessages
unfolding block_at set_block
close_block i s =
    let block = block_at i s.blocks in
    if block.is_open
    then record (emit (content_block_stop i) s) {
      blocks = set_block i (record block { is_open = false }) s.blocks;
    }
    else s

unfoldable pub close_blocks : List ℤ → ToMessages → ToMessages
unfolding close_block
close_blocks [] s = s
close_blocks (i ∷ is) s = close_blocks is (close_block i s)

unfoldable pub close_open_anthropic_blocks : ToMessages → ToMessages
unfolding close_blocks ordered_block_indexes
close_open_anthropic_blocks s = close_blocks (ordered_block_indexes s.blocks) s

-- `block.text` set to a text, if that is not empty; the block is there afterwards.
unfoldable pub set_text : ℤ → Text → ToMessages → ToMessages
unfolding block_at set_block is_empty
set_text i text s =
    let block = block_at i s.blocks in
    record s {
      blocks = set_block i (if is_empty text then block else record block { text = text }) s.blocks;
    }

-- What a response that is created sets.
unfoldable pub created_state : Object → ToMessages → ToMessages
unfolding first_non_blank get as_string normalize_usage_object
created_state resp s = record s {
  message_id = first_non_blank (as_string (get (codes "id") resp) ∷ s.message_id ∷ []);
  model = first_non_blank (as_string (get (codes "model") resp) ∷ s.model ∷ []);
  start_usage = normalize_usage_object (get (codes "usage") resp);
}

-- "response.created"
unfoldable pub response_created : Object → ToMessages → ToMessages
unfolding get as_object created_state ensure_anthropic_message_start
response_created p s =
    ensure_anthropic_message_start (created_state (as_object (get (codes "response") p)) s)

-- "response.output_item.added"
unfoldable pub output_item_added : Object → ToMessages → ToMessages
unfolding first_non_blank get as_string as_object is_empty
output_item_added p s =
    let it = as_object (get (codes "item") p) in
    record s {
      role = first_non_blank (as_string (get (codes "role") it) ∷ s.role ∷ codes "assistant" ∷ []);
      message_id = if is_empty s.message_id then as_string (get (codes "id") it) else s.message_id;
    }

unfoldable pub content_index : Object → ℤ
unfolding get int_value
content_index p = int_value (get (codes "content_index") p)

-- "response.content_part.added"
unfoldable pub content_part_added : Object → ToMessages → ToMessages
unfolding get as_object is_responses_text_part ensure_anthropic_message_start
    ensure_anthropic_content_block_start content_index
content_part_added p s =
    if is_responses_text_part (as_object (get (codes "part") p))
    then ensure_anthropic_content_block_start (content_index p) (ensure_anthropic_message_start s)
    else s

-- The text of a block grows by a delta.
unfoldable pub append_delta : ℤ → Text → ToMessages → ToMessages
unfolding block_at set_block
append_delta i delta s =
    let block = block_at i s.blocks in
    emit (content_block_delta i delta)
      (record s { blocks = set_block i (record block { text = block.text ++ delta }) s.blocks })

-- "response.output_text.delta"
unfoldable pub output_text_delta : Object → ToMessages → ToMessages
unfolding get as_string is_empty ensure_anthropic_message_start ensure_anthropic_content_block_start
    content_index append_delta
output_text_delta p s =
    let delta = as_string (get (codes "delta") p) in
    let i = content_index p in
    if is_empty delta
    then s
    else append_delta i delta
        (ensure_anthropic_content_block_start i (ensure_anthropic_message_start s))

-- "response.output_text.done"
unfoldable pub output_text_done : Object → ToMessages → ToMessages
unfolding get as_string content_index set_text
output_text_done p s = set_text (content_index p) (as_string (get (codes "text") p)) s

-- The text of a part that is done, empty where the part is no text.
unfoldable pub part_text : Object → Text
unfolding get as_string is_responses_text_part
part_text part = if is_responses_text_part part then as_string (get (codes "text") part) else []

-- "response.content_part.done"
unfoldable pub content_part_done : Object → ToMessages → ToMessages
unfolding get as_object content_index set_text part_text close_block
content_part_done p s =
    let i = content_index p in
    close_block i (set_text i (part_text (as_object (get (codes "part") p))) s)

abbrev pub or_else : Option Object → Option Object → Option Object
or_else (some m) old = some m
or_else none old = old

unfoldable pub completed_delta : Object → Object
unfolding first_non_blank get as_string normalize_usage_object mapping
completed_delta resp =
    let reason =
      first_non_blank (as_string (get (codes "stop_reason") resp) ∷ codes "end_turn" ∷ []) in
    (
      codes "delta",
      mapping (
          (codes "stop_reason", string reason)
          ∷ (codes "stop_sequence", get (codes "stop_sequence") resp)
          ∷ []),
    )
    ∷ optional_member (codes "usage") (normalize_usage_object (get (codes "usage") resp))

-- What a response that is completed sets.
unfoldable pub completed_state : Object → ToMessages → ToMessages
unfolding first_non_blank get as_string normalize_usage_object
completed_state resp s = record s {
  message_id = first_non_blank (as_string (get (codes "id") resp) ∷ s.message_id ∷ []);
  model = first_non_blank (as_string (get (codes "model") resp) ∷ s.model ∷ []);
  start_usage = or_else (normalize_usage_object (get (codes "usage") resp)) s.start_usage;
}

-- The message is started if it is not, its blocks are closed, and it ends.
unfoldable pub finish_message : Object → ToMessages → ToMessages
unfolding ensure_anthropic_message_start close_open_anthropic_blocks
finish_message rest s =
    emit message_stop
      (emit (message_delta rest) (close_open_anthropic_blocks (ensure_anthropic_message_start s)))

-- "response.completed"
unfoldable pub response_completed : Object → ToMessages → ToMessages
unfolding get as_object completed_delta completed_state finish_message
response_completed p s =
    let resp = as_object (get (codes "response") p) in
    finish_message (completed_delta resp) (completed_state resp s)

-- The cases of the `switch` on the type of an event.
pub data ResponsesKind : Type 0 where
  is_created is_item_added is_part_added is_delta is_text_done : ResponsesKind
  is_part_done is_completed is_failure is_unknown : ResponsesKind

unfoldable pub responses_kind : Text → ResponsesKind
unfolding text_eq
responses_kind kind =
    if text_eq kind (codes "response.created")
    then is_created
    else if text_eq kind (codes "response.output_item.added")
    then is_item_added
    else if text_eq kind (codes "response.content_part.added")
    then is_part_added
    else if text_eq kind (codes "response.output_text.delta")
    then is_delta
    else if text_eq kind (codes "response.output_text.done")
    then is_text_done
    else if text_eq kind (codes "response.content_part.done")
    then is_part_done
    else if text_eq kind (codes "response.completed")
    then is_completed
    else if text_eq kind (codes "response.failed") || text_eq kind (codes "error")
    then is_failure
    else is_unknown

unfoldable pub handle : ResponsesKind → Object → ToMessages → ToMessages
unfolding response_created output_item_added content_part_added output_text_delta output_text_done
    content_part_done response_completed anthropic_error_message
handle is_created p s = response_created p s
handle is_item_added p s = output_item_added p s
handle is_part_added p s = content_part_added p s
handle is_delta p s = output_text_delta p s
handle is_text_done p s = output_text_done p s
handle is_part_done p s = content_part_done p s
handle is_completed p s = response_completed p s
handle is_failure p s = emit (stream_error (anthropic_error_message p)) s
handle is_unknown p s = s

-- What follows the decoding of an event; `none` is an error.
unfoldable pub take_decoded : SseEvent → Decoding → ToMessages → Option ToMessages
unfolding event_type responses_kind handle
take_decoded e malformed s = none
take_decoded e nothing_sent s = some s
take_decoded e (payload p) s = some (handle (responses_kind (event_type p e)) p s)

-- The body of the loop.
unfoldable pub take_event : Codec → SseEvent → ToMessages → Option ToMessages
unfolding is_ping decode_sse_json take_decoded
take_event codec e s =
    if is_ping e.event
    then some (emit ping s)
    else take_decoded e (decode_sse_json codec e.data_text) s

unfoldable pub take_events : Codec → List SseEvent → ToMessages → Option ToMessages
unfolding take_event
take_events codec [] s = some s
take_events codec (e ∷ es) s = and_then (take_events codec es) (take_event codec e s)

abbrev pub fresh_state : ToMessages
fresh_state = record {
  message_id = [];
  model = [];
  role = codes "assistant";
  start_usage = none;
  message_started = false;
  blocks = [];
  out = [];
}

unfoldable pub written_event : Codec → Text × Json → SseEvent
written_event codec (name, v) = record { event = name; data_text = codec.marshal v }

-- `ConvertResponsesStreamToMessagesStream`
unfoldable pub convert_responses_stream_to_messages_stream : Codec → Text → Option Text
unfolding parse_sse_stream take_events marshal_sse_stream messages_payload written_event
convert_responses_stream_to_messages_stream codec body = elim (parse_sse_stream body) [
  | none ↦ none
  | some es ↦ elim (take_events codec es fresh_state) [
    | none ↦ none
    | some s ↦ some (marshal_sse_stream (map (λ e. written_event codec (messages_payload e)) s.out))
  ]
]
