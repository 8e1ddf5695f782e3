-- ===== src/MessagesEvents.antt =====
-- internal/proxy/translate.go: the events that ConvertResponsesStreamToMessagesStream appends.
use token_gate.Base.{[], ◌∷◌, ℤ}
use token_gate.Json.{Json, string, Object, mapping, digits_of}
use token_gate.Text.{Text, codes}

-- The events that are appended, and how each one is written (`appendSSEJSON`).
pub data MessagesEvent : Type 0 where
  ping message_stop : MessagesEvent
  message_start : Object → MessagesEvent
  content_block_start content_block_stop : ℤ → MessagesEvent
  content_block_delta : ℤ → Text → MessagesEvent
  message_delta : Object → MessagesEvent
  stream_error : Text → MessagesEvent

abbrev pub typed : Text → Object → Text × Json
typed name rest = (name, mapping ((codes "type", string name) ∷ rest))

unfoldable pub messages_payload : MessagesEvent → Text × Json
unfolding mapping
messages_payload ping = typed (codes "ping") []
messages_payload message_stop = typed (codes "message_stop") []
messages_payload (message_start m) =
    typed (codes "message_start") ((codes "message", mapping m) ∷ [])
messages_payload (content_block_start i) = typed (codes "content_block_start") (
    (codes "index", digits_of i)
    ∷ (
      codes "content_block",
      mapping ((codes "type", string (codes "text")) ∷ (codes "text", string []) ∷ []),
    )
    ∷ [])
messages_payload (content_block_stop i) =
    typed (codes "content_block_stop") ((codes "index", digits_of i) ∷ [])
messages_payload (content_block_delta i text) = typed (codes "content_block_delta") (
    (codes "index", digits_of i)
    ∷ (
      codes "delta",
      mapping ((codes "type", string (codes "text_delta")) ∷ (codes "text", string text) ∷ []),
    )
    ∷ [])
messages_payload (message_delta rest) = typed (codes "message_delta") rest
messages_payload (stream_error message) = typed (codes "error") (
    (
      codes "error",
      mapping ((codes "type", string (codes "api_error")) ∷ (codes "message", string message) ∷ []),
    )
    ∷ [])
