-- ===== src/ResponsesEvents.antt =====
-- internal/proxy/translate.go: the events that ConvertMessagesStreamToResponsesStream appends.
use token_gate.Base.{List, [], ◌∷◌, map, ℤ, pos}
use token_gate.Json.{Json, string, Object, slice, mapping, digits_of}
use token_gate.MessagesEvents.{typed}
use token_gate.Text.{Text, codes}

-- `buildResponsesOutputItem`: an item with the texts of its blocks
pub record OutputItem : Type 0 where
  pub id : Text
  pub role : Text
  pub texts : List Text

-- The events that are appended, and how each one is written (`appendSSEJSON`).
pub data ResponsesEvent : Type 0 where
  response_begun : Object → ResponsesEvent
  item_added : Text → Text → ResponsesEvent
  part_added : Text → ℤ → ResponsesEvent
  text_delta text_done part_done : Text → ℤ → Text → ResponsesEvent
  item_done : OutputItem → ResponsesEvent
  response_ended : Text → Text → OutputItem → Object → ResponsesEvent
  open_ai_error : Object → ResponsesEvent

unfoldable pub text_part : Text → Json
unfolding mapping slice
text_part text = mapping (
    (codes "type", string (codes "output_text"))
    ∷ (codes "text", string text)
    ∷ (codes "annotations", slice [])
    ∷ [])

unfoldable pub item_json : Text → Text → Text → List Json → Json
unfolding mapping slice
item_json status id role content = mapping (
    (codes "id", string id)
    ∷ (codes "status", string status)
    ∷ (codes "type", string (codes "message"))
    ∷ (codes "role", string role)
    ∷ (codes "content", slice content)
    ∷ [])

unfoldable pub output_item_json : OutputItem → Json
unfolding item_json text_part
output_item_json it = item_json (codes "completed") it.id it.role (map text_part it.texts)

-- The members of every event that is about a block.
abbrev pub about_block : Text → ℤ → Object → Object
about_block item_id i rest =
    (codes "item_id", string item_id)
    ∷ (codes "output_index", digits_of (pos 0))
    ∷ (codes "content_index", digits_of i)
    ∷ rest

unfoldable pub responses_payload : ResponsesEvent → Text × Json
unfolding mapping slice text_part item_json output_item_json
responses_payload (response_begun resp) =
    typed (codes "response.created") ((codes "response", mapping resp) ∷ [])
responses_payload (item_added id role) = typed (codes "response.output_item.added") (
    (codes "output_index", digits_of (pos 0))
    ∷ (codes "item", item_json (codes "in_progress") id role [])
    ∷ [])
responses_payload (part_added id i) =
    typed (codes "response.content_part.added")
      (about_block id i ((codes "part", text_part []) ∷ []))
responses_payload (text_delta id i text) =
    typed (codes "response.output_text.delta")
      (about_block id i ((codes "delta", string text) ∷ []))
responses_payload (text_done id i text) =
    typed (codes "response.output_text.done") (about_block id i ((codes "text", string text) ∷ []))
responses_payload (part_done id i text) =
    typed (codes "response.content_part.done")
      (about_block id i ((codes "part", text_part text) ∷ []))
responses_payload (item_done it) =
    typed (codes "response.output_item.done")
      ((codes "output_index", digits_of (pos 0)) ∷ (codes "item", output_item_json it) ∷ [])
responses_payload (response_ended id model it rest) = typed (codes "response.completed") (
    (
      codes "response",
      mapping (
          (codes "id", string id)
          ∷ (codes "object", string (codes "response"))
          ∷ (codes "model", string model)
          ∷ (codes "status", string (codes "completed"))
          ∷ (codes "output", slice (output_item_json it ∷ []))
          ∷ rest),
    )
    ∷ [])
responses_payload (open_ai_error p) = (codes "error", mapping p)
