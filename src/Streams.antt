-- ===== src/Streams.antt =====
-- internal/proxy/translate.go: what the two converters of event streams share: the blocks of text by
-- their index, the decoding of an event, and the payloads of errors. The map of blocks is kept in
-- the order of the indexes, which is the order of `orderedBlockIndexes`.
pub mod Blocks
pub mod Courses
pub mod Sent
use token_gate.Base.{
  ℕ, ◌+◌, Bool, false, ◌&&◌, ◌||◌, Option, none, some, List, [], ◌∷◌, map, leb, if◌then◌else◌, ℤ,
  ltb_ℤ, eq_ℤ,
}
use token_gate.Json.{
  Json, string, Object, mapping, to_mapping, get, as_string, as_object, first_non_blank, Codec,
  decode_json_object,
}
use token_gate.Sse.{SseEvent}
use token_gate.Text.{Text, codes, text_eq, is_empty, trim_space}

-- `streamTextBlock`
pub record TextBlock : Type 0 where
  pub text : Text
  pub started : Bool
  pub is_open : Bool

abbrev pub empty_block : TextBlock
empty_block = record { text = []; started = false; is_open = false }

abbrev pub BlockMap : Type 0
BlockMap = List (ℤ × TextBlock)

-- `ensureBlock`: the block at the index, or a fresh one
unfoldable pub block_at : ℤ → BlockMap → TextBlock
block_at i [] = empty_block
block_at i ((j, b) ∷ bs) = let rest = block_at i bs in if eq_ℤ j i then b else rest

unfoldable pub set_block : ℤ → TextBlock → BlockMap → BlockMap
set_block i b [] = (i, b) ∷ []
set_block i b ((j, c) ∷ bs) =
    let rest = set_block i b bs in
    if eq_ℤ j i then (j, b) ∷ bs else if ltb_ℤ i j then (i, b) ∷ (j, c) ∷ bs else (j, c) ∷ rest

-- `orderedBlockIndexes`
unfoldable pub ordered_block_indexes : BlockMap → List ℤ
ordered_block_indexes [] = []
ordered_block_indexes ((i, b) ∷ bs) = i ∷ ordered_block_indexes bs

-- What `decodeSSEJSON` gives: an error, nothing, or a payload.
pub data Decoding : Type 0 where
  malformed nothing_sent : Decoding
  payload : Object → Decoding

unfoldable pub decode_sse_json : Codec → Text → Decoding
unfolding is_empty trim_space text_eq decode_json_object
decode_sse_json codec text =
    let trimmed = trim_space text in
    if is_empty trimmed || text_eq trimmed (codes "[DONE]")
    then nothing_sent
    else elim (decode_json_object codec trimmed) [ none ↦ malformed | some p ↦ payload p ]

-- `strings.EqualFold(s, "ping")`: no letter beyond ASCII folds to one of these.
unfoldable pub ascii_lower : ℕ → ℕ
ascii_lower c = if leb b'A' c && leb c b'Z' then c + 32 else c

unfoldable pub is_ping : Text → Bool
unfolding text_eq ascii_lower
is_ping name = text_eq (map ascii_lower name) (codes "ping")

-- The type that an event is handled by.
unfoldable pub event_type : Object → SseEvent → Text
unfolding first_non_blank get as_string
event_type p e = first_non_blank (as_string (get (codes "type") p) ∷ e.event ∷ [])

-- `normalizeUsageObject`, and `initialAnthropicUsage` of it: a copy
unfoldable pub normalize_usage_object : Json → Option Object
unfolding to_mapping
normalize_usage_object v = to_mapping v

-- `isResponsesTextPart`
unfoldable pub is_responses_text_part : Object → Bool
unfolding text_eq trim_space get as_string
is_responses_text_part part =
    let t = trim_space (as_string (get (codes "type") part)) in
    text_eq t (codes "output_text") || text_eq t (codes "text")

-- `isAnthropicTextBlock`
unfoldable pub is_anthropic_text_block : Object → Bool
unfolding text_eq trim_space get as_string
is_anthropic_text_block block =
    text_eq (trim_space (as_string (get (codes "type") block))) (codes "text")

-- The message that `anthropicErrorPayload` takes.
unfoldable pub anthropic_error_message : Object → Text
unfolding first_non_blank get as_string as_object
anthropic_error_message p = first_non_blank (
    as_string (get (codes "message") (as_object (get (codes "error") p)))
    ∷ as_string (
        get (codes "message")
          (as_object (get (codes "error") (as_object (get (codes "response") p)))))
    ∷ as_string (get (codes "message") p)
    ∷ codes "upstream streaming error"
    ∷ [])

-- `openAIErrorPayload`
unfoldable pub open_ai_error_payload : Object → Object
unfolding first_non_blank get as_string as_object is_empty
open_ai_error_payload p =
    let e = as_object (get (codes "error") p) in
    let message = first_non_blank (
      as_string (get (codes "message") e)
      ∷ as_string (get (codes "message") p)
      ∷ codes "upstream streaming error"
      ∷ []) in
    let code =
      first_non_blank (as_string (get (codes "type") e) ∷ as_string (get (codes "code") e) ∷ []) in
    (codes "type", string (codes "error"))
    ∷ (codes "message", string message)
    ∷ (if is_empty code then [] else (codes "code", string code) ∷ [])

-- A member that is there only if there is a value.
abbrev pub optional_member : Text → Option Object → Object
optional_member key none = []
optional_member key (some m) = (key, mapping m) ∷ []
