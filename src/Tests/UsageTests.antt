-- ===== src/Tests/UsageTests.antt =====
-- The usage of a stream and the headers of a log at concrete values. The decoder of the tests knows
-- the values that a table names.
use token_gate.Base.{ℕ, String, ◌≡◌, refl, List, [], ◌∷◌, map, All, pos, negsuc}
use token_gate.HttpHeader.{Header}
use token_gate.Json.{Json, number, string, Object, mapping, lookup, as_string, Codec}
use token_gate.Sse.{SseEvent}
use token_gate.Text.{Text, codes, is_empty, to_lower, join, byte_length, contains_text}
use token_gate.Usage.{
  int64_value, no_usage, parse_logging_sse_stream, extract_normalized_token_usage, redacted_headers,
}
use token_gate.Usage.Greatest.{
  reported, GreatestUsage, extract_normalized_token_usage-GreatestUsage,
}
use token_gate.Usage.Redaction.{Shown, redacted_headers-Shown}

abbrev count : String → ℕ → Text × Json
count key n = (codes key, number (pos n) [])

abbrev usage_table : Object
usage_table =
    (
      codes "a",
      mapping (
          (
            codes "message",
            mapping (
                (
                  codes "usage",
                  mapping (
                      count "input_tokens" 3
                      ∷ count "cache_read_input_tokens" 4
                      ∷ count "output_tokens" 1
                      ∷ []),
                )
                ∷ []),
          )
          ∷ []),
    )
    ∷ (codes "b", mapping ((codes "usage", mapping (count "output_tokens" 9 ∷ [])) ∷ []))
    ∷ []

abbrev usage_codec : Codec
usage_codec = record { marshal = as_string; unmarshal = λ t. lookup t usage_table }

abbrev usage_body : Text
usage_body = codes "data: a\n\ndata: b\n\ndata: [DONE]\n\n"

abbrev usage_events : List SseEvent
usage_events =
    record { event = []; data_text = codes "a" }
    ∷ record { event = []; data_text = codes "b" }
    ∷ record { event = []; data_text = codes "[DONE]" }
    ∷ []

extract_normalized_token_usage-GreatestUsage_example :
    GreatestUsage no_usage
      (extract_normalized_token_usage usage_codec (codes "text/event-stream") usage_body)
      (reported usage_codec usage_events)
extract_normalized_token_usage-GreatestUsage_example =
    extract_normalized_token_usage-GreatestUsage usage_codec (codes "text/event-stream") usage_body
      usage_events (unfold is_empty in refl) (unfold contains_text to_lower in refl)
      (unfold parse_logging_sse_stream byte_length join in refl)

usage_is_added_up :
    extract_normalized_token_usage usage_codec (codes "text/event-stream") usage_body
    ≡ record { input_tokens = pos 7; output_tokens = pos 9; input_cache_tokens = pos 4 }
unfolding extract_normalized_token_usage mapping byte_length join
usage_is_added_up = refl

abbrev sent_headers : Header
sent_headers =
    (codes "Cookie", codes "id=1" ∷ [])
    ∷ (codes "Accept", codes "*/*" ∷ [])
    ∷ (codes "X-Api-Key", codes "sk-1" ∷ [])
    ∷ []

redacted_headers-Shown_example :
    All (λ (e : Text × List Text). Shown sent_headers e.0 e.1) (redacted_headers sent_headers)
    × (map (λ (e : Text × List Text). e.0) (redacted_headers sent_headers)
        ≡ map (λ (e : Text × List Text). e.0) sent_headers)
redacted_headers-Shown_example = redacted_headers-Shown sent_headers

secrets_are_hidden :
    redacted_headers sent_headers
    ≡ (codes "Cookie", codes "[redacted]" ∷ [])
      ∷ (codes "Accept", codes "*/*" ∷ [])
      ∷ (codes "X-Api-Key", codes "[redacted]" ∷ [])
      ∷ []
unfolding redacted_headers
secrets_are_hidden = refl

numbers_in_texts :
    (int64_value (string (codes " -12 ")) ≡ negsuc 11)
    × (int64_value (string (codes "9223372036854775808")) ≡ pos 0)
    × (int64_value (string (codes "1_0")) ≡ pos 0)
unfolding int64_value
numbers_in_texts = (refl, refl, refl)
