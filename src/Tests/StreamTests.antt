-- ===== src/Tests/StreamTests.antt =====
-- Event streams at concrete texts. The decoder of the tests knows the values that a table names.
use token_gate.Base.{◌≡◌, refl, inl, inr, true, none, some, List, [], ◌∷◌, map, arith, All, pos}
use token_gate.Json.{number, string, Object, mapping, lookup, as_string, Codec}
use token_gate.MessagesEvents.{MessagesEvent, messages_payload}
use token_gate.NetAddress.{split_on}
use token_gate.Sse.{SseEvent, parse_sse_stream, marshal_sse_stream}
use token_gate.Sse.RoundTrip.{IsPlain, parse_sse_stream-marshal_sse_stream}
use token_gate.Streams.{block_at}
use token_gate.Streams.Courses.{first_course}
use token_gate.Text.{Text, codes, is_empty, trim_space, byte_length}
use token_gate.ToMessages.{ToMessages, take_events, fresh_state}
use token_gate.ToResponses.{ToResponses, convert_events, first_state}
use token_gate.ToResponses.Deltas.{written_deltas, written_deltas-convert_events}
use token_gate.ToResponses.Grammar.{first_reading, accept_all, reading_of}
use token_gate.ToResponses.SentDeltas.{sent_deltas}
use token_gate.ToResponses.Upstream.{is_in_order, after_stream}
use token_gate.ToResponses.Whole.{stage_of, convert_events-accept_all}

abbrev two_events : List SseEvent
two_events =
    record { event = codes "delta"; data_text = codes "a\nb" }
    ∷ record { event = []; data_text = codes "[DONE]" }
    ∷ []

two_events-IsPlain : All IsPlain two_events
two_events-IsPlain = (
  record {
    name_shows = inr (unfold is_empty trim_space in refl);
    name_plain = ground arith;
    name_whole = ground arith;
    data_plain = ground arith;
    name_short = unfold byte_length in refl;
    data_short = unfold split_on byte_length in (refl, (refl, tt));
  },
  (
    record {
      name_shows = inl refl;
      name_plain = tt;
      name_whole = tt;
      data_plain = ground arith;
      name_short = unfold byte_length in refl;
      data_short = unfold split_on byte_length in (refl, tt);
    },
    tt,
  ),
)

parse_sse_stream-marshal_sse_stream_example :
    parse_sse_stream (marshal_sse_stream two_events) ≡ some two_events
parse_sse_stream-marshal_sse_stream_example =
    parse_sse_stream-marshal_sse_stream two_events two_events-IsPlain

abbrev table : Object
table =
    (codes "created", mapping ((codes "type", string (codes "response.created")) ∷ []))
    ∷ (
      codes "hi",
      mapping (
          (codes "type", string (codes "response.output_text.delta"))
          ∷ (codes "delta", string (codes "hi"))
          ∷ []),
    )
    ∷ (codes "completed", mapping ((codes "type", string (codes "response.completed")) ∷ []))
    ∷ []

abbrev table_codec : Codec
table_codec = record { marshal = as_string; unmarshal = λ t. lookup t table }

abbrev upstream_event : Text → SseEvent
upstream_event t = record { event = []; data_text = t }

abbrev upstream_events : List SseEvent
upstream_events =
    upstream_event (codes "created")
    ∷ upstream_event (codes " hi")
    ∷ upstream_event (codes "completed")
    ∷ []

abbrev after_upstream : ToMessages
unfolding take_events block_at
after_upstream = elim (take_events table_codec upstream_events fresh_state) [
  | none ↦ fresh_state
  | some s ↦ s
]

-- A delta after the end is passed on, behind the stop of its block and of the message.
late_delta :
    map
      (λ e. (messages_payload e).0)
      (elim (take_events table_codec
          (upstream_event (codes "hi")
            ∷ upstream_event (codes "completed")
            ∷ upstream_event (codes "hi")
            ∷ [])
          fresh_state)
        as (λ o. List MessagesEvent) [ none ↦ [] | some s ↦ s.out ])
    ≡ codes "message_start"
      ∷ codes "content_block_start"
      ∷ codes "content_block_delta"
      ∷ codes "content_block_stop"
      ∷ codes "message_delta"
      ∷ codes "message_stop"
      ∷ codes "content_block_delta"
      ∷ []
unfolding take_events block_at messages_payload mapping lookup
late_delta = refl

-- The start of a message, two deltas, and its end.
abbrev anthropic_table : Object
anthropic_table =
    (
      codes "start",
      mapping (
          (codes "type", string (codes "message_start"))
          ∷ (codes "message", mapping ((codes "id", string (codes "m1")) ∷ []))
          ∷ []),
    )
    ∷ (
      codes "hi",
      mapping (
          (codes "type", string (codes "content_block_delta"))
          ∷ (codes "index", number (pos 0) [])
          ∷ (
            codes "delta",
            mapping (
                (codes "type", string (codes "text_delta"))
                ∷ (codes "text", string (codes "hi"))
                ∷ []),
          )
          ∷ []),
    )
    ∷ (codes "stop", mapping ((codes "type", string (codes "message_stop")) ∷ []))
    ∷ []

abbrev anthropic_codec : Codec
anthropic_codec = record { marshal = as_string; unmarshal = λ t. lookup t anthropic_table }

abbrev anthropic_events : List SseEvent
anthropic_events =
    upstream_event (codes "start")
    ∷ upstream_event (codes "hi")
    ∷ upstream_event (codes " hi")
    ∷ upstream_event (codes "stop")
    ∷ []

abbrev after_anthropic : ToResponses
unfolding convert_events block_at
after_anthropic = elim (convert_events anthropic_codec anthropic_events first_state) [
  | none ↦ first_state
  | some s ↦ s
]

-- The converted stream ends.
it_ends : (after_stream anthropic_codec anthropic_events first_course).complete ≡ true
unfolding after_stream mapping
it_ends = refl

convert_events-accept_all_example :
    accept_all after_anthropic.out first_reading
    ≡ some (
        reading_of
          (stage_of (after_stream anthropic_codec anthropic_events first_course).complete)
          after_anthropic)
unfolding mapping
convert_events-accept_all_example =
    convert_events-accept_all anthropic_codec anthropic_events after_anthropic
      (unfold is_in_order in refl) (unfold convert_events in refl)

written_deltas-convert_events_example :
    written_deltas after_anthropic.out ≡ sent_deltas anthropic_codec anthropic_events
unfolding mapping
written_deltas-convert_events_example =
    written_deltas-convert_events anthropic_codec anthropic_events after_anthropic
      (unfold convert_events in refl)

both_deltas :
    sent_deltas anthropic_codec anthropic_events ≡ (pos 0, codes "hi") ∷ (pos 0, codes "hi") ∷ []
unfolding sent_deltas mapping
both_deltas = refl
