-- ===== src/Tests/TranslateTests.antt =====
-- Requests and conversations at concrete values. The encoder of the tests writes one text, and the
-- decoder knows the values that a table names.
use token_gate.Base.{◌≡◌, refl, true, none, some, List, [], ◌∷◌, map, arith, All, pos}
use token_gate.Conversation.{
  convert_anthropic_messages_to_responses_input, convert_responses_input_to_anthropic_messages,
}
use token_gate.Conversation.RoundTrip.{conversation_back}
use token_gate.Conversation.Turns.{
  said, called, returned, user, assistant, Turn, turn_message, turn_json, Restores, Speaks,
}
use token_gate.Domain.{Backend}
use token_gate.Exchanges.{PreparedExchange, passed_on, prepare_exchange}
use token_gate.Exchanges.Prepared.{Prepared, prepare_exchange-Prepared}
use token_gate.Exchanges.Settled.{AllSettle}
use token_gate.Json.{
  Json, boolean, number, string, object, Members, Object, members_of, entries_of, slice, mapping,
  lookup, get, as_string, Codec,
}
use token_gate.Requests.{
  convert_anthropic_tools_to_responses_tools, convert_responses_tools_to_anthropic_tools,
  convert_anthropic_tool_choice_to_responses_tool_choice,
  convert_responses_tool_choice_to_anthropic_tool_choice, responses_request, messages_request,
}
use token_gate.Requests.Known.{or_else_value, converted_value, responses_request_lem}
use token_gate.Requests.Members.{other_members}
use token_gate.Requests.Tools.{kept_tool, this_tool, kept_choice, tools_and_choice_back}
use token_gate.Tests.Samples.{backend}
use token_gate.Text.{codes, text_eq, is_empty, trim_space, to_lower}

abbrev arguments : Object
arguments = (codes "city", string (codes "Bern")) ∷ []

abbrev request : Object
request =
    (codes "model", string (codes "m"))
    ∷ (codes "max_tokens", number (pos 9) [])
    ∷ (codes "messages", slice [])
    ∷ []

abbrev values_by_text : Object
values_by_text = (codes "args", mapping arguments) ∷ (codes "req", mapping request) ∷ []

abbrev text_codec : Codec
text_codec = record { marshal = λ v. codes "args"; unmarshal = λ t. lookup t values_by_text }

abbrev weather_talk : List Turn
weather_talk =
    record { speaker = user; blocks = said (codes "rain?") ∷ said (codes "or sun?") ∷ [] }
    ∷ record {
      speaker = assistant;
      blocks = said (codes "wait") ∷ called (codes "c1") (string (codes "weather")) arguments ∷ [];
    }
    ∷ record {
      speaker = user;
      blocks = returned (string (codes "c1")) (codes "sun") ∷ said (codes "so?") ∷ [];
    }
    ∷ []

arguments-Restores : Restores text_codec arguments
arguments-Restores = record {
  trimmed = unfold trim_space in refl;
  not_empty = unfold is_empty in refl;
  restored = unfold lookup mapping in refl;
}

weather_talk-Speaks : All (Speaks text_codec) weather_talk
weather_talk-Speaks = (
  (λ h. ground (arith, h), (tt, (tt, tt))),
  (
    (λ h. ground (arith, h), (tt, ((unfold is_empty trim_space in refl, arguments-Restores), tt))),
    ((λ h. ground (arith, h), (tt, (tt, tt))), tt),
  ),
)

conversation_back_example :
    convert_responses_input_to_anthropic_messages text_codec (
      convert_anthropic_messages_to_responses_input text_codec (slice (map turn_json weather_talk)))
    ≡ map turn_message weather_talk
conversation_back_example =
    conversation_back text_codec user weather_talk weather_talk-Speaks (refl, (refl, (refl, tt)))

abbrev two_tools : List Json
unfolding mapping
two_tools =
    mapping (
      (codes "name", string (codes "weather"))
      ∷ (codes "input_schema", mapping [])
      ∷ (codes "cache_control", mapping [])
      ∷ [])
    ∷ mapping (
        (codes "name", string (codes "clock"))
        ∷ (codes "description", string (codes " tells the time"))
        ∷ [])
    ∷ []

abbrev clock_choice : Members
clock_choice = members_of (
    (codes "type", string (codes "tool"))
    ∷ (codes "name", string (codes "clock"))
    ∷ (codes "disable_parallel_tool_use", boolean true)
    ∷ [])

tools_and_choice_back_example :
    (convert_responses_tools_to_anthropic_tools
        (convert_anthropic_tools_to_responses_tools (slice two_tools))
      ≡ slice (map kept_tool two_tools))
    × (convert_responses_tool_choice_to_anthropic_tool_choice
          (convert_anthropic_tool_choice_to_responses_tool_choice (object clock_choice))
        ≡ kept_choice this_tool (entries_of clock_choice))
tools_and_choice_back_example =
    tools_and_choice_back two_tools this_tool clock_choice
      (unfold trim_space get as_string entries_of members_of in refl)

what_is_kept :
    map kept_tool two_tools
    ≡ mapping ((codes "name", string (codes "weather")) ∷ (codes "input_schema", mapping []) ∷ [])
      ∷ mapping (
          (codes "name", string (codes "clock"))
          ∷ (codes "description", string (codes "tells the time"))
          ∷ [])
      ∷ []
unfolding kept_tool
what_is_kept = refl

other_members_example :
    (lookup (codes "model") (responses_request text_codec request) ≡ lookup (codes "model") request)
    × (lookup (codes "model") (messages_request text_codec request)
        ≡ lookup (codes "model") request)
unfolding text_eq
other_members_example = other_members text_codec request (codes "model") (
  refl,
  (refl, (refl, (refl, (refl, (refl, (refl, (refl, (refl, (refl, (refl, (refl, tt))))))))))),
)

responses_request_lem_example :
    (lookup (codes "input") (responses_request text_codec request)
      ≡ some (
          convert_anthropic_messages_to_responses_input text_codec
            (get (codes "messages") request)))
    × (lookup (codes "messages") (responses_request text_codec request) ≡ none)
    × (lookup (codes "max_output_tokens") (responses_request text_codec request)
        ≡ or_else_value
            (lookup (codes "max_tokens") request)
            (lookup (codes "max_output_tokens") request))
    × (lookup (codes "stop") (responses_request text_codec request)
        ≡ or_else_value (lookup (codes "stop_sequences") request) (lookup (codes "stop") request))
    × (lookup (codes "tools") (responses_request text_codec request)
        ≡ converted_value convert_anthropic_tools_to_responses_tools
            (lookup (codes "tools") request))
responses_request_lem_example = responses_request_lem text_codec request

token_limit_moves :
    lookup (codes "max_output_tokens") (responses_request text_codec request)
    ≡ some (number (pos 9) [])
unfolding lookup responses_request
token_limit_moves = refl

-- A Messages request for a backend that speaks the Responses protocol.
abbrev open_ai_backend : Backend
open_ai_backend = backend 1 "b" (pos 1) []

abbrev prepared : PreparedExchange
unfolding prepare_exchange
prepared = elim (prepare_exchange text_codec (codes "/v1/messages") open_ai_backend (codes "req")) [
  | none ↦ passed_on [] []
  | some e ↦ e
]

prepare_exchange-Prepared_example :
    Prepared text_codec
      (codes "/v1/messages")
      open_ai_backend
      (codes "req")
      (prepare_exchange text_codec (codes "/v1/messages") open_ai_backend (codes "req"))
    × AllSettle text_codec open_ai_backend
        (codes "next")
        (prepare_exchange text_codec (codes "/v1/messages") open_ai_backend (codes "req"))
prepare_exchange-Prepared_example =
    prepare_exchange-Prepared text_codec (codes "/v1/messages") open_ai_backend (codes "req")
      (codes "next")

messages_go_to_responses : prepared.upstream_path ≡ codes "/v1/responses"
unfolding prepare_exchange mapping to_lower
messages_go_to_responses = refl
