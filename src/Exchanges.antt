-- ===== src/Exchanges.antt =====
-- internal/proxy/translate.go, PrepareExchange: what is sent to a backend for a request, and how its
-- response is adapted. A response is its status, its header and its body; a body is `none` where it
-- cannot be read to its end.
pub mod Protocols
pub mod Settled
pub mod Prepared
use token_gate.Base.{
  ℕ, zero, suc, ◌+◌, ◌/◌, ◌%◌, Bool, true, false, ◌&&◌, Option, none, some, [], ◌∷◌, ◌++◌, ltb,
  if◌then◌else◌,
}
use token_gate.Domain.{
  endpoint_responses, endpoint_messages, protocol_openai, protocol_anthropic, Backend,
}
use token_gate.HttpHeader.{Header, values, set}
use token_gate.Json.{Codec}
use token_gate.Proxy.{endpoint_for_path, effective_backend_protocol_for_path}
use token_gate.Replies.{
  convert_responses_response_to_messages_response, convert_messages_response_to_responses_response,
}
use token_gate.Requests.{
  convert_messages_to_responses_request, convert_responses_to_messages_request, request_streams,
}
use token_gate.Text.{Text, codes, text_eq, to_lower, byte_length, contains_text}
use token_gate.ToMessages.{convert_responses_stream_to_messages_stream}
use token_gate.ToResponses.{convert_messages_stream_to_responses_stream}

abbrev pub Convert : Type 0
Convert = Text → Option Text

-- The adapters: identityResponseAdapter, adaptJSONResponse, adaptStreamingOrJSONResponse.
pub data Adapter : Type 0 where
  untouched : Adapter
  adapt_json_response : Convert → Adapter
  adapt_streaming_or_json_response : Convert → Convert → Adapter

-- `PreparedExchange`
pub record PreparedExchange : Type 0 where
  pub upstream_path : Text
  pub request_body : Text
  pub adapter : Adapter

-- The adapter of a converted exchange, by whether the request asks for a stream.
unfoldable pub adapter_for : Bool → Convert → Convert → Adapter
adapter_for true stream_convert json_convert =
    adapt_streaming_or_json_response stream_convert json_convert
adapter_for false stream_convert json_convert = adapt_json_response json_convert

-- A conversion: the two errors come first, that of the stream member before that of the request.
unfoldable pub converted_exchange :
    Codec → Text → Convert → Convert → Convert → Text → Option PreparedExchange
unfolding request_streams adapter_for
converted_exchange codec path request stream_convert json_convert body =
    elim (request_streams codec body) [
      | none ↦ none
      | some streams ↦ elim (request body) [
        | none ↦ none
        | some converted ↦ some (record {
          upstream_path = path;
          request_body = converted;
          adapter = adapter_for streams stream_convert json_convert;
        })
      ]
    ]

abbrev pub passed_on : Text → Text → PreparedExchange
passed_on path body = record { upstream_path = path; request_body = body; adapter = untouched }

-- `PrepareExchange`; `none` is an error
unfoldable pub prepare_exchange : Codec → Text → Backend → Text → Option PreparedExchange
unfolding text_eq endpoint_for_path effective_backend_protocol_for_path converted_exchange
    convert_messages_to_responses_request convert_responses_to_messages_request
    convert_responses_stream_to_messages_stream convert_responses_response_to_messages_response
    convert_messages_stream_to_responses_stream convert_messages_response_to_responses_response
prepare_exchange codec client_path backend body =
    let endpoint = endpoint_for_path client_path in
    let protocol = effective_backend_protocol_for_path backend client_path in
    if text_eq endpoint endpoint_messages && text_eq protocol protocol_openai
    then converted_exchange codec (codes "/v1/responses")
        (convert_messages_to_responses_request codec)
        (convert_responses_stream_to_messages_stream codec)
        (convert_responses_response_to_messages_response codec) body
    else if text_eq endpoint endpoint_responses && text_eq protocol protocol_anthropic
    then converted_exchange codec (codes "/v1/messages")
        (convert_responses_to_messages_request codec)
        (convert_messages_stream_to_responses_stream codec)
        (convert_messages_response_to_responses_response codec) body
    else some (passed_on client_path body)

-- `strconv.Itoa` of a length: a number has fewer digits than its value plus one.
unfoldable pub digits : ℕ → ℕ → Text
digits zero n = []
digits (suc fuel) n = elim (ltb n 10) [
  | true ↦ (48 + n) ∷ []
  | false ↦ digits fuel (n / 10) ++ ((48 + n % 10) ∷ [])
]

abbrev pub itoa : ℕ → Text
unfolding digits
itoa n = digits (suc n) n

pub record HttpResponse : Type 0 where
  pub status : ℕ
  pub header : Header
  pub body : Option Text
  pub content_length : ℕ

-- The response with a converted body.
unfoldable pub with_body : Text → Text → HttpResponse → HttpResponse
unfolding set digits byte_length
with_body content_type converted resp =
    let n = byte_length converted in
    record resp {
      header =
          set (codes "Content-Length") (itoa n)
            (set (codes "Content-Type") content_type resp.header);
      body = some converted;
      content_length = n;
    }

-- `adaptConvertedResponse`
unfoldable pub adapt_converted_response : Text → Convert → HttpResponse → Option HttpResponse
unfolding with_body
adapt_converted_response content_type convert resp = elim resp.body [
  | none ↦ none
  | some body ↦ elim (convert body) [ none ↦ none | some c ↦ some (with_body content_type c resp) ]
]

-- `Header.Get`
unfoldable pub header_get : Text → Header → Text
unfolding values
header_get key h = elim (values key h) [ [] ↦ [] | v ∷ vs ↦ v ]

-- The call of an adapter.
unfoldable pub adapt : Adapter → HttpResponse → Option HttpResponse
unfolding adapt_converted_response header_get contains_text to_lower
adapt untouched resp = some resp
adapt (adapt_json_response convert) resp =
    adapt_converted_response (codes "application/json") convert resp
adapt (adapt_streaming_or_json_response stream_convert json_convert) resp =
    if contains_text (codes "text/event-stream")
      (to_lower (header_get (codes "Content-Type") resp.header))
    then adapt_converted_response (codes "text/event-stream") stream_convert resp
    else adapt_converted_response (codes "application/json") json_convert resp
