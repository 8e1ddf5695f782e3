-- ===== src/Exchanges/Prepared.antt =====
-- What is sent to a backend for a request, described apart from the code: by the protocol of the
-- backend and the endpoint that the client has called.
use token_gate.Base.{
  ◌≡◌, refl, sym, ◌∙◌, subst, ◌⊎◌, inl, inr, Bool, true, false, ◌&&◌, Option, none, some, arith,
  if◌then◌else◌, Bool-cases, and_true,
}
use token_gate.Domain.{
  endpoint_responses, endpoint_messages, protocol_openai, protocol_anthropic, protocol_both,
  Backend, normalize_backend_protocol,
}
use token_gate.Exchanges.{
  Convert, adapt_json_response, adapt_streaming_or_json_response, PreparedExchange, adapter_for,
  converted_exchange, passed_on, prepare_exchange,
}
use token_gate.Exchanges.Protocols.{
  to_open_ai, to_anthropic, protocol_cases, effective, to_open_ai_protocol, to_anthropic_protocol,
}
use token_gate.Exchanges.Settled.{
  prepare_exchange_passes, AllSettle, prepare_exchange-to_open_ai, prepare_exchange-to_anthropic,
  prepare_exchange-AllSettle,
}
use token_gate.Json.{Codec}
use token_gate.Proxy.{endpoint_for_path, effective_backend_protocol_for_path}
use token_gate.Replies.{
  convert_responses_response_to_messages_response, convert_messages_response_to_responses_response,
}
use token_gate.Requests.{
  convert_messages_to_responses_request, convert_responses_to_messages_request, request_streams,
}
use token_gate.Text.{Text, codes, text_eq}
use token_gate.Text.Laws.{text_eq_iff}
use token_gate.ToMessages.{convert_responses_stream_to_messages_stream}
use token_gate.ToResponses.{convert_messages_stream_to_responses_stream}

-- A request that is converted, sent to a path, with the adapter for its response.
abbrev pub converted_to : Text → Text → Bool → Convert → Convert → PreparedExchange
converted_to path converted streams stream_convert json_convert = record {
  upstream_path = path;
  request_body = converted;
  adapter =
      if streams
      then adapt_streaming_or_json_response stream_convert json_convert
      else adapt_json_response json_convert;
}

-- The backend speaks the protocol of the endpoint, or the endpoint is none of the two whose requests
-- are converted.
abbrev pub Fits : Text → Backend → Type 0
Fits path backend =
    ((endpoint_for_path path ≡ endpoint_messages)
      × ((normalize_backend_protocol backend.protocol ≡ protocol_anthropic)
          ⊎ (normalize_backend_protocol backend.protocol ≡ protocol_both)))
    ⊎ (((endpoint_for_path path ≡ endpoint_responses)
          × ((normalize_backend_protocol backend.protocol ≡ protocol_openai)
              ⊎ (normalize_backend_protocol backend.protocol ≡ protocol_both)))
        ⊎ ((text_eq (endpoint_for_path path) endpoint_messages ≡ false)
            × (text_eq (endpoint_for_path path) endpoint_responses ≡ false)))

-- A client of the Messages protocol meets a backend of the other one, and the reverse.
abbrev pub MessagesToOpenAi : Text → Backend → Type 0
MessagesToOpenAi path backend =
    (endpoint_for_path path ≡ endpoint_messages)
    × (normalize_backend_protocol backend.protocol ≡ protocol_openai)

abbrev pub ResponsesToAnthropic : Text → Backend → Type 0
ResponsesToAnthropic path backend =
    (endpoint_for_path path ≡ endpoint_responses)
    × (normalize_backend_protocol backend.protocol ≡ protocol_anthropic)

-- What may come of the preparation of a request; `none` is an error.
pub data Prepared (codec : Codec) (path : Text) (backend : Backend) (body : Text)
    : Option PreparedExchange → Type 0 where
  as_it_is : Fits path backend → Prepared codec path backend body (some (passed_on path body))
  as_responses :
      {b : Bool} {c : Text}
      → MessagesToOpenAi path backend
      → request_streams codec body ≡ some b
      → convert_messages_to_responses_request codec body ≡ some c
      → Prepared codec path backend body (
          some (
            converted_to
              (codes "/v1/responses")
              c
              b
              (convert_responses_stream_to_messages_stream codec)
              (convert_responses_response_to_messages_response codec)))
  as_messages :
      {b : Bool} {c : Text}
      → ResponsesToAnthropic path backend
      → request_streams codec body ≡ some b
      → convert_responses_to_messages_request codec body ≡ some c
      → Prepared codec path backend body (
          some (
            converted_to
              (codes "/v1/messages")
              c
              b
              (convert_messages_stream_to_responses_stream codec)
              (convert_messages_response_to_responses_response codec)))
  no_responses_request :
      MessagesToOpenAi path backend
      → (request_streams codec body ≡ none)
        ⊎ (convert_messages_to_responses_request codec body ≡ none)
      → Prepared codec path backend body none
  no_messages_request :
      ResponsesToAnthropic path backend
      → (request_streams codec body ≡ none)
        ⊎ (convert_responses_to_messages_request codec body ≡ none)
      → Prepared codec path backend body none

-- A conversion by its parts.
converted_exchange_cases :
    (P : Option PreparedExchange → Type 0) (codec : Codec) (path : Text)
    (request stream_convert json_convert : Convert) (body : Text)
    → ((request_streams codec body ≡ none) ⊎ (request body ≡ none) → P none)
    → ((b : Bool) (c : Text)
        → request_streams codec body ≡ some b
        → request body ≡ some c
        → P (some (converted_to path c b stream_convert json_convert)))
    → P (converted_exchange codec path request stream_convert json_convert body)
unfolding converted_exchange adapter_for
converted_exchange_cases P codec path request stream_convert json_convert body f g =
    by_parts (request_streams codec body) (request body) refl refl
  where
    by_parts :
        (streams : Option Bool) (converted : Option Text)
        → request_streams codec body ≡ streams
        → request body ≡ converted
        → P (elim streams [
          | none ↦ none
          | some b ↦ elim converted [
            | none ↦ none
            | some c ↦ some (record {
              upstream_path = path;
              request_body = c;
              adapter = adapter_for b stream_convert json_convert;
            })
          ]
        ])
    by_parts none c h k = f (inl h)
    by_parts (some b) none h k = f (inr k)
    by_parts (some true) (some c) h k = g true c h k
    by_parts (some false) (some c) h k = g false c h k

unequal : (q p r : Text) → q ≡ r → text_eq q p ≡ false → r ≡ p → ⊥
unequal q p r e h k = ground (arith, h, (text_eq_iff q p).1 (e ∙ k))

untaken : (t u : Bool) → (t && u) ≡ false → t ≡ true → u ≡ false
untaken t u h k = ground (arith, h, k)

spoken_at_messages :
    (path : Text) (backend : Backend)
    → to_open_ai path backend ≡ false
    → text_eq (endpoint_for_path path) endpoint_messages ≡ true
    → (normalize_backend_protocol backend.protocol ≡ protocol_anthropic)
      ⊎ (normalize_backend_protocol backend.protocol ≡ protocol_both)
spoken_at_messages path backend h m = elim (protocol_cases backend.protocol) [
  | inl e ↦ absurd (
      unequal (effective_backend_protocol_for_path backend path) protocol_openai protocol_openai
        (unfold text_eq in effective protocol_openai backend path e) (untaken _ _ h m) refl)
  | inr e ↦ e
]

spoken_at_responses :
    (path : Text) (backend : Backend)
    → to_anthropic path backend ≡ false
    → text_eq (endpoint_for_path path) endpoint_responses ≡ true
    → (normalize_backend_protocol backend.protocol ≡ protocol_openai)
      ⊎ (normalize_backend_protocol backend.protocol ≡ protocol_both)
spoken_at_responses path backend k r = elim (protocol_cases backend.protocol) [
  | inl e ↦ inl e
  | inr (inl e) ↦ absurd (
      unequal (effective_backend_protocol_for_path backend path) protocol_anthropic
        protocol_anthropic (unfold text_eq in effective protocol_anthropic backend path e)
        (untaken _ _ k r) refl)
  | inr (inr e) ↦ inr e
]

-- Where no test of the code holds, the backend speaks what the client does.
passed-Fits :
    (path : Text) (backend : Backend)
    → to_open_ai path backend ≡ false
    → to_anthropic path backend ≡ false
    → Fits path backend
passed-Fits path backend h k =
    elim (Bool-cases (text_eq (endpoint_for_path path) endpoint_messages)) [
      | inl m ↦ inl (
        (text_eq_iff (endpoint_for_path path) endpoint_messages).0 m,
        spoken_at_messages path backend h m,
      )
      | inr m ↦ elim (Bool-cases (text_eq (endpoint_for_path path) endpoint_responses)) [
        | inl r ↦ inr (
            inl (
              (text_eq_iff (endpoint_for_path path) endpoint_responses).0 r,
              spoken_at_responses path backend k r,
            ))
        | inr r ↦ inr (inr (m, r))
      ]
    ]

-- The first of two tests, as an equation.
called : (t : Bool) (s p : Text) → (text_eq s p && t) ≡ true → s ≡ p
called t s p h = (text_eq_iff s p).0 (and_true (text_eq s p) t h).0

sent_to_responses :
    (codec : Codec) (path : Text) (backend : Backend) (body : Text)
    → to_open_ai path backend ≡ true
    → Prepared codec path backend body (prepare_exchange codec path backend body)
sent_to_responses codec path backend body h =
    let due : MessagesToOpenAi path backend =
      (called _ _ _ h, to_open_ai_protocol path backend h) in
    subst (Prepared codec path backend body)
      (sym (prepare_exchange-to_open_ai codec path backend body h))
      (converted_exchange_cases (Prepared codec path backend body) codec (codes "/v1/responses")
        (convert_messages_to_responses_request codec)
        (convert_responses_stream_to_messages_stream codec)
        (convert_responses_response_to_messages_response codec) body
        (λ e. no_responses_request due e) (λ b c p q. as_responses due p q))

sent_to_messages :
    (codec : Codec) (path : Text) (backend : Backend) (body : Text)
    → to_open_ai path backend ≡ false
    → to_anthropic path backend ≡ true
    → Prepared codec path backend body (prepare_exchange codec path backend body)
sent_to_messages codec path backend body h k =
    let due : ResponsesToAnthropic path backend =
      (called _ _ _ k, to_anthropic_protocol path backend k) in
    subst (Prepared codec path backend body)
      (sym (prepare_exchange-to_anthropic codec path backend body h k))
      (converted_exchange_cases (Prepared codec path backend body) codec (codes "/v1/messages")
        (convert_responses_to_messages_request codec)
        (convert_messages_stream_to_responses_stream codec)
        (convert_messages_response_to_responses_response codec) body
        (λ e. no_messages_request due e) (λ b c p q. as_messages due p q))

-- A request of the Messages or the Responses endpoint goes as it is to a backend that speaks that
-- protocol, or both; to any other it goes to the path of the other protocol, with the body that the
-- converter of requests makes, and with the adapter of responses that leads back, for streams too
-- where the request asks for one; it is an error exactly where the body has no conversion. Requests
-- of all other endpoints go to every backend as they are. And what is prepared is settled: at its
-- path the same backend takes every body as it is.
pub prepare_exchange-Prepared :
    (codec : Codec) (path : Text) (backend : Backend) (body next : Text)
    → Prepared codec path backend body (prepare_exchange codec path backend body)
      × AllSettle codec backend next (prepare_exchange codec path backend body)
prepare_exchange-Prepared codec path backend body next = (
  elim (Bool-cases (to_open_ai path backend)) [
    | inl h ↦ sent_to_responses codec path backend body h
    | inr h ↦ elim (Bool-cases (to_anthropic path backend)) [
      | inl k ↦ sent_to_messages codec path backend body h k
      | inr k ↦
          subst (Prepared codec path backend body)
            (sym (prepare_exchange_passes codec path backend body h k))
            (as_it_is (passed-Fits path backend h k))
    ]
  ],
  prepare_exchange-AllSettle codec path backend body next,
)
