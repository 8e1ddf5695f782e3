-- ===== src/Exchanges/Settled.antt =====
-- A prepared exchange needs no second conversion.
use token_gate.Base.{
  ◌≡◌, refl, sym, ap, ◌∙◌, subst, inl, inr, Bool, true, false, ◌&&◌, Option, none, some, arith,
  Bool-cases, OptionAll, OptionAll-mono,
}
use token_gate.Domain.{protocol_openai, protocol_anthropic, Backend, normalize_backend_protocol}
use token_gate.Exchanges.{
  Convert, PreparedExchange, adapter_for, converted_exchange, passed_on, prepare_exchange,
}
use token_gate.Exchanges.Protocols.{
  to_open_ai, to_anthropic, effective, to_open_ai_protocol, to_anthropic_protocol,
}
use token_gate.Json.{Codec}
use token_gate.Proxy.{endpoint_for_path, effective_backend_protocol_for_path}
use token_gate.Replies.{
  convert_responses_response_to_messages_response, convert_messages_response_to_responses_response,
}
use token_gate.Requests.{
  convert_messages_to_responses_request, convert_responses_to_messages_request, request_streams,
}
use token_gate.Text.{Text, codes, text_eq}
use token_gate.ToMessages.{convert_responses_stream_to_messages_stream}
use token_gate.ToResponses.{convert_messages_stream_to_responses_stream}

converted_exchange_path :
    (codec : Codec) (path : Text) (request stream_convert json_convert : Convert) (body : Text)
    → OptionAll
        (λ (e : PreparedExchange). e.upstream_path ≡ path)
        (converted_exchange codec path request stream_convert json_convert body)
unfolding converted_exchange
converted_exchange_path codec path request stream_convert json_convert body =
    path_of (request_streams codec body) (request body)
  where
    path_of :
        (streams : Option Bool) (converted : Option Text)
        → OptionAll
            (λ (e : PreparedExchange). e.upstream_path ≡ path)
            (elim streams [
              | none ↦ none
              | some b ↦ elim converted [
                | none ↦ none
                | some c ↦ some (record {
                  upstream_path = path;
                  request_body = c;
                  adapter = adapter_for b stream_convert json_convert;
                })
              ]
            ])
    path_of none c = tt
    path_of (some b) none = tt
    path_of (some b) (some c) = refl

-- Where no test holds, the request is passed on as it is.
pub prepare_exchange_passes :
    (codec : Codec) (path : Text) (backend : Backend) (body : Text)
    → to_open_ai path backend ≡ false
    → to_anthropic path backend ≡ false
    → prepare_exchange codec path backend body ≡ some (passed_on path body)
prepare_exchange_passes codec path backend body h k = unfold prepare_exchange in rw (h, k) refl

not_both : (t u : Bool) → u ≡ false → (t && u) ≡ false
not_both t u h = ground (arith, h)

differs : (q p r : Text) → q ≡ p → text_eq p r ≡ false → text_eq q r ≡ false
differs q p r e h = ap (λ x. text_eq x r) e ∙ h

-- A body that is sent to the path of an exchange goes there as it is.
abbrev pub Settles : Codec → Backend → Text → Text → Type 0
Settles codec backend body path =
    prepare_exchange codec path backend body ≡ some (passed_on path body)

responses_path-Settles :
    (codec : Codec) (backend : Backend) (body : Text)
    → normalize_backend_protocol backend.protocol ≡ protocol_openai
    → Settles codec backend body (codes "/v1/responses")
responses_path-Settles codec backend body h =
    prepare_exchange_passes codec (codes "/v1/responses") backend body
      (unfold endpoint_for_path text_eq in refl)
      (not_both _ _ (
        differs (effective_backend_protocol_for_path backend (codes "/v1/responses"))
          protocol_openai protocol_anthropic
          (unfold text_eq in effective protocol_openai backend (codes "/v1/responses") h)
          (unfold text_eq in refl)))

messages_path-Settles :
    (codec : Codec) (backend : Backend) (body : Text)
    → normalize_backend_protocol backend.protocol ≡ protocol_anthropic
    → Settles codec backend body (codes "/v1/messages")
messages_path-Settles codec backend body h =
    prepare_exchange_passes codec (codes "/v1/messages") backend body
      (not_both _ _ (
        differs (effective_backend_protocol_for_path backend (codes "/v1/messages"))
          protocol_anthropic protocol_openai
          (unfold text_eq in effective protocol_anthropic backend (codes "/v1/messages") h)
          (unfold text_eq in refl)))
      (unfold endpoint_for_path text_eq in refl)

-- An exchange, if there is one, has a path that settles.
unfoldable pub AllSettle : Codec → Backend → Text → Option PreparedExchange → Type 0
AllSettle codec backend body o =
    OptionAll (λ (e : PreparedExchange). Settles codec backend body e.upstream_path) o

converted_exchange-AllSettle :
    (codec : Codec) (backend : Backend) (path : Text)
    (request stream_convert json_convert : Convert) (body next : Text)
    → Settles codec backend next path
    → AllSettle codec backend next
        (converted_exchange codec path request stream_convert json_convert body)
unfolding AllSettle
converted_exchange-AllSettle codec backend path request stream_convert json_convert body next h =
    OptionAll-mono (λ (e : PreparedExchange). e.upstream_path ≡ path)
      (λ (e : PreparedExchange). Settles codec backend next e.upstream_path)
      (converted_exchange codec path request stream_convert json_convert body)
      (λ e q. subst (Settles codec backend next) (sym q) h)
      (converted_exchange_path codec path request stream_convert json_convert body)

pub prepare_exchange-to_open_ai :
    (codec : Codec) (path : Text) (backend : Backend) (body : Text)
    → to_open_ai path backend ≡ true
    → prepare_exchange codec path backend body
      ≡ converted_exchange codec
          (codes "/v1/responses")
          (convert_messages_to_responses_request codec)
          (convert_responses_stream_to_messages_stream codec)
          (convert_responses_response_to_messages_response codec)
          body
prepare_exchange-to_open_ai codec path backend body h = unfold prepare_exchange in rw h refl

pub prepare_exchange-to_anthropic :
    (codec : Codec) (path : Text) (backend : Backend) (body : Text)
    → to_open_ai path backend ≡ false
    → to_anthropic path backend ≡ true
    → prepare_exchange codec path backend body
      ≡ converted_exchange codec
          (codes "/v1/messages")
          (convert_responses_to_messages_request codec)
          (convert_messages_stream_to_responses_stream codec)
          (convert_messages_response_to_responses_response codec)
          body
prepare_exchange-to_anthropic codec path backend body h k =
    unfold prepare_exchange in rw (h, k) refl

pub prepare_exchange-AllSettle :
    (codec : Codec) (path : Text) (backend : Backend) (body next : Text)
    → AllSettle codec backend next (prepare_exchange codec path backend body)
prepare_exchange-AllSettle codec path backend body next =
    elim (Bool-cases (to_open_ai path backend)) [
      | inl h ↦
          subst (AllSettle codec backend next)
            (sym (prepare_exchange-to_open_ai codec path backend body h))
            (converted_exchange-AllSettle codec backend (codes "/v1/responses") _ _ _ body next
              (responses_path-Settles codec backend next (to_open_ai_protocol path backend h)))
      | inr h ↦ elim (Bool-cases (to_anthropic path backend)) [
        | inl k ↦
            subst (AllSettle codec backend next)
              (sym (prepare_exchange-to_anthropic codec path backend body h k))
              (converted_exchange-AllSettle codec backend (codes "/v1/messages") _ _ _ body next
                (messages_path-Settles codec backend next (to_anthropic_protocol path backend k)))
        | inr k ↦
            subst (AllSettle codec backend next)
              (sym (prepare_exchange_passes codec path backend body h k))
              (unfold AllSettle in prepare_exchange_passes codec path backend next h k)
      ]
    ]
