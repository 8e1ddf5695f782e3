-- ===== src/Usage.antt =====
-- internal/handler/handle_log.go: the tokens that a response reports, and the headers that a log
-- keeps.
pub mod Greatest
pub mod Redaction
use token_gate.Base.{
  ℕ, zero, suc, ◌+◌, ◌-◌, ◌*◌, Bool, true, false, not, ◌&&◌, ◌||◌, Option, none, some, List, [],
  ◌∷◌, ltb, leb, ◌==◌, if◌then◌else◌, and_then, ℤ, pos, negsuc, pos_part, neg_part, ltb_ℤ, eq_ℤ,
}
use token_gate.HttpHeader.{Header}
use token_gate.Json.{
  Json, number, string, object, Object, entries_of, get, Codec, decode_json_object,
}
use token_gate.Sse.{SseEvent, parse_sse_stream}
use token_gate.Text.{Text, codes, text_eq, is_empty, trim_space, to_lower, contains_text}

-- `strconv.ParseInt` in base ten with 64 bits.
unfoldable pub digits_value : ℕ → Text → Option ℕ
digits_value acc [] = some acc
digits_value acc (c ∷ s) =
    let rest = digits_value (acc * 10 + (c - 48)) s in if leb 48 c && leb c 57 then rest else none

unfoldable pub magnitude : Text → Option ℕ
unfolding digits_value
magnitude [] = none
magnitude (c ∷ s) = digits_value 0 (c ∷ s)

unfoldable pub negated : ℕ → ℤ
negated zero = pos 0
negated (suc n) = negsuc n

abbrev pub int64_limit : ℕ
int64_limit = 9223372036854775808

unfoldable pub in_range : Bool → ℕ → Option ℤ
unfolding negated
in_range below n =
    if below
    then (if leb n int64_limit then some (negated n) else none)
    else if ltb n int64_limit
    then some (pos n)
    else none

unfoldable pub signed : Text → Bool × Text
signed [] = (false, [])
signed (c ∷ s) = if c == 45 then (true, s) else if c == 43 then (false, s) else (false, c ∷ s)

unfoldable pub parse_int : Text → Option ℤ
unfolding signed magnitude in_range
parse_int s = and_then (in_range (signed s).0) (magnitude (signed s).1)

abbrev pub value_or_zero : Option ℤ → ℤ
value_or_zero none = pos 0
value_or_zero (some n) = n

-- `int64Value`
unfoldable pub int64_value : Json → ℤ
unfolding parse_int trim_space
int64_value (number n shown) = n
int64_value (string s) = value_or_zero (parse_int (trim_space s))
int64_value _ = pos 0

-- The difference of two numbers, and the sum of two integers.
unfoldable pub difference : ℕ → ℕ → ℤ
difference m zero = pos m
difference zero (suc n) = negsuc n
difference (suc m) (suc n) = difference m n

abbrev pub add_ℤ : ℤ → ℤ → ℤ
unfolding difference
add_ℤ a b = difference (pos_part a + pos_part b) (neg_part a + neg_part b)

-- `usageObject`
unfoldable pub usage_object : Json → Object
unfolding entries_of
usage_object (object m) = entries_of m
usage_object _ = []

-- `sumUsageDetailTokens`
unfoldable pub sum_usage_detail_tokens : Object → ℤ
unfolding difference int64_value
sum_usage_detail_tokens [] = pos 0
sum_usage_detail_tokens ((k, v) ∷ m) = add_ℤ (int64_value v) (sum_usage_detail_tokens m)

abbrev pub tokens : Text → Object → ℤ
unfolding get int64_value
tokens key m = int64_value (get key m)

abbrev pub details : Text → Object → Object
unfolding get usage_object
details key m = usage_object (get key m)

abbrev pub unless_zero : ℤ → ℤ → ℤ
unless_zero a b = if eq_ℤ a (pos 0) then b else a

abbrev pub no_entries : Object → Bool
no_entries [] = true
no_entries (e ∷ m) = false

-- `looksLikeAnthropicUsage`
unfoldable pub looks_like_anthropic_usage : Object → Bool
unfolding get int64_value usage_object
looks_like_anthropic_usage m =
    ltb_ℤ (pos 0) (tokens (codes "cache_creation_input_tokens") m)
    || (ltb_ℤ (pos 0) (tokens (codes "cache_read_input_tokens") m)
        || (not (no_entries (details (codes "cache_creation") m))
            || not (no_entries (details (codes "cache_read") m))))

-- `anthropicCacheTokens`
unfoldable pub anthropic_cache_tokens : Object → ℤ
unfolding get int64_value usage_object sum_usage_detail_tokens difference
anthropic_cache_tokens m =
    add_ℤ
      (unless_zero (tokens (codes "cache_creation_input_tokens") m)
        (sum_usage_detail_tokens (details (codes "cache_creation") m)))
      (unless_zero (tokens (codes "cache_read_input_tokens") m)
        (sum_usage_detail_tokens (details (codes "cache_read") m)))

-- `normalizedTokenUsage`
pub record TokenUsage : Type 0 where
  pub input_tokens : ℤ
  pub output_tokens : ℤ
  pub input_cache_tokens : ℤ

abbrev pub no_usage : TokenUsage
no_usage = record { input_tokens = pos 0; output_tokens = pos 0; input_cache_tokens = pos 0 }

-- `normalizeProviderUsage`
unfoldable pub normalize_provider_usage : Object → TokenUsage
unfolding get int64_value usage_object looks_like_anthropic_usage anthropic_cache_tokens difference
normalize_provider_usage m =
    let input = unless_zero (tokens (codes "input_tokens") m) (tokens (codes "prompt_tokens") m) in
    let output =
      unless_zero (tokens (codes "output_tokens") m) (tokens (codes "completion_tokens") m) in
    let cached = anthropic_cache_tokens m in
    if looks_like_anthropic_usage m
    then record {
      input_tokens = add_ℤ input cached;
      output_tokens = output;
      input_cache_tokens = cached;
    }
    else record {
      input_tokens = input;
      output_tokens = output;
      input_cache_tokens =
          unless_zero (tokens (codes "cached_tokens") (details (codes "input_tokens_details") m))
            (tokens (codes "cached_tokens") (details (codes "prompt_tokens_details") m));
    }

abbrev pub larger : ℤ → ℤ → ℤ
larger base next = if ltb_ℤ base next then next else base

-- `mergeNormalizedTokenUsage`
unfoldable pub merge_normalized_token_usage : TokenUsage → TokenUsage → TokenUsage
merge_normalized_token_usage base next = record {
  input_tokens = larger base.input_tokens next.input_tokens;
  output_tokens = larger base.output_tokens next.output_tokens;
  input_cache_tokens = larger base.input_cache_tokens next.input_cache_tokens;
}

-- The body of the loop over the places of a usage in a payload.
unfoldable pub merge_candidate : TokenUsage → Object → TokenUsage
unfolding merge_normalized_token_usage normalize_provider_usage
merge_candidate u [] = u
merge_candidate u (e ∷ m) = merge_normalized_token_usage u (normalize_provider_usage (e ∷ m))

-- `normalizedTokenUsageFromPayload`
unfoldable pub normalized_token_usage_from_payload : Object → TokenUsage
unfolding get usage_object merge_candidate
normalized_token_usage_from_payload p =
    merge_candidate
      (merge_candidate (merge_candidate no_usage (details (codes "usage") p))
        (details (codes "usage") (details (codes "response") p)))
      (details (codes "usage") (details (codes "message") p))

-- `decodeLoggingSSEJSON`
unfoldable pub decode_logging_sse_json : Codec → Text → Option Object
unfolding trim_space is_empty text_eq entries_of
decode_logging_sse_json codec text =
    let trimmed = trim_space text in
    if is_empty trimmed || text_eq trimmed (codes "[DONE]")
    then none
    else elim (codec.unmarshal trimmed) [
      | none ↦ none
      | some v ↦ elim v [ object m ↦ some (entries_of m) | _ ↦ none ]
    ]

abbrev pub merge_decoded : TokenUsage → Option Object → TokenUsage
unfolding merge_normalized_token_usage normalized_token_usage_from_payload
merge_decoded u none = u
merge_decoded u (some p) = merge_normalized_token_usage u (normalized_token_usage_from_payload p)

-- The loop over the events of a stream.
unfoldable pub stream_usage : Codec → List SseEvent → TokenUsage → TokenUsage
unfolding decode_logging_sse_json merge_normalized_token_usage normalized_token_usage_from_payload
stream_usage codec [] u = u
stream_usage codec (e ∷ es) u =
    stream_usage codec es (merge_decoded u (decode_logging_sse_json codec e.data_text))

-- `parseLoggingSSEStream`, whose text is that of `parseSSEStream`.
unfoldable pub parse_logging_sse_stream : Text → Option (List SseEvent)
unfolding parse_sse_stream
parse_logging_sse_stream body = parse_sse_stream body

-- `extractNormalizedTokenUsage`, by the content type of the response
unfoldable pub extract_normalized_token_usage : Codec → Text → Text → TokenUsage
unfolding is_empty to_lower contains_text parse_logging_sse_stream stream_usage decode_json_object
    normalized_token_usage_from_payload
extract_normalized_token_usage codec content_type body =
    if is_empty body
    then no_usage
    else if contains_text (codes "text/event-stream") (to_lower content_type)
    then elim (parse_logging_sse_stream body) [
      | none ↦ no_usage
      | some es ↦ stream_usage codec es no_usage
    ]
    else elim (decode_json_object codec body) [
      | none ↦ no_usage
      | some p ↦ normalized_token_usage_from_payload p
    ]

-- The keys whose values `RedactedHeaders` hides.
unfoldable pub is_secret : Text → Bool
unfolding to_lower trim_space text_eq
is_secret key =
    let lower = to_lower (trim_space key) in
    text_eq lower (codes "authorization")
    || (text_eq lower (codes "api-key")
        || (text_eq lower (codes "x-api-key") || text_eq lower (codes "cookie")))

-- `RedactedHeaders`
unfoldable pub redacted_headers : Header → Header
unfolding is_secret
redacted_headers [] = []
redacted_headers ((key, vs) ∷ h) =
    (if is_secret key then (key, codes "[redacted]" ∷ []) else (key, vs)) ∷ redacted_headers h

-- `normalizeUsageLogStatusFilter`; `none` is an error
unfoldable pub normalize_usage_log_status_filter : Text → Option Text
unfolding to_lower trim_space is_empty text_eq
normalize_usage_log_status_filter value =
    let normalized = to_lower (trim_space value) in
    if is_empty normalized
    then some []
    else if text_eq normalized (codes "2xx")
        || (text_eq normalized (codes "3xx")
            || (text_eq normalized (codes "4xx") || text_eq normalized (codes "5xx")))
    then some normalized
    else none
