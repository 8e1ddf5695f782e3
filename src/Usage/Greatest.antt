-- ===== src/Usage/Greatest.antt =====
-- What a stream reports is, field by field, the greatest value that one of its events reports.
use token_gate.Base.{
  ◌≡◌, refl, ◌⊎◌, inl, inr, Bool, true, false, Option, none, some, List, [], ◌∷◌, ◌++◌, map, arith,
  if◌then◌else◌, All, Has, ℤ, pos, negsuc, ltb_ℤ, leb_ℤ,
}
use token_gate.Json.{Object, Codec}
use token_gate.Sse.{SseEvent}
use token_gate.Text.{Text, codes, is_empty, to_lower, contains_text}
use token_gate.ToMessages.Grammar.{start}
use token_gate.Usage.{
  TokenUsage, no_usage, larger, merge_normalized_token_usage, normalized_token_usage_from_payload,
  decode_logging_sse_json, merge_decoded, stream_usage, parse_logging_sse_stream,
  extract_normalized_token_usage,
}

-- The usages that the events of a stream report.
abbrev pub usage_of : Option Object → List TokenUsage
unfolding normalized_token_usage_from_payload
usage_of none = []
usage_of (some p) = normalized_token_usage_from_payload p ∷ []

pub reported : Codec → List SseEvent → List TokenUsage
unfolding decode_logging_sse_json normalized_token_usage_from_payload
reported codec [] = []
reported codec (e ∷ es) = usage_of (decode_logging_sse_json codec e.data_text) ++ reported codec es

-- No value is greater than this one, which is the first value or one of the others.
abbrev pub Greatest : ℤ → ℤ → List ℤ → Type 0
Greatest start n ns =
    (leb_ℤ start n ≡ true) × All (λ m. leb_ℤ m n ≡ true) ns × ((n ≡ start) ⊎ Has n ns)

leb_ℤ_same : (a : ℤ) → leb_ℤ a a ≡ true
leb_ℤ_same (pos n) = ground arith
leb_ℤ_same (negsuc n) = ground arith

leb_ℤ_trans : (a b c : ℤ) → leb_ℤ a b ≡ true → leb_ℤ b c ≡ true → leb_ℤ a c ≡ true
leb_ℤ_trans (pos a) (pos b) (pos c) h k = ground (arith, h, k)
leb_ℤ_trans (pos a) (pos b) (negsuc c) h k = ground (arith, h, k)
leb_ℤ_trans (pos a) (negsuc b) (pos c) h k = ground (arith, h, k)
leb_ℤ_trans (pos a) (negsuc b) (negsuc c) h k = ground (arith, h, k)
leb_ℤ_trans (negsuc a) (pos b) (pos c) h k = ground (arith, h, k)
leb_ℤ_trans (negsuc a) (pos b) (negsuc c) h k = ground (arith, h, k)
leb_ℤ_trans (negsuc a) (negsuc b) (pos c) h k = ground (arith, h, k)
leb_ℤ_trans (negsuc a) (negsuc b) (negsuc c) h k = ground (arith, h, k)

ltb_ℤ_leb : (a b : ℤ) → ltb_ℤ a b ≡ true → leb_ℤ a b ≡ true
ltb_ℤ_leb (pos a) (pos b) h = ground (arith, h)
ltb_ℤ_leb (pos a) (negsuc b) h = ground (arith, h)
ltb_ℤ_leb (negsuc a) (pos b) h = ground (arith, h)
ltb_ℤ_leb (negsuc a) (negsuc b) h = ground (arith, h)

ltb_ℤ_not : (a b : ℤ) → ltb_ℤ a b ≡ false → leb_ℤ b a ≡ true
ltb_ℤ_not (pos a) (pos b) h = ground (arith, h)
ltb_ℤ_not (pos a) (negsuc b) h = ground (arith, h)
ltb_ℤ_not (negsuc a) (pos b) h = ground (arith, h)
ltb_ℤ_not (negsuc a) (negsuc b) h = ground (arith, h)

-- One more value, the first one merged with it.
Greatest-chosen :
    (t : Bool) (a b n : ℤ) (ns : List ℤ)
    → ltb_ℤ a b ≡ t
    → Greatest (if t then b else a) n ns
    → Greatest a n (b ∷ ns)
Greatest-chosen true a b n ns e (l, h, k) = (leb_ℤ_trans a b n (ltb_ℤ_leb a b e) l, (l, h), inr k)
Greatest-chosen false a b n ns e (l, h, inl q) =
    (l, (leb_ℤ_trans b a n (ltb_ℤ_not a b e) l, h), inl q)
Greatest-chosen false a b n ns e (l, h, inr q) =
    (l, (leb_ℤ_trans b a n (ltb_ℤ_not a b e) l, h), inr (inr q))

Greatest-larger : (a b n : ℤ) (ns : List ℤ) → Greatest (larger a b) n ns → Greatest a n (b ∷ ns)
Greatest-larger a b n ns h = Greatest-chosen (ltb_ℤ a b) a b n ns refl h

-- Every field of a usage is the greatest of the values there.
abbrev pub GreatestUsage : TokenUsage → TokenUsage → List TokenUsage → Type 0
GreatestUsage start u us =
    Greatest start.input_tokens u.input_tokens (map (λ (x : TokenUsage). x.input_tokens) us)
    × Greatest start.output_tokens u.output_tokens (map (λ (x : TokenUsage). x.output_tokens) us)
    × Greatest start.input_cache_tokens u.input_cache_tokens
        (map (λ (x : TokenUsage). x.input_cache_tokens) us)

GreatestUsage-merge :
    (a b u : TokenUsage) (us : List TokenUsage)
    → GreatestUsage (merge_normalized_token_usage a b) u us
    → GreatestUsage a u (b ∷ us)
unfolding merge_normalized_token_usage
GreatestUsage-merge a b u us (h, k, l) = (
  Greatest-larger a.input_tokens b.input_tokens _ _ h,
  Greatest-larger a.output_tokens b.output_tokens _ _ k,
  Greatest-larger a.input_cache_tokens b.input_cache_tokens _ _ l,
)

GreatestUsage-merge_decoded :
    (o : Option Object) (a u : TokenUsage) (us : List TokenUsage)
    → GreatestUsage (merge_decoded a o) u us
    → GreatestUsage a u (usage_of o ++ us)
unfolding merge_decoded usage_of
GreatestUsage-merge_decoded none a u us h = h
GreatestUsage-merge_decoded (some p) a u us h =
    GreatestUsage-merge a (normalized_token_usage_from_payload p) u us h

stream_usage-GreatestUsage :
    (codec : Codec) (es : List SseEvent) (a : TokenUsage)
    → GreatestUsage a (stream_usage codec es a) (reported codec es)
unfolding stream_usage reported
stream_usage-GreatestUsage codec [] a = (
  (leb_ℤ_same a.input_tokens, tt, inl refl),
  (leb_ℤ_same a.output_tokens, tt, inl refl),
  (leb_ℤ_same a.input_cache_tokens, tt, inl refl),
)
stream_usage-GreatestUsage codec (e ∷ es) a =
    let o = decode_logging_sse_json codec e.data_text in
    GreatestUsage-merge_decoded o a (stream_usage codec es (merge_decoded a o)) (reported codec es)
      (stream_usage-GreatestUsage codec es (merge_decoded a o))

-- Of a body that is an event stream, each field of the extracted usage is at least zero, is no
-- smaller than in any usage that an event reports, and is zero or one of them.
pub extract_normalized_token_usage-GreatestUsage :
    (codec : Codec) (content_type body : Text) (es : List SseEvent)
    → is_empty body ≡ false
    → contains_text (codes "text/event-stream") (to_lower content_type) ≡ true
    → parse_logging_sse_stream body ≡ some es
    → GreatestUsage no_usage
        (extract_normalized_token_usage codec content_type body)
        (reported codec es)
unfolding extract_normalized_token_usage
extract_normalized_token_usage-GreatestUsage codec content_type body es h k l =
    rw (h, k, l) (stream_usage-GreatestUsage codec es no_usage)
