-- ===== src/ToResponses/SentDeltas.antt =====
-- The deltas of text that an upstream sends, described apart from the converter, and the same by
-- its functions.
use token_gate.Base.{
  ◌≡◌, refl, sym, ap, ◌∙◌, inl, inr, Bool, true, false, not, ◌&&◌, List, [], ◌∷◌, ◌++◌,
  if◌then◌else◌, Bool-cases, ℤ,
}
use token_gate.Json.{Object, get, as_string, as_object, int_value, Codec}
use token_gate.Sse.{SseEvent}
use token_gate.Streams.{
  Decoding, malformed, nothing_sent, payload, decode_sse_json, is_ping, event_type,
}
use token_gate.Streams.Sent.{
  is_named_ping, is_ping-named, sent_payload, payload_of, payload_of-decode_sse_json, is_of_type,
  event_type-is_of_type,
}
use token_gate.Text.{Text, codes, text_eq, is_empty, trim_space}
use token_gate.Text.Laws.{text_eq_iff}
use token_gate.ToResponses.{
  block_index, delta_text, MessagesKind, at_message_start, at_block_start, at_block_delta,
  at_block_stop, at_message_delta, at_message_stop, at_error, at_unknown, messages_kind,
}

-- The member `delta` has the type of a delta of text.
abbrev pub is_text_delta : Object → Bool
unfolding text_eq trim_space get as_string as_object
is_text_delta p =
    text_eq (trim_space (as_string (get (codes "type") (as_object (get (codes "delta") p)))))
      (codes "text_delta")

-- The delta of text that a payload holds: an empty one is none.
unfoldable pub held_delta : Object → List (ℤ × Text)
unfolding text_eq trim_space get as_string as_object int_value is_empty
held_delta p =
    let text = as_string (get (codes "text") (as_object (get (codes "delta") p))) in
    if is_text_delta p && not (is_empty text)
    then (int_value (get (codes "index") p), text) ∷ []
    else []

-- The delta of text that an event of the upstream carries.
unfoldable pub event_delta : Codec → SseEvent → List (ℤ × Text)
unfolding is_named_ping is_of_type sent_payload held_delta
event_delta codec e =
    let p = sent_payload codec e.data_text in
    if is_named_ping e.event
    then []
    else if is_of_type (codes "content_block_delta") p e
    then held_delta p
    else []

unfoldable pub sent_deltas : Codec → List SseEvent → List (ℤ × Text)
unfolding event_delta
sent_deltas codec [] = []
sent_deltas codec (e ∷ es) = event_delta codec e ++ sent_deltas codec es

-- The same, by the kinds that the converter tells apart.
unfoldable pub delta_in : MessagesKind → Object → List (ℤ × Text)
unfolding held_delta
delta_in at_block_delta p = held_delta p
delta_in _ p = []

unfoldable pub decoded_delta : SseEvent → Decoding → List (ℤ × Text)
unfolding event_type messages_kind delta_in
decoded_delta e (payload p) = delta_in (messages_kind (event_type p e)) p
decoded_delta e _ = []

unfoldable pub seen_deltas : Codec → List SseEvent → List (ℤ × Text)
unfolding is_ping decode_sse_json decoded_delta
seen_deltas codec [] = []
seen_deltas codec (e ∷ es) =
    (if is_ping e.event then [] else decoded_delta e (decode_sse_json codec e.data_text))
    ++ seen_deltas codec es

kind_at_delta :
    (p : Object) → delta_in (messages_kind (codes "content_block_delta")) p ≡ held_delta p
unfolding delta_in messages_kind
kind_at_delta p = refl

no_delta :
    (a b d f g h : Bool) (p : Object)
    → delta_in
        (if a
          then at_message_start
          else if b
          then at_block_start
          else if d
          then at_block_stop
          else if f
          then at_message_delta
          else if g
          then at_message_stop
          else if h
          then at_error
          else at_unknown)
        p
      ≡ []
unfolding delta_in
no_delta true b d f g h p = refl
no_delta false true d f g h p = refl
no_delta false false true f g h p = refl
no_delta false false false true g h p = refl
no_delta false false false false true h p = refl
no_delta false false false false false true p = refl
no_delta false false false false false false p = refl

delta_of_kind :
    (t : Text) (p : Object)
    → delta_in (messages_kind t) p
      ≡ (if text_eq t (codes "content_block_delta") then held_delta p else [])
delta_of_kind t p = elim (Bool-cases (text_eq t (codes "content_block_delta"))) [
  | inl e ↦ rw e (
      ap (λ x. delta_in (messages_kind x) p) ((text_eq_iff t (codes "content_block_delta")).0 e)
      ∙ kind_at_delta p)
  | inr e ↦ unfold messages_kind in rw e (no_delta _ _ _ _ _ _ p)
]

abbrev no_deltas : List (ℤ × Text)
no_deltas = []

nothing_either : (t : Bool) → (if t then no_deltas else []) ≡ []
nothing_either true = refl
nothing_either false = refl

delta_of_decoded :
    (e : SseEvent) (d : Decoding)
    → decoded_delta e d ≡ (
        if is_of_type (codes "content_block_delta") (payload_of d) e
        then held_delta (payload_of d)
        else [])
unfolding decoded_delta held_delta
delta_of_decoded e (payload p) =
    delta_of_kind (event_type p e) p
    ∙ ap (λ t. if t then held_delta p else [])
        (event_type-is_of_type (codes "content_block_delta") p e
          (unfold is_empty trim_space in refl))
delta_of_decoded e malformed = sym (nothing_either (is_of_type (codes "content_block_delta") [] e))
delta_of_decoded e nothing_sent =
    sym (nothing_either (is_of_type (codes "content_block_delta") [] e))

delta_by_event :
    (codec : Codec) (e : SseEvent)
    → (if is_ping e.event then [] else decoded_delta e (decode_sse_json codec e.data_text))
      ≡ event_delta codec e
unfolding event_delta
delta_by_event codec e =
    ap (λ t. if t then [] else decoded_delta e (decode_sse_json codec e.data_text))
      (is_ping-named e.event)
    ∙ ap (λ x. if is_named_ping e.event then [] else x)
        (delta_of_decoded e (decode_sse_json codec e.data_text)
          ∙ ap (λ p. if is_of_type (codes "content_block_delta") p e then held_delta p else [])
              (payload_of-decode_sse_json codec e.data_text))

pub seen_are_sent :
    (codec : Codec) (es : List SseEvent) → seen_deltas codec es ≡ sent_deltas codec es
unfolding seen_deltas sent_deltas
seen_are_sent codec [] = refl
seen_are_sent codec (e ∷ es) =
    ap (λ x. x ++ seen_deltas codec es) (delta_by_event codec e)
    ∙ ap (λ x. event_delta codec e ++ x) (seen_are_sent codec es)

abbrev one_delta : ℤ → Text → List (ℤ × Text)
one_delta i text = (i, text) ∷ []

-- The delta by the two functions of the converter.
delta_by :
    (t : Bool) (i : ℤ) (text : Text)
    → (if t && not (is_empty text) then one_delta i text else [])
      ≡ (if is_empty (if t then text else []) then [] else one_delta i (if t then text else []))
delta_by true i text = elim (Bool-cases (is_empty text)) [ inl e ↦ rw e refl | inr e ↦ rw e refl ]
delta_by false i text = unfold is_empty in refl

pub delta_in_lem :
    (p : Object)
    → delta_in at_block_delta p
      ≡ (if is_empty (delta_text p) then [] else (block_index p, delta_text p) ∷ [])
unfolding delta_in held_delta delta_text block_index
delta_in_lem p = delta_by (is_text_delta p) (block_index p) _
