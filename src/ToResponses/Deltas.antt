-- ===== src/ToResponses/Deltas.antt =====
-- The converter passes every delta of text on, and no other.
use token_gate.Base.{
  ◌≡◌, refl, sym, ap, ◌∙◌, subst, inl, inr, Bool, true, false, some, List, [], ◌∷◌, ◌++◌,
  append-nil, append_assoc, if◌then◌else◌, Bool-cases, OptionAll, OptionAll-and_then_both,
  OptionAll-mono, ℤ, pos,
}
use token_gate.Json.{Object, get, as_object, Codec}
use token_gate.ResponsesEvents.{
  ResponsesEvent, response_begun, item_added, part_added, text_delta, text_done, part_done,
  item_done, response_ended, open_ai_error,
}
use token_gate.Sse.{SseEvent}
use token_gate.Streams.{
  block_at, set_block, ordered_block_indexes, Decoding, malformed, nothing_sent, payload,
  decode_sse_json, is_ping, event_type, is_anthropic_text_block, open_ai_error_payload,
}
use token_gate.Text.{Text, codes, is_empty}
use token_gate.ToResponses.{
  ToResponses, append_event, created_response, ensure_responses_created, role_or_assistant,
  with_item_id, ensure_responses_output_item_added, ensure_responses_content_part_added, close_part,
  close_parts, close_open_responses_blocks, build_responses_output_item, ensure_item, ensure_part,
  message_state, on_message_start, block_index, on_block_start, grow_part, delta_text,
  on_block_delta, on_block_stop, on_message_delta, ended_rest, end_response, on_message_stop,
  MessagesKind, at_message_start, at_block_start, at_block_delta, at_block_stop, at_message_delta,
  at_message_stop, at_error, at_unknown, messages_kind, handle_kind, convert_decoded, convert_event,
  convert_events, first_state,
}
use token_gate.ToResponses.SentDeltas.{
  sent_deltas, delta_in, decoded_delta, seen_deltas, seen_are_sent, delta_in_lem,
}

-- The delta that an event carries.
pub delta_of : ResponsesEvent → List (ℤ × Text)
delta_of (text_delta id i text) = (i, text) ∷ []
delta_of _ = []

pub written_deltas : List ResponsesEvent → List (ℤ × Text)
written_deltas [] = []
written_deltas (e ∷ es) = delta_of e ++ written_deltas es

written_deltas-append :
    (es : List ResponsesEvent) (e : ResponsesEvent)
    → written_deltas (es ++ (e ∷ [])) ≡ written_deltas es ++ delta_of e
unfolding written_deltas
written_deltas-append [] e = append-nil (delta_of e)
written_deltas-append (d ∷ es) e =
    ap (λ ds. delta_of d ++ ds) (written_deltas-append es e)
    ∙ sym (append_assoc (delta_of d) (written_deltas es) (delta_of e))

-- A state that has gained these deltas over another one.
abbrev pub Gains : List (ℤ × Text) → ToResponses → ToResponses → Type 0
Gains ds s q = written_deltas q.out ≡ written_deltas s.out ++ ds

Gains-nothing : (s : ToResponses) → Gains [] s s
Gains-nothing s = sym (append-nil (written_deltas s.out))

Gains-both :
    (ds es : List (ℤ × Text)) (s q r : ToResponses)
    → Gains ds s q
    → Gains es q r
    → Gains (ds ++ es) s r
Gains-both ds es s q r h k = k ∙ ap (λ x. x ++ es) h ∙ append_assoc (written_deltas s.out) ds es

Gains-event :
    (e : ResponsesEvent) (s q : ToResponses) → q.out ≡ s.out ++ (e ∷ []) → Gains (delta_of e) s q
Gains-event e s q h = ap written_deltas h ∙ written_deltas-append s.out e

Gains-unless :
    (t : Bool) (e : ResponsesEvent) (s q : ToResponses)
    → q.out ≡ s.out ++ (e ∷ [])
    → delta_of e ≡ []
    → Gains [] s (if t then s else q)
Gains-unless true e s q h k = Gains-nothing s
Gains-unless false e s q h k = Gains-event e s q h ∙ ap (λ ds. written_deltas s.out ++ ds) k

ensure_part-Gains :
    (i : ℤ) (s : ToResponses) → Gains [] s (ensure_item s) × Gains [] s (ensure_part i s)
unfolding ensure_responses_created ensure_responses_output_item_added
    ensure_responses_content_part_added delta_of
ensure_part-Gains i s =
    let a = ensure_responses_created s in
    let b = ensure_item s in
    let first : Gains [] s a =
      Gains-unless s.created (response_begun (created_response s)) s _ refl refl in
    let both : Gains [] s b = Gains-both [] [] s a b first (
      Gains-unless a.added
        (item_added (with_item_id a).item_id (role_or_assistant (with_item_id a))) a _ refl refl) in
    (
      both,
      Gains-both [] [] s b (ensure_part i s) both
          (Gains-unless (block_at i b.blocks).started (part_added b.item_id i) b _ refl refl),
    )

close_part-Gains : (i : ℤ) (s : ToResponses) → Gains [] s (close_part i s)
unfolding close_part delta_of
close_part-Gains i s = elim (Bool-cases ((block_at i s.blocks).is_open)) [
  | inl e ↦
      let block = block_at i s.blocks in
      let q : ToResponses = append_event (text_done s.item_id i block.text) s in
      let r : ToResponses = record (append_event (part_done s.item_id i block.text) q) {
        blocks = set_block i (record block { is_open = false }) s.blocks;
      } in
      rw e (
        Gains-both [] [] s q r (Gains-event (text_done s.item_id i block.text) s q refl)
          (Gains-event (part_done s.item_id i block.text) q r refl))
  | inr e ↦ rw e (Gains-nothing s)
]

close_parts-Gains : (is : List ℤ) (s : ToResponses) → Gains [] s (close_parts is s)
unfolding close_parts
close_parts-Gains [] s = Gains-nothing s
close_parts-Gains (i ∷ is) s =
    Gains-both [] [] s (close_part i s) (close_parts is (close_part i s)) (close_part-Gains i s)
      (close_parts-Gains is (close_part i s))

end_response-Gains : (s : ToResponses) → Gains [] s (end_response s)
unfolding end_response delta_of
end_response-Gains s =
    let it = build_responses_output_item s in
    let q : ToResponses = append_event (item_done it) s in
    Gains-both [] [] s q (end_response s) (Gains-event (item_done it) s q refl)
      (Gains-event (response_ended s.response_id s.model it (ended_rest s)) q (end_response s) refl)

on_message_stop-Gains : (s : ToResponses) → Gains [] s (on_message_stop s)
unfolding on_message_stop close_open_responses_blocks
on_message_stop-Gains s =
    let q = ensure_item s in
    let r = close_parts (ordered_block_indexes q.blocks) q in
    Gains-both [] [] s q (end_response r) (ensure_part-Gains (pos 0) s).0 (
      Gains-both [] [] q r (end_response r) (close_parts-Gains (ordered_block_indexes q.blocks) q)
        (end_response-Gains r))

on_block_start-Gains : (p : Object) (s : ToResponses) → Gains [] s (on_block_start p s)
unfolding on_block_start
on_block_start-Gains p s =
    elim (Bool-cases (is_anthropic_text_block (as_object (get (codes "content_block") p)))) [
      | inl e ↦ rw e (ensure_part-Gains (block_index p) s).1
      | inr e ↦ rw e (Gains-nothing s)
    ]

grow_part-Gains :
    (i : ℤ) (text : Text) (s : ToResponses) → Gains ((i, text) ∷ []) s (grow_part i text s)
unfolding grow_part delta_of
grow_part-Gains i text s = Gains-event (text_delta s.item_id i text) s (grow_part i text s) refl

on_block_delta_by :
    (p : Object) (s : ToResponses)
    → Gains
        (if is_empty (delta_text p) then [] else (block_index p, delta_text p) ∷ [])
        s
        (on_block_delta p s)
unfolding on_block_delta
on_block_delta_by p s = elim (Bool-cases (is_empty (delta_text p))) [
  | inl e ↦ rw e (Gains-nothing s)
  | inr e ↦
      let q = ensure_part (block_index p) s in
      rw e (
        Gains-both [] ((block_index p, delta_text p) ∷ []) s q
          (grow_part (block_index p) (delta_text p) q) (ensure_part-Gains (block_index p) s).1
          (grow_part-Gains (block_index p) (delta_text p) q))
]

on_block_delta-Gains :
    (p : Object) (s : ToResponses) → Gains (delta_in at_block_delta p) s (on_block_delta p s)
on_block_delta-Gains p s =
    subst (λ ds. Gains ds s (on_block_delta p s)) (sym (delta_in_lem p)) (on_block_delta_by p s)

on_block_stop-Gains : (p : Object) (s : ToResponses) → Gains [] s (on_block_stop p s)
unfolding on_block_stop
on_block_stop-Gains p s =
    let q = ensure_part (block_index p) s in
    Gains-both [] [] s q (close_part (block_index p) q) (ensure_part-Gains (block_index p) s).1
      (close_part-Gains (block_index p) q)

on_message_start-Gains : (p : Object) (s : ToResponses) → Gains [] s (on_message_start p s)
unfolding on_message_start message_state
on_message_start-Gains p s =
    (ensure_part-Gains (pos 0) (message_state (as_object (get (codes "message") p)) s)).0

open_ai_error-Gains : (p : Object) (s : ToResponses) → Gains [] s (append_event (open_ai_error p) s)
unfolding delta_of
open_ai_error-Gains p s = Gains-event (open_ai_error p) s (append_event (open_ai_error p) s) refl

handle_kind-Gains :
    (kind : MessagesKind) (p : Object) (s : ToResponses)
    → Gains (delta_in kind p) s (handle_kind kind p s)
unfolding handle_kind on_message_delta delta_in delta_of
handle_kind-Gains at_message_start p s = on_message_start-Gains p s
handle_kind-Gains at_block_start p s = on_block_start-Gains p s
handle_kind-Gains at_block_delta p s = on_block_delta-Gains p s
handle_kind-Gains at_block_stop p s = on_block_stop-Gains p s
handle_kind-Gains at_message_delta p s = Gains-nothing s
handle_kind-Gains at_message_stop p s = on_message_stop-Gains s
handle_kind-Gains at_error p s = open_ai_error-Gains (open_ai_error_payload p) s
handle_kind-Gains at_unknown p s = Gains-nothing s

convert_decoded-Gains :
    (e : SseEvent) (d : Decoding) (s : ToResponses)
    → OptionAll (λ q. Gains (decoded_delta e d) s q) (convert_decoded e d s)
unfolding convert_decoded decoded_delta
convert_decoded-Gains e malformed s = tt
convert_decoded-Gains e nothing_sent s = Gains-nothing s
convert_decoded-Gains e (payload p) s = handle_kind-Gains (messages_kind (event_type p e)) p s

abbrev event_deltas : Codec → SseEvent → List (ℤ × Text)
event_deltas codec e =
    if is_ping e.event then [] else decoded_delta e (decode_sse_json codec e.data_text)

convert_event-Gains :
    (codec : Codec) (e : SseEvent) (s : ToResponses)
    → OptionAll (λ q. Gains (event_deltas codec e) s q) (convert_event codec e s)
unfolding convert_event
convert_event-Gains codec e s = elim (Bool-cases (is_ping e.event)) [
  | inl t ↦ rw t (Gains-nothing s)
  | inr t ↦ rw t (convert_decoded-Gains e (decode_sse_json codec e.data_text) s)
]

convert_events-Gains :
    (codec : Codec) (es : List SseEvent) (s : ToResponses)
    → OptionAll (λ q. Gains (seen_deltas codec es) s q) (convert_events codec es s)
unfolding convert_events seen_deltas
convert_events-Gains codec [] s = Gains-nothing s
convert_events-Gains codec (e ∷ es) s =
    let ds = event_deltas codec e in
    let rest = seen_deltas codec es in
    OptionAll-and_then_both (λ q. Gains ds s q) (λ r. Gains (ds ++ rest) s r)
      (convert_events codec es) (convert_event codec e s) (convert_event-Gains codec e s)
      (λ q h.
        OptionAll-mono (λ r. Gains rest q r) (λ r. Gains (ds ++ rest) s r)
          (convert_events codec es q) (λ r k. Gains-both ds rest s q r h k)
          (convert_events-Gains codec es q))

-- If the converter does not fail, the deltas of text in its events are those that the upstream
-- sent, in the same order and under the same indexes, less the empty ones.
pub written_deltas-convert_events :
    (codec : Codec) (es : List SseEvent) (s : ToResponses)
    → convert_events codec es first_state ≡ some s
    → written_deltas s.out ≡ sent_deltas codec es
unfolding written_deltas
written_deltas-convert_events codec es s h =
    subst (OptionAll (λ q. Gains (seen_deltas codec es) first_state q)) h
      (convert_events-Gains codec es first_state)
    ∙ seen_are_sent codec es
