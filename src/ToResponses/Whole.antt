-- ===== src/ToResponses/Whole.antt =====
-- The converter keeps the order of the events, and its closing events carry the whole texts.
use token_gate.Base.{
  ◌≡◌, refl, sym, ◌∙◌, subst, inl, inr, Bool, true, false, not, some, List, [], ◌∷◌, arith,
  if◌then◌else◌, Bool-cases, and_true, OptionAll, OptionAll-and_then_both, ℤ,
}
use token_gate.Json.{Object, get, as_object, Codec}
use token_gate.ResponsesEvents.{open_ai_error}
use token_gate.Sse.{SseEvent}
use token_gate.Streams.{
  block_at, Decoding, malformed, nothing_sent, payload, decode_sse_json, is_ping, event_type,
  is_anthropic_text_block, open_ai_error_payload,
}
use token_gate.Streams.Courses.{
  Course, first_course, is_gone, open_if_live, is_gone-finished, is_gone-itself,
}
use token_gate.Text.{codes, is_empty}
use token_gate.ToResponses.{
  ToResponses, append_event, close_part, ensure_part, message_state, on_message_start, block_index,
  on_block_start, grow_part, delta_text, on_block_delta, on_block_stop, on_message_delta,
  MessagesKind, at_message_start, at_block_start, at_block_delta, at_block_stop, at_message_delta,
  at_message_stop, at_error, at_unknown, messages_kind, handle_kind, convert_decoded, convert_event,
  convert_events, first_state,
}
use token_gate.ToResponses.Arrivals.{
  may_arrive, after_arrival, may_be_decoded, after_decoding, may_be_seen, after_seen,
  may_be_seen_lem, after_seen_lem,
}
use token_gate.ToResponses.Ends.{on_message_stop-Follows}
use token_gate.ToResponses.Grammar.{
  Stage, running, response_over, first_reading, is_ascending, accept, accept_all, reading_of,
  Follows, Follows-more,
}
use token_gate.ToResponses.Parts.{
  appended, ensure_item-Follows, ensure_part-Follows, grow_part-Follows, close_part-Follows,
}
use token_gate.ToResponses.Upstream.{may_be_sent, after_sent, is_in_order, after_stream}

-- The stage of a response whose upstream has, or has not, ended.
abbrev pub stage_of : Bool → Stage
stage_of true = response_over
stage_of false = running

-- The state is accepted, when the upstream has come this far.
abbrev Keeps : Course → ToResponses → Type 0
Keeps u s = Follows (stage_of u.complete) (is_gone u) s

-- Where the upstream has not ended the whole.
unended :
    (u : Course) (s : ToResponses) → u.complete ≡ false → Keeps u s → Follows running (is_gone u) s
unended u s h t = subst (λ e. Follows (stage_of e) (is_gone u) s) h t

still :
    (u : Course) (s : ToResponses) → u.complete ≡ false → Follows running (is_gone u) s → Keeps u s
still u s h t = subst (λ e. Follows (stage_of e) (is_gone u) s) (sym h) t

on_block_start-Keeps :
    (p : Object) (u : Course) (s : ToResponses)
    → u.complete ≡ false
    → Keeps u s
    → Keeps u (on_block_start p s)
unfolding on_block_start
on_block_start-Keeps p u s c h =
    elim (Bool-cases (is_anthropic_text_block (as_object (get (codes "content_block") p)))) [
      | inl e ↦ rw e (
          still u (ensure_part (block_index p) s) c
            (ensure_part-Follows (block_index p) s (unended u s c h)).0)
      | inr e ↦ rw e h
    ]

not_complete : (u : Course) (i : ℤ) → is_gone u i ≡ false → u.complete ≡ false
not_complete u i h = ground (arith, h)

on_block_delta-Keeps :
    (p : Object) (u : Course) (s : ToResponses)
    → is_gone u (block_index p) ≡ false
    → Keeps u s
    → Keeps u (on_block_delta p s)
unfolding on_block_delta
on_block_delta-Keeps p u s g h = elim (Bool-cases (is_empty (delta_text p))) [
  | inl e ↦ rw e h
  | inr e ↦
      let i = block_index p in
      let c = not_complete u i g in
      let q = ensure_part i s in
      let (k, a, d) = ensure_part-Follows i s (unended u s c h) in
      rw e (
        still u (grow_part i (delta_text p) q) c (
          grow_part-Follows i (delta_text p) q k a
            (open_if_live (is_gone u i) (block_at i q.blocks) (k.live_ok i) g d)))
]

on_block_stop-Keeps :
    (p : Object) (u : Course) (s : ToResponses)
    → u.complete ≡ false
    → Keeps u s
    → Keeps (record u { finished = block_index p ∷ u.finished }) (on_block_stop p s)
unfolding on_block_stop
on_block_stop-Keeps p u s c h =
    let i = block_index p in
    let v : Course = record u { finished = i ∷ u.finished } in
    let f : Follows running (is_gone v) s =
      Follows-more running (is_gone u) (is_gone v) s (λ j k. is_gone-finished u i j k)
        (unended u s c h) in
    still v (close_part i (ensure_part i s)) c
      (close_part-Follows i (ensure_part i s) (is_gone-itself u i) (ensure_part-Follows i s f).0)

on_message_start-Keeps :
    (p : Object) (u : Course) (s : ToResponses) → Keeps u s → Keeps u (on_message_start p s)
unfolding on_message_start
on_message_start-Keeps p u s h =
    let q = message_state (as_object (get (codes "message") p)) s in
    let g : Keeps u q =
      unfold message_state in
      record { accepted = h.accepted; live_ok = h.live_ok; ascends = h.ascends } in
    (ensure_item-Follows q g).0

on_message_delta-Keeps :
    (p : Object) (u : Course) (s : ToResponses) → Keeps u s → Keeps u (on_message_delta p s)
unfolding on_message_delta
on_message_delta-Keeps p u s h = record {
  accepted = h.accepted;
  live_ok = h.live_ok;
  ascends = h.ascends;
}

open_ai_error-Keeps :
    (p : Object) (u : Course) (s : ToResponses)
    → Keeps u s
    → Keeps u (append_event (open_ai_error p) s)
open_ai_error-Keeps p u s h =
    appended (open_ai_error p) s (append_event (open_ai_error p) s) h refl (unfold accept in refl)
      h.live_ok h.ascends

refuted : (t : Bool) → not t ≡ true → t ≡ false
refuted t h = ground (arith, h)

handle_kind-Keeps :
    (kind : MessagesKind) (p : Object) (u : Course) (s : ToResponses)
    → may_arrive kind p u ≡ true
    → Keeps u s
    → Keeps (after_arrival kind p u) (handle_kind kind p s)
unfolding handle_kind may_arrive after_arrival
handle_kind-Keeps at_message_start p u s a h = on_message_start-Keeps p u s h
handle_kind-Keeps at_block_start p u s a h = on_block_start-Keeps p u s (refuted u.complete a) h
handle_kind-Keeps at_block_delta p u s a h =
    on_block_delta-Keeps p u s (refuted (is_gone u (block_index p)) a) h
handle_kind-Keeps at_block_stop p u s a h = on_block_stop-Keeps p u s (refuted u.complete a) h
handle_kind-Keeps at_message_delta p u s a h = on_message_delta-Keeps p u s h
handle_kind-Keeps at_message_stop p u s a h =
    on_message_stop-Follows (is_gone u) s (unended u s (refuted u.complete a) h)
handle_kind-Keeps at_error p u s a h = open_ai_error-Keeps (open_ai_error_payload p) u s h
handle_kind-Keeps at_unknown p u s a h = h

convert_decoded-Keeps :
    (e : SseEvent) (d : Decoding) (u : Course) (s : ToResponses)
    → may_be_decoded e d u ≡ true
    → Keeps u s
    → OptionAll (Keeps (after_decoding e d u)) (convert_decoded e d s)
unfolding convert_decoded may_be_decoded after_decoding
convert_decoded-Keeps e malformed u s a h = tt
convert_decoded-Keeps e nothing_sent u s a h = h
convert_decoded-Keeps e (payload p) u s a h =
    handle_kind-Keeps (messages_kind (event_type p e)) p u s a h

convert_seen-Keeps :
    (codec : Codec) (e : SseEvent) (u : Course) (s : ToResponses)
    → may_be_seen codec e u ≡ true
    → Keeps u s
    → OptionAll (Keeps (after_seen codec e u)) (convert_event codec e s)
unfolding convert_event may_be_decoded after_decoding
convert_seen-Keeps codec e u s a h = by_ping (is_ping e.event) a
  where
    by_ping :
        (b : Bool)
        → (if b then true else may_be_decoded e (decode_sse_json codec e.data_text) u) ≡ true
        → OptionAll
            (Keeps (if b then u else after_decoding e (decode_sse_json codec e.data_text) u))
            (if b then some s else convert_decoded e (decode_sse_json codec e.data_text) s)
    by_ping true k = h
    by_ping false k = convert_decoded-Keeps e (decode_sse_json codec e.data_text) u s k h

convert_event-Keeps :
    (codec : Codec) (e : SseEvent) (u : Course) (s : ToResponses)
    → may_be_sent codec e u ≡ true
    → Keeps u s
    → OptionAll (Keeps (after_sent codec e u)) (convert_event codec e s)
convert_event-Keeps codec e u s a h =
    subst (λ v. OptionAll (Keeps v) (convert_event codec e s)) (sym (after_seen_lem codec e u))
      (convert_seen-Keeps codec e u s (sym (may_be_seen_lem codec e u) ∙ a) h)

convert_events-Keeps :
    (codec : Codec) (es : List SseEvent) (u : Course) (s : ToResponses)
    → is_in_order codec es u ≡ true
    → Keeps u s
    → OptionAll (Keeps (after_stream codec es u)) (convert_events codec es s)
unfolding convert_events is_in_order after_stream
convert_events-Keeps codec [] u s a h = h
convert_events-Keeps codec (e ∷ es) u s a h =
    let (b, c) = and_true _ _ a in
    OptionAll-and_then_both (Keeps (after_sent codec e u))
      (Keeps (after_stream codec es (after_sent codec e u))) (convert_events codec es)
      (convert_event codec e s) (convert_event-Keeps codec e u s b h)
      (λ q k. convert_events-Keeps codec es (after_sent codec e u) q c k)

-- If the upstream is in order, that is, sends no delta for a block that it has stopped, and neither
-- a block nor a delta nor a stop after the end, and if the converter does not fail, its events stand
-- in an order that the protocol allows: the response and then its item begin once; a part begins
-- once and has its deltas while it is open; a closing event of a part carries the text of all its
-- deltas; the item and then the response end once, with every part closed and with the texts of
-- all of them in the item, by ascending index; and nothing but errors after that. The response has
-- ended exactly if the upstream has.
pub convert_events-accept_all :
    (codec : Codec) (es : List SseEvent) (s : ToResponses)
    → is_in_order codec es first_course ≡ true
    → convert_events codec es first_state ≡ some s
    → accept_all s.out first_reading
      ≡ some (reading_of (stage_of (after_stream codec es first_course).complete) s)
convert_events-accept_all codec es s o h =
    let f : Keeps (after_stream codec es first_course) s =
      subst (OptionAll (Keeps (after_stream codec es first_course))) h (
        convert_events-Keeps codec es first_course first_state o (record {
          accepted = unfold accept_all in refl;
          live_ok = λ j. unfold block_at in refl;
          ascends = unfold is_ascending in refl;
        })) in
    f.accepted
