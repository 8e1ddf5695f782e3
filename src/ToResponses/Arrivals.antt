-- ===== src/ToResponses/Arrivals.antt =====
-- The order of the upstream by the kinds of events that the converter tells apart.
use token_gate.Base.{
  ◌≡◌, refl, sym, ap, ◌∙◌, subst, inl, inr, Bool, true, false, not, none, some, ◌∷◌, if◌then◌else◌,
  Bool-cases,
}
use token_gate.Json.{Object, Codec}
use token_gate.Sse.{SseEvent}
use token_gate.Streams.{
  Decoding, malformed, nothing_sent, payload, decode_sse_json, is_ping, event_type,
}
use token_gate.Streams.Courses.{Course, is_gone}
use token_gate.Streams.Sent.{
  is_named_ping, is_ping-named, found_payload, found_payload-decode_sse_json, type_is, all_the_same,
}
use token_gate.Text.{Text, codes, text_eq, is_empty, trim_space}
use token_gate.Text.Laws.{text_eq_iff}
use token_gate.ToResponses.{
  block_index, MessagesKind, at_block_start, at_block_delta, at_block_stop, at_message_stop,
  at_error, at_unknown, messages_kind,
}
use token_gate.ToResponses.Upstream.{may_hold, after_holding, may_be_sent, after_sent}

unfoldable pub may_arrive : MessagesKind → Object → Course → Bool
unfolding block_index
may_arrive at_block_start p u = not u.complete
may_arrive at_block_delta p u = not (is_gone u (block_index p))
may_arrive at_block_stop p u = not u.complete
may_arrive at_message_stop p u = not u.complete
may_arrive kind p u = true

unfoldable pub after_arrival : MessagesKind → Object → Course → Course
unfolding block_index
after_arrival at_block_stop p u = record u { finished = block_index p ∷ u.finished }
after_arrival at_message_stop p u = record u { complete = true }
after_arrival kind p u = u

unfoldable pub may_be_decoded : SseEvent → Decoding → Course → Bool
unfolding event_type messages_kind may_arrive
may_be_decoded e (payload p) u = may_arrive (messages_kind (event_type p e)) p u
may_be_decoded e d u = true

unfoldable pub after_decoding : SseEvent → Decoding → Course → Course
unfolding event_type messages_kind after_arrival
after_decoding e (payload p) u = after_arrival (messages_kind (event_type p e)) p u
after_decoding e d u = u

abbrev pub may_be_seen : Codec → SseEvent → Course → Bool
unfolding is_ping decode_sse_json may_be_decoded
may_be_seen codec e u =
    if is_ping e.event then true else may_be_decoded e (decode_sse_json codec e.data_text) u

abbrev pub after_seen : Codec → SseEvent → Course → Course
unfolding is_ping decode_sse_json after_decoding
after_seen codec e u =
    if is_ping e.event then u else after_decoding e (decode_sse_json codec e.data_text) u

-- The tests of an orderly upstream, on the type of an event.
may_be_of : Text → Course → Object → Bool
unfolding text_eq block_index
may_be_of t u p =
    if text_eq t (codes "content_block_start")
    then not u.complete
    else if text_eq t (codes "content_block_delta")
    then not (is_gone u (block_index p))
    else if text_eq t (codes "content_block_stop")
    then not u.complete
    else if text_eq t (codes "message_stop")
    then not u.complete
    else true

after_one_of : Text → Course → Object → Course
unfolding text_eq block_index
after_one_of t u p =
    if text_eq t (codes "content_block_stop")
    then record u { finished = block_index p ∷ u.finished }
    else if text_eq t (codes "message_stop")
    then record u { complete = true }
    else u

-- The kinds that stand behind the start of a message and its delta.
may_arrive_by :
    (a b c g h : Bool) (p : Object) (u : Course)
    → may_arrive
        (if a
          then at_block_start
          else if b
          then at_block_delta
          else if c
          then at_block_stop
          else if g
          then at_message_stop
          else if h
          then at_error
          else at_unknown)
        p
        u
      ≡ (if a
          then not u.complete
          else if b
          then not (is_gone u (block_index p))
          else if c
          then not u.complete
          else if g
          then not u.complete
          else true)
unfolding may_arrive
may_arrive_by true b c g h p u = refl
may_arrive_by false true c g h p u = refl
may_arrive_by false false true g h p u = refl
may_arrive_by false false false true h p u = refl
may_arrive_by false false false false true p u = refl
may_arrive_by false false false false false p u = refl

may_arrive_kind :
    (t : Text) (p : Object) (u : Course) → may_arrive (messages_kind t) p u ≡ may_be_of t u p
unfolding messages_kind may_be_of
may_arrive_kind t p u = elim (Bool-cases (text_eq t (codes "message_start"))) [
  | inl e ↦
      subst (λ x. may_arrive (messages_kind x) p u ≡ may_be_of x u p)
        (sym ((text_eq_iff t (codes "message_start")).0 e)) (unfold may_arrive in refl)
  | inr e ↦ elim (Bool-cases (text_eq t (codes "message_delta"))) [
    | inl d ↦
        subst (λ x. may_arrive (messages_kind x) p u ≡ may_be_of x u p)
          (sym ((text_eq_iff t (codes "message_delta")).0 d)) (unfold may_arrive in refl)
    | inr d ↦ rw (e, d) (may_arrive_by _ _ _ _ _ p u)
  ]
]

after_arrival_by :
    (c g h : Bool) (p : Object) (u : Course)
    → after_arrival
        (if c
          then at_block_stop
          else if g
          then at_message_stop
          else if h
          then at_error
          else at_unknown)
        p
        u
      ≡ (if c
          then record u { finished = block_index p ∷ u.finished }
          else if g
          then record u { complete = true }
          else u)
unfolding after_arrival
after_arrival_by true g h p u = refl
after_arrival_by false true h p u = refl
after_arrival_by false false true p u = refl
after_arrival_by false false false p u = refl

-- At the name of a type.
abbrev SameAfter : Object → Course → Text → Type 0
SameAfter p u t = after_arrival (messages_kind t) p u ≡ after_one_of t u p

after_arrival_at :
    (name t : Text) (p : Object) (u : Course)
    → SameAfter p u name
    → (text_eq t name ≡ false → SameAfter p u t)
    → SameAfter p u t
after_arrival_at name t p u h k = elim (Bool-cases (text_eq t name)) [
  | inl e ↦ subst (SameAfter p u) (sym ((text_eq_iff t name).0 e)) h
  | inr e ↦ k e
]

after_arrival_kind : (t : Text) (p : Object) (u : Course) → SameAfter p u t
unfolding messages_kind after_one_of
after_arrival_kind t p u =
    after_arrival_at (codes "message_start") t p u (unfold after_arrival in refl) (λ a.
      after_arrival_at (codes "content_block_start") t p u (unfold after_arrival in refl) (λ b.
        after_arrival_at (codes "content_block_delta") t p u (unfold after_arrival in refl) (λ c.
          after_arrival_at (codes "message_delta") t p u (unfold after_arrival in refl)
            (λ d. rw (a, b, c, d) (after_arrival_by _ _ _ p u)))))

may_hold_by :
    (e : SseEvent) (u : Course) (p : Object)
    → may_hold e u p ≡ may_arrive (messages_kind (event_type p e)) p u
unfolding may_hold may_be_of block_index
may_hold_by e u p =
    (rw
      (
        type_is (codes "content_block_start") p e (unfold is_empty trim_space in refl),
        type_is (codes "content_block_delta") p e (unfold is_empty trim_space in refl),
        type_is (codes "content_block_stop") p e (unfold is_empty trim_space in refl),
        type_is (codes "message_stop") p e (unfold is_empty trim_space in refl),
      )
      (sym (may_arrive_kind (event_type p e) p u)))

after_holding_by :
    (e : SseEvent) (u : Course) (p : Object)
    → after_holding e u p ≡ after_arrival (messages_kind (event_type p e)) p u
unfolding after_holding after_one_of block_index
after_holding_by e u p =
    rw
      (
        type_is (codes "content_block_stop") p e (unfold is_empty trim_space in refl),
        type_is (codes "message_stop") p e (unfold is_empty trim_space in refl),
      )
      (sym (after_arrival_kind (event_type p e) p u))

may_come_decoded :
    (e : SseEvent) (u : Course) (d : Decoding)
    → (elim (found_payload d) as (λ o. Bool) [
      | none ↦ true
      | some p ↦ if is_named_ping e.event then true else may_hold e u p
    ])
      ≡ (if is_ping e.event then true else may_be_decoded e d u)
unfolding may_be_decoded
may_come_decoded e u malformed = all_the_same (is_ping e.event) true
may_come_decoded e u nothing_sent = all_the_same (is_ping e.event) true
may_come_decoded e u (payload p) = rw (is_ping-named e.event, may_hold_by e u p) refl

after_decoded :
    (e : SseEvent) (u : Course) (d : Decoding)
    → (elim (found_payload d) as (λ o. Course) [
      | none ↦ u
      | some p ↦ if is_named_ping e.event then u else after_holding e u p
    ])
      ≡ (if is_ping e.event then u else after_decoding e d u)
unfolding after_decoding
after_decoded e u malformed = all_the_same (is_ping e.event) u
after_decoded e u nothing_sent = all_the_same (is_ping e.event) u
after_decoded e u (payload p) = rw (is_ping-named e.event, after_holding_by e u p) refl

pub may_be_seen_lem :
    (codec : Codec) (e : SseEvent) (u : Course) → may_be_sent codec e u ≡ may_be_seen codec e u
unfolding may_be_sent may_be_seen
may_be_seen_lem codec e u =
    ap
      (λ o. elim o as (λ x. Bool) [
        | none ↦ true
        | some p ↦ if is_named_ping e.event then true else may_hold e u p
      ])
      (sym (found_payload-decode_sse_json codec e.data_text))
    ∙ may_come_decoded e u (decode_sse_json codec e.data_text)

pub after_seen_lem :
    (codec : Codec) (e : SseEvent) (u : Course) → after_sent codec e u ≡ after_seen codec e u
unfolding after_sent after_seen
after_seen_lem codec e u =
    ap
      (λ o. elim o as (λ x. Course) [
        | none ↦ u
        | some p ↦ if is_named_ping e.event then u else after_holding e u p
      ])
      (sym (found_payload-decode_sse_json codec e.data_text))
    ∙ after_decoded e u (decode_sse_json codec e.data_text)
