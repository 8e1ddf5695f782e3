-- ===== src/ToMessages/Arrivals.antt =====
-- The order of the upstream by the kinds of events that the converter tells apart.
use token_gate.Base.{
  ◌≡◌, refl, sym, ap, ◌∙◌, subst, inl, inr, Bool, true, false, not, none, some, ◌∷◌, if◌then◌else◌,
  Bool-cases,
}
use token_gate.Json.{Object, Codec}
use token_gate.Sse.{SseEvent}
use token_gate.Streams.{
  Decoding, malformed, nothing_sent, payload, decode_sse_json, is_ping, event_type,
}
use token_gate.Streams.Courses.{Course, is_gone}
use token_gate.Streams.Sent.{
  is_named_ping, is_ping-named, found_payload, found_payload-decode_sse_json, type_is, all_the_same,
}
use token_gate.Text.{Text, codes, text_eq, is_empty, trim_space}
use token_gate.Text.Laws.{text_eq_iff}
use token_gate.ToMessages.{
  content_index, ResponsesKind, is_part_added, is_delta, is_part_done, is_completed, is_failure,
  is_unknown, responses_kind,
}
use token_gate.ToMessages.Upstream.{may_carry, after_carrying, may_be_next, after_event}

unfoldable pub may_come : ResponsesKind → Object → Course → Bool
unfolding content_index
may_come is_part_added p u = not u.complete
may_come is_delta p u = not (is_gone u (content_index p))
may_come is_completed p u = not u.complete
may_come kind p u = true

unfoldable pub after_kind : ResponsesKind → Object → Course → Course
unfolding content_index
after_kind is_part_done p u = record u { finished = content_index p ∷ u.finished }
after_kind is_completed p u = record u { complete = true }
after_kind kind p u = u

unfoldable pub may_be_read : SseEvent → Decoding → Course → Bool
unfolding event_type responses_kind may_come
may_be_read e (payload p) u = may_come (responses_kind (event_type p e)) p u
may_be_read e d u = true

unfoldable pub after_reading : SseEvent → Decoding → Course → Course
unfolding event_type responses_kind after_kind
after_reading e (payload p) u = after_kind (responses_kind (event_type p e)) p u
after_reading e d u = u

abbrev pub may_be_taken : Codec → SseEvent → Course → Bool
unfolding is_ping decode_sse_json may_be_read
may_be_taken codec e u =
    if is_ping e.event then true else may_be_read e (decode_sse_json codec e.data_text) u

abbrev pub after_taken : Codec → SseEvent → Course → Course
unfolding is_ping decode_sse_json after_reading
after_taken codec e u =
    if is_ping e.event then u else after_reading e (decode_sse_json codec e.data_text) u

-- The tests of an orderly upstream, on the type of an event.
may_be_of : Text → Course → Object → Bool
unfolding text_eq content_index
may_be_of t u p =
    if text_eq t (codes "response.content_part.added")
    then not u.complete
    else if text_eq t (codes "response.output_text.delta")
    then not (is_gone u (content_index p))
    else if text_eq t (codes "response.completed")
    then not u.complete
    else true

after_one_of : Text → Course → Object → Course
unfolding text_eq content_index
after_one_of t u p =
    if text_eq t (codes "response.content_part.done")
    then record u { finished = content_index p ∷ u.finished }
    else if text_eq t (codes "response.completed")
    then record u { complete = true }
    else u

may_come_by :
    (a b g h : Bool) (p : Object) (u : Course)
    → may_come
        (if a
          then is_part_added
          else if b
          then is_delta
          else if g
          then is_completed
          else if h
          then is_failure
          else is_unknown)
        p
        u
      ≡ (if a
          then not u.complete
          else if b
          then not (is_gone u (content_index p))
          else if g
          then not u.complete
          else true)
unfolding may_come
may_come_by true b g h p u = refl
may_come_by false true g h p u = refl
may_come_by false false true h p u = refl
may_come_by false false false true p u = refl
may_come_by false false false false p u = refl

after_kind_by :
    (c g h : Bool) (p : Object) (u : Course)
    → after_kind
        (if c
          then is_part_done
          else if g
          then is_completed
          else if h
          then is_failure
          else is_unknown)
        p
        u
      ≡ (if c
          then record u { finished = content_index p ∷ u.finished }
          else if g
          then record u { complete = true }
          else u)
unfolding after_kind
after_kind_by true g h p u = refl
after_kind_by false true h p u = refl
after_kind_by false false true p u = refl
after_kind_by false false false p u = refl

-- A statement on a type, by whether the type has a certain name.
by_name : (P : Text → Type 0) (name t : Text) → P name → (text_eq t name ≡ false → P t) → P t
by_name P name t h k = elim (Bool-cases (text_eq t name)) [
  | inl e ↦ subst P (sym ((text_eq_iff t name).0 e)) h
  | inr e ↦ k e
]

abbrev SameTests : Object → Course → Text → Type 0
SameTests p u t = may_come (responses_kind t) p u ≡ may_be_of t u p

abbrev SameAfter : Object → Course → Text → Type 0
SameAfter p u t = after_kind (responses_kind t) p u ≡ after_one_of t u p

may_come_kind : (t : Text) (p : Object) (u : Course) → SameTests p u t
unfolding responses_kind may_be_of
may_come_kind t p u =
    let P = SameTests p u in
    by_name P (codes "response.created") t (unfold may_come in refl) (λ a.
      by_name P (codes "response.output_item.added") t (unfold may_come in refl) (λ b.
        by_name P (codes "response.output_text.done") t (unfold may_come in refl) (λ c.
          by_name P (codes "response.content_part.done") t (unfold may_come in refl)
            (λ d. rw (a, b, c, d) (may_come_by _ _ _ _ p u)))))

after_kind_kind : (t : Text) (p : Object) (u : Course) → SameAfter p u t
unfolding responses_kind after_one_of
after_kind_kind t p u =
    let P = SameAfter p u in
    by_name P (codes "response.created") t (unfold after_kind in refl) (λ a.
      by_name P (codes "response.output_item.added") t (unfold after_kind in refl) (λ b.
        by_name P (codes "response.content_part.added") t (unfold after_kind in refl) (λ c.
          by_name P (codes "response.output_text.delta") t (unfold after_kind in refl) (λ d.
            by_name P (codes "response.output_text.done") t (unfold after_kind in refl)
              (λ e. rw (a, b, c, d, e) (after_kind_by _ _ _ p u))))))

may_carry_by :
    (e : SseEvent) (u : Course) (p : Object)
    → may_carry e u p ≡ may_come (responses_kind (event_type p e)) p u
unfolding may_carry may_be_of content_index
may_carry_by e u p =
    rw
      (
        type_is (codes "response.content_part.added") p e (unfold is_empty trim_space in refl),
        type_is (codes "response.output_text.delta") p e (unfold is_empty trim_space in refl),
        type_is (codes "response.completed") p e (unfold is_empty trim_space in refl),
      )
      (sym (may_come_kind (event_type p e) p u))

after_carrying_by :
    (e : SseEvent) (u : Course) (p : Object)
    → after_carrying e u p ≡ after_kind (responses_kind (event_type p e)) p u
unfolding after_carrying after_one_of content_index
after_carrying_by e u p =
    rw
      (
        type_is (codes "response.content_part.done") p e (unfold is_empty trim_space in refl),
        type_is (codes "response.completed") p e (unfold is_empty trim_space in refl),
      )
      (sym (after_kind_kind (event_type p e) p u))

may_come_decoded :
    (e : SseEvent) (u : Course) (d : Decoding)
    → (elim (found_payload d) as (λ o. Bool) [
      | none ↦ true
      | some p ↦ if is_named_ping e.event then true else may_carry e u p
    ])
      ≡ (if is_ping e.event then true else may_be_read e d u)
unfolding may_be_read
may_come_decoded e u malformed = all_the_same (is_ping e.event) true
may_come_decoded e u nothing_sent = all_the_same (is_ping e.event) true
may_come_decoded e u (payload p) = rw (is_ping-named e.event, may_carry_by e u p) refl

after_decoded :
    (e : SseEvent) (u : Course) (d : Decoding)
    → (elim (found_payload d) as (λ o. Course) [
      | none ↦ u
      | some p ↦ if is_named_ping e.event then u else after_carrying e u p
    ])
      ≡ (if is_ping e.event then u else after_reading e d u)
unfolding after_reading
after_decoded e u malformed = all_the_same (is_ping e.event) u
after_decoded e u nothing_sent = all_the_same (is_ping e.event) u
after_decoded e u (payload p) = rw (is_ping-named e.event, after_carrying_by e u p) refl

pub may_be_taken_lem :
    (codec : Codec) (e : SseEvent) (u : Course) → may_be_next codec e u ≡ may_be_taken codec e u
unfolding may_be_next may_be_taken
may_be_taken_lem codec e u =
    ap
      (λ o. elim o as (λ x. Bool) [
        | none ↦ true
        | some p ↦ if is_named_ping e.event then true else may_carry e u p
      ])
      (sym (found_payload-decode_sse_json codec e.data_text))
    ∙ may_come_decoded e u (decode_sse_json codec e.data_text)

pub after_taken_lem :
    (codec : Codec) (e : SseEvent) (u : Course) → after_event codec e u ≡ after_taken codec e u
unfolding after_event after_taken
after_taken_lem codec e u =
    ap
      (λ o. elim o as (λ x. Course) [
        | none ↦ u
        | some p ↦ if is_named_ping e.event then u else after_carrying e u p
      ])
      (sym (found_payload-decode_sse_json codec e.data_text))
    ∙ after_decoded e u (decode_sse_json codec e.data_text)
