-- ===== src/ToMessages/Upstream.antt =====
-- An orderly upstream of the Responses protocol: it sends no text for a part that is done, and no
-- part, no text and no second end after the end.
use token_gate.Base.{Bool, true, not, ◌&&◌, none, some, List, [], ◌∷◌, if◌then◌else◌}
use token_gate.Json.{Object, get, int_value, Codec}
use token_gate.Sse.{SseEvent}
use token_gate.Streams.Courses.{Course, is_gone}
use token_gate.Streams.Sent.{is_named_ping, sent_object, is_of_type}
use token_gate.Text.{codes}

-- Whether a payload may come now.
unfoldable pub may_carry : SseEvent → Course → Object → Bool
unfolding is_of_type get int_value
may_carry e u p =
    if is_of_type (codes "response.content_part.added") p e
    then not u.complete
    else if is_of_type (codes "response.output_text.delta") p e
    then not (is_gone u (int_value (get (codes "content_index") p)))
    else if is_of_type (codes "response.completed") p e
    then not u.complete
    else true

unfoldable pub after_carrying : SseEvent → Course → Object → Course
unfolding is_of_type get int_value
after_carrying e u p =
    if is_of_type (codes "response.content_part.done") p e
    then record u { finished = int_value (get (codes "content_index") p) ∷ u.finished }
    else if is_of_type (codes "response.completed") p e
    then record u { complete = true }
    else u

-- Pings, and events without a payload, may come at any time.
unfoldable pub may_be_next : Codec → SseEvent → Course → Bool
unfolding is_named_ping sent_object may_carry
may_be_next codec e u = elim (sent_object codec e.data_text) [
  | none ↦ true
  | some p ↦ if is_named_ping e.event then true else may_carry e u p
]

unfoldable pub after_event : Codec → SseEvent → Course → Course
unfolding is_named_ping sent_object after_carrying
after_event codec e u = elim (sent_object codec e.data_text) [
  | none ↦ u
  | some p ↦ if is_named_ping e.event then u else after_carrying e u p
]

unfoldable pub is_orderly : Codec → List SseEvent → Course → Bool
unfolding may_be_next after_event
is_orderly codec [] u = true
is_orderly codec (e ∷ es) u = may_be_next codec e u && is_orderly codec es (after_event codec e u)

unfoldable pub after_events : Codec → List SseEvent → Course → Course
unfolding after_event
after_events codec [] u = u
after_events codec (e ∷ es) u = after_events codec es (after_event codec e u)
