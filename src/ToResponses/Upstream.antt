-- ===== src/ToResponses/Upstream.antt =====
-- An orderly upstream of the Messages protocol: it sends no text for a block that has stopped, and
-- no block, no text and no second end after the end.
use token_gate.Base.{Bool, true, not, ◌&&◌, none, some, List, [], ◌∷◌, if◌then◌else◌}
use token_gate.Json.{Object, get, int_value, Codec}
use token_gate.Sse.{SseEvent}
use token_gate.Streams.Courses.{Course, is_gone}
use token_gate.Streams.Sent.{is_named_ping, sent_object, is_of_type}
use token_gate.Text.{codes}

-- Whether a payload may come now.
unfoldable pub may_hold : SseEvent → Course → Object → Bool
unfolding is_of_type get int_value
may_hold e u p =
    if is_of_type (codes "content_block_start") p e
    then not u.complete
    else if is_of_type (codes "content_block_delta") p e
    then not (is_gone u (int_value (get (codes "index") p)))
    else if is_of_type (codes "content_block_stop") p e
    then not u.complete
    else if is_of_type (codes "message_stop") p e
    then not u.complete
    else true

unfoldable pub after_holding : SseEvent → Course → Object → Course
unfolding is_of_type get int_value
after_holding e u p =
    if is_of_type (codes "content_block_stop") p e
    then record u { finished = int_value (get (codes "index") p) ∷ u.finished }
    else if is_of_type (codes "message_stop") p e
    then record u { complete = true }
    else u

-- Pings, and events without a payload, may come at any time.
unfoldable pub may_be_sent : Codec → SseEvent → Course → Bool
unfolding is_named_ping sent_object may_hold
may_be_sent codec e u = elim (sent_object codec e.data_text) [
  | none ↦ true
  | some p ↦ if is_named_ping e.event then true else may_hold e u p
]

unfoldable pub after_sent : Codec → SseEvent → Course → Course
unfolding is_named_ping sent_object after_holding
after_sent codec e u = elim (sent_object codec e.data_text) [
  | none ↦ u
  | some p ↦ if is_named_ping e.event then u else after_holding e u p
]

unfoldable pub is_in_order : Codec → List SseEvent → Course → Bool
unfolding may_be_sent after_sent
is_in_order codec [] u = true
is_in_order codec (e ∷ es) u = may_be_sent codec e u && is_in_order codec es (after_sent codec e u)

unfoldable pub after_stream : Codec → List SseEvent → Course → Course
unfolding after_sent
after_stream codec [] u = u
after_stream codec (e ∷ es) u = after_stream codec es (after_sent codec e u)
