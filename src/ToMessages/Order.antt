-- ===== src/ToMessages/Order.antt =====
-- The converter keeps the order of the events of an orderly upstream.
use token_gate.Streams.Courses.{Course, is_gone}
use token_gate.Text.{Text}
use token_gate.ToMessages.{ToMessages}
use token_gate.ToMessages.Grammar.{TracksOf}

-- The state is in step with a reader of its events, when the upstream has come this far.
abbrev InStep : Course → ToMessages → Type 0
InStep u s = TracksOf u.complete (is_gone u) s
