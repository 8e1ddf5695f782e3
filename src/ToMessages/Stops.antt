-- ===== src/ToMessages/Stops.antt =====
-- The end of a message: every block is closed, and the message stops.
use token_gate.Base.{◌≡◌, refl, ◌∙◌, Bool, true, false, some, [], ℤ}
use token_gate.Json.{Object}
use token_gate.MessagesEvents.{message_stop, message_delta}
use token_gate.Streams.{block_at, ordered_block_indexes}
use token_gate.Streams.Blocks.{nothing_among}
use token_gate.ToMessages.{
  ToMessages, emit, ensure_anthropic_message_start, close_open_anthropic_blocks, finish_message,
}
use token_gate.ToMessages.Blocks.{close_blocks-TracksOf, close_blocks_started, all_closed}
use token_gate.ToMessages.Grammar.{
  Phase, advance, TracksOf, TracksOf-more, emitted-Tracks, ensure_anthropic_message_start-TracksOf,
}

advance_ending :
    (m : Object) (ph : Phase)
    → ph.begun ≡ true
    → ph.ended ≡ false
    → ph.opened ≡ []
    → (advance (message_delta m) ph ≡ some ph)
      × (advance message_stop ph ≡ some (record ph { ended = true }))
unfolding advance
advance_ending m ph h e k = (rw (h, e, k) refl, rw (h, e, k) refl)

-- The two events that end a message, where no block is open.
closing-TracksOf :
    {gone : ℤ → Bool} (m : Object) (s : ToMessages)
    → TracksOf false gone s
    → s.message_started ≡ true
    → ((j : ℤ) → (block_at j s.blocks).is_open ≡ false)
    → TracksOf true gone (emit message_stop (emit (message_delta m) s))
closing-TracksOf {gone} m s t b c =
    let u : TracksOf false gone (emit (message_delta m) s) =
      emitted-Tracks (message_delta m) s t t.phase s.message_started s.blocks
        (advance_ending m t.phase (t.begun_ok ∙ b) t.ended_ok
          (nothing_among t.phase.opened (λ j. t.opened_ok j ∙ c j))).0
        t.begun_ok t.seen_ok t.opened_ok t.ended_ok t.live_ok in
    emitted-Tracks message_stop (emit (message_delta m) s) u (record (u.phase) { ended = true })
      s.message_started s.blocks
      (advance_ending m u.phase (u.begun_ok ∙ b) u.ended_ok
        (nothing_among u.phase.opened (λ j. u.opened_ok j ∙ c j))).1
      u.begun_ok u.seen_ok u.opened_ok refl u.live_ok

pub finish_message-TracksOf :
    (gone : ℤ → Bool) (rest : Object) (s : ToMessages)
    → TracksOf false gone s
    → TracksOf true (λ j. true) (finish_message rest s)
unfolding finish_message
finish_message-TracksOf gone rest s t =
    let q = ensure_anthropic_message_start s in
    let is = ordered_block_indexes q.blocks in
    let (u, b) =
      ensure_anthropic_message_start-TracksOf s
        (TracksOf-more false gone (λ j. true) s (λ j h. refl) t) in
    closing-TracksOf rest (close_open_anthropic_blocks q)
      (unfold close_open_anthropic_blocks in close_blocks-TracksOf is q (λ j. refl) u)
      (unfold close_open_anthropic_blocks in close_blocks_started is q ∙ b) (λ j. all_closed j q)
