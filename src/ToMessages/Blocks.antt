-- ===== src/ToMessages/Blocks.antt =====
-- The converter's operations on blocks keep the reader's phase in step with the state.
use token_gate.Base.{
  ◌≡◌, refl, sym, ap, ◌∙◌, inl, inr, Bool, true, false, not, ◌&&◌, ◌||◌, some, List, [], ◌∷◌, ◌++◌,
  arith, Bool-cases, ℤ, eq_ℤ,
}
use token_gate.MessagesEvents.{content_block_start, content_block_stop, content_block_delta}
use token_gate.Streams.{TextBlock, BlockMap, block_at, set_block, ordered_block_indexes}
use token_gate.Streams.Blocks.{
  eq_ℤ_iff, block_at-set_block, block_at-set_block_same, block_at-keeps, among_ℤ, drop_ℤ,
  among_ℤ-drop_ℤ, block_at_outside, shut_if, shut_already,
}
use token_gate.Streams.Courses.{Live-set_block, opened_is_live, gone_is_live}
use token_gate.Text.{Text}
use token_gate.ToMessages.{
  ToMessages, emit, ensure_anthropic_content_block_start, close_block, close_blocks,
  close_open_anthropic_blocks, set_text, append_delta,
}
use token_gate.ToMessages.Grammar.{Phase, advance, Tracks, TracksOf, emitted-Tracks}

ensure_block_started :
    (i : ℤ) (s : ToMessages)
    → (block_at i s.blocks).started ≡ true
    → ensure_anthropic_content_block_start i s ≡ s
unfolding ensure_anthropic_content_block_start
ensure_block_started i s e = rw e refl

ensure_block_fresh :
    (i : ℤ) (s : ToMessages)
    → (block_at i s.blocks).started ≡ false
    → ensure_anthropic_content_block_start i s ≡ record (emit (content_block_start i) s) {
      blocks =
          set_block i (record (block_at i s.blocks) { started = true; is_open = true }) s.blocks;
    }
unfolding ensure_anthropic_content_block_start
ensure_block_fresh i s e = rw e refl

-- A list that an index is put in front of, against a block that is set.
put_among :
    (f : TextBlock → Bool) (i : ℤ) (b : TextBlock) (bs : BlockMap) (is : List ℤ)
    → f b ≡ true
    → ((j : ℤ) → among_ℤ j is ≡ f (block_at j bs))
    → (j : ℤ) → among_ℤ j (i ∷ is) ≡ f (block_at j (set_block i b bs))
put_among f i b bs is h k j = elim (Bool-cases (eq_ℤ i j)) [
  | inl e ↦ rw (block_at-set_block j i b bs, e) (sym h)
  | inr e ↦ rw (block_at-set_block j i b bs, e) (k j)
]

pub ensure_block-TracksOf :
    {gone : ℤ → Bool} (i : ℤ) (s : ToMessages)
    → TracksOf false gone s
    → s.message_started ≡ true
    → TracksOf false gone (ensure_anthropic_content_block_start i s)
      × ((ensure_anthropic_content_block_start i s).message_started ≡ true)
      × ((block_at i (ensure_anthropic_content_block_start i s).blocks).started ≡ true)
ensure_block-TracksOf {gone} i s t m = elim (Bool-cases ((block_at i s.blocks).started)) [
  | inl e ↦ rw (ensure_block_started i s e) (t, m, e)
  | inr e ↦
      let b : TextBlock = record (block_at i s.blocks) { started = true; is_open = true } in
      let ph : Phase = record (t.phase) { seen = i ∷ t.phase.seen; opened = i ∷ t.phase.opened } in
      rw (ensure_block_fresh i s e) (
        emitted-Tracks (content_block_start i) s t ph s.message_started (set_block i b s.blocks)
            (unfold advance in rw (t.begun_ok ∙ m, t.ended_ok, t.seen_ok i ∙ e) refl) t.begun_ok
            (put_among (λ (c : TextBlock). c.started) i b s.blocks t.phase.seen refl t.seen_ok)
            (put_among (λ (c : TextBlock). c.is_open) i b s.blocks t.phase.opened refl t.opened_ok)
            t.ended_ok
            (Live-set_block gone i b s.blocks (opened_is_live (gone i) b refl) t.live_ok),
        m,
        ap (λ (c : TextBlock). c.started) (block_at-set_block_same i b s.blocks),
      )
]

-- A block that is set without a change of its state, and without an event.
set_quietly :
    {ended : Bool} {gone : ℤ → Bool} (i : ℤ) (b : TextBlock) (s : ToMessages)
    → TracksOf ended gone s
    → b.started ≡ (block_at i s.blocks).started
    → b.is_open ≡ (block_at i s.blocks).is_open
    → Tracks ended gone s.out s.message_started (set_block i b s.blocks)
set_quietly {gone = gone} i b s t h k = record {
  phase = t.phase;
  reads = t.reads;
  begun_ok = t.begun_ok;
  seen_ok = λ j. t.seen_ok j ∙ sym (block_at-keeps (λ (c : TextBlock). c.started) i b s.blocks h j);
  opened_ok =
      λ j. t.opened_ok j ∙ sym (block_at-keeps (λ (c : TextBlock). c.is_open) i b s.blocks k j);
  ended_ok = t.ended_ok;
  live_ok =
      Live-set_block gone i b s.blocks
        (ap (λ x. gone i || (not x || b.is_open)) h
          ∙ ap (λ y. gone i || (not (block_at i s.blocks).started || y)) k
          ∙ t.live_ok i)
        t.live_ok;
}

advance_delta :
    (i : ℤ) (text : Text) (ph : Phase)
    → ph.begun ≡ true
    → ph.ended ≡ false
    → among_ℤ i ph.opened ≡ true
    → advance (content_block_delta i text) ph ≡ some ph
unfolding advance
advance_delta i text ph h e k = rw (h, e, k) refl

pub append_delta-TracksOf :
    {gone : ℤ → Bool} (i : ℤ) (delta : Text) (s : ToMessages)
    → TracksOf false gone s
    → s.message_started ≡ true
    → (block_at i s.blocks).is_open ≡ true
    → TracksOf false gone (append_delta i delta s)
unfolding append_delta
append_delta-TracksOf {gone} i delta s t m e =
    let b : TextBlock = record (block_at i s.blocks) {
      text = (block_at i s.blocks).text ++ delta;
    } in
    let q : ToMessages = record s { blocks = set_block i b s.blocks } in
    let u : TracksOf false gone q = set_quietly i b s t refl refl in
    emitted-Tracks (content_block_delta i delta) q u u.phase q.message_started q.blocks
      (advance_delta i delta u.phase (u.begun_ok ∙ m) u.ended_ok (
        u.opened_ok i
        ∙ ap (λ (c : TextBlock). c.is_open) (block_at-set_block_same i b s.blocks)
        ∙ e))
      u.begun_ok u.seen_ok u.opened_ok u.ended_ok u.live_ok

pub set_text-TracksOf :
    {ended : Bool} {gone : ℤ → Bool} (i : ℤ) (text : Text) (s : ToMessages)
    → TracksOf ended gone s
    → TracksOf ended gone (set_text i text s)
unfolding set_text
set_text-TracksOf i [] s t = set_quietly i (block_at i s.blocks) s t refl refl
set_text-TracksOf i (c ∷ text) s t =
    set_quietly i (record (block_at i s.blocks) { text = c ∷ text }) s t refl refl

close_block_shut :
    (i : ℤ) (s : ToMessages) → (block_at i s.blocks).is_open ≡ false → close_block i s ≡ s
unfolding close_block
close_block_shut i s e = rw e refl

close_block_open :
    (i : ℤ) (s : ToMessages)
    → (block_at i s.blocks).is_open ≡ true
    → close_block i s ≡ record (emit (content_block_stop i) s) {
      blocks = set_block i (record (block_at i s.blocks) { is_open = false }) s.blocks;
    }
unfolding close_block
close_block_open i s e = rw e refl

-- The open blocks without one, against that block set to be shut.
drop_among :
    (i : ℤ) (b : TextBlock) (bs : BlockMap) (is : List ℤ)
    → b.is_open ≡ false
    → ((j : ℤ) → among_ℤ j is ≡ (block_at j bs).is_open)
    → (j : ℤ) → among_ℤ j (drop_ℤ i is) ≡ (block_at j (set_block i b bs)).is_open
drop_among i b bs is h k j = elim (Bool-cases (eq_ℤ i j)) [
  | inl e ↦ rw (among_ℤ-drop_ℤ i j is, block_at-set_block j i b bs, e) (sym h)
  | inr e ↦ rw (among_ℤ-drop_ℤ i j is, block_at-set_block j i b bs, e) (k j)
]

pub close_block-TracksOf :
    {ended : Bool} {gone : ℤ → Bool} (i : ℤ) (s : ToMessages)
    → gone i ≡ true
    → TracksOf ended gone s
    → TracksOf ended gone (close_block i s)
close_block-TracksOf {gone = gone} i s g t = elim (Bool-cases ((block_at i s.blocks).is_open)) [
  | inl e ↦
      let b : TextBlock = record (block_at i s.blocks) { is_open = false } in
      rw (close_block_open i s e) (
        emitted-Tracks (content_block_stop i) s t
          (record (t.phase) { opened = drop_ℤ i t.phase.opened }) s.message_started
          (set_block i b s.blocks) (unfold advance in rw (t.opened_ok i ∙ e) refl) t.begun_ok
          (λ j.
            t.seen_ok j ∙ sym (block_at-keeps (λ (c : TextBlock). c.started) i b s.blocks refl j))
          (drop_among i b s.blocks t.phase.opened refl t.opened_ok) t.ended_ok
          (Live-set_block gone i b s.blocks (gone_is_live (gone i) b g) t.live_ok))
  | inr e ↦ rw (close_block_shut i s e) t
]

-- After a block is closed, it is shut, and the others are as they were.
close_block_state :
    (i j : ℤ) (s : ToMessages)
    → (block_at j (close_block i s).blocks).is_open
      ≡ ((block_at j s.blocks).is_open && not (eq_ℤ i j))
close_block_state i j s = elim (Bool-cases ((block_at i s.blocks).is_open)) [
  | inl e ↦
      rw
        (
          close_block_open i s e,
          block_at-set_block j i (record (block_at i s.blocks) { is_open = false }) s.blocks,
        )
        (shut_if (eq_ℤ i j) _ (block_at j s.blocks) refl)
  | inr e ↦ rw (close_block_shut i s e) (
      shut_already (eq_ℤ i j) _
        (λ q. ap (λ k. (block_at k s.blocks).is_open) (sym ((eq_ℤ_iff i j).0 q)) ∙ e))
]

pub close_blocks-TracksOf :
    {ended : Bool} {gone : ℤ → Bool} (is : List ℤ) (s : ToMessages)
    → ((j : ℤ) → gone j ≡ true)
    → TracksOf ended gone s
    → TracksOf ended gone (close_blocks is s)
unfolding close_blocks
close_blocks-TracksOf [] s g t = t
close_blocks-TracksOf (i ∷ is) s g t =
    close_blocks-TracksOf is (close_block i s) g (close_block-TracksOf i s (g i) t)

close_blocks_state :
    (is : List ℤ) (j : ℤ) (s : ToMessages)
    → (block_at j (close_blocks is s).blocks).is_open
      ≡ ((block_at j s.blocks).is_open && not (among_ℤ j is))
unfolding close_blocks
close_blocks_state [] j s = ground arith
close_blocks_state (i ∷ is) j s =
    ground (arith, close_blocks_state is j (close_block i s), close_block_state i j s)

close_block_started :
    (i : ℤ) (s : ToMessages) → (close_block i s).message_started ≡ s.message_started
unfolding close_block
close_block_started i s = elim (Bool-cases ((block_at i s.blocks).is_open)) [
  | inl e ↦ rw e refl
  | inr e ↦ rw e refl
]

pub close_blocks_started :
    (is : List ℤ) (s : ToMessages) → (close_blocks is s).message_started ≡ s.message_started
unfolding close_blocks
close_blocks_started [] s = refl
close_blocks_started (i ∷ is) s =
    close_blocks_started is (close_block i s) ∙ close_block_started i s

-- Behind the loop that closes them, no block is open.
pub all_closed :
    (j : ℤ) (s : ToMessages) → (block_at j (close_open_anthropic_blocks s).blocks).is_open ≡ false
unfolding close_open_anthropic_blocks
all_closed j s =
    close_blocks_state (ordered_block_indexes s.blocks) j s
    ∙ elim (Bool-cases (among_ℤ j (ordered_block_indexes s.blocks))) [
      | inl e ↦ rw e (ground arith)
      | inr e ↦ rw (e, block_at_outside j s.blocks e) refl
    ]
