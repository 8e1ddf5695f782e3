-- ===== src/ToMessages/Grammar.antt =====
-- The order of the events of the Messages protocol, described apart from the converter.
use token_gate.Base.{
  ◌≡◌, refl, ◌∙◌, inl, inr, Bool, true, false, not, ◌&&◌, Option, none, some, List, [], ◌∷◌, ◌++◌,
  arith, if◌then◌else◌, Bool-cases, ℤ,
}
use token_gate.MessagesEvents.{
  MessagesEvent, ping, message_stop, message_start, content_block_start, content_block_stop,
  content_block_delta, message_delta, stream_error,
}
use token_gate.Streams.{BlockMap, block_at}
use token_gate.Streams.Blocks.{among_ℤ, drop_ℤ}
use token_gate.Streams.Courses.{Live, Live-more}
use token_gate.ToMessages.{ToMessages, emit, start_message, ensure_anthropic_message_start}

-- What a reader of the stream knows: that the message has started and ended, and which blocks have
-- started and are open.
pub record Phase : Type 0 where
  pub begun : Bool
  pub ended : Bool
  pub seen : List ℤ
  pub opened : List ℤ

abbrev pub start : Phase
start = record { begun = false; ended = false; seen = []; opened = [] }

abbrev pub is_nil : List ℤ → Bool
is_nil [] = true
is_nil (i ∷ is) = false

-- The next phase, if the event may come now: a message starts once and ends once; in between, a
-- block starts once, has its deltas, and stops once, and where the message ends none is open. Pings
-- and errors may come at any time.
unfoldable pub advance : MessagesEvent → Phase → Option Phase
unfolding drop_ℤ
advance ping ph = some ph
advance (stream_error m) ph = some ph
advance (message_start m) ph = if ph.begun then none else some (record ph { begun = true })
advance (content_block_start i) ph =
    if ph.begun && (not ph.ended && not (among_ℤ i ph.seen))
    then some (record ph { seen = i ∷ ph.seen; opened = i ∷ ph.opened })
    else none
advance (content_block_delta i t) ph =
    if ph.begun && (not ph.ended && among_ℤ i ph.opened) then some ph else none
advance (content_block_stop i) ph =
    if among_ℤ i ph.opened then some (record ph { opened = drop_ℤ i ph.opened }) else none
advance (message_delta m) ph =
    if ph.begun && (not ph.ended && is_nil ph.opened) then some ph else none
advance message_stop ph =
    if ph.begun && (not ph.ended && is_nil ph.opened)
    then some (record ph { ended = true })
    else none

unfoldable pub read_all : List MessagesEvent → Phase → Option Phase
unfolding advance
read_all [] ph = some ph
read_all (e ∷ es) ph = elim (advance e ph) [ none ↦ none | some q ↦ read_all es q ]

read_all-append :
    (es : List MessagesEvent) (e : MessagesEvent) (ph q r : Phase)
    → read_all es ph ≡ some q
    → advance e q ≡ some r
    → read_all (es ++ (e ∷ [])) ph ≡ some r
unfolding read_all
read_all-append [] e ph q r h k = ground (arith, h, k)
read_all-append (d ∷ es) e ph q r h k =
    (elim (advance d ph)
        as (λ o.
          (elim o as (λ x. Option Phase) [ none ↦ none | some p ↦ read_all es p ]) ≡ some q
          → (elim o as (λ x. Option Phase) [ none ↦ none | some p ↦ read_all (es ++ (e ∷ [])) p ])
            ≡ some r) [ none ↦ λ x. ground arith | some p ↦ λ x. read_all-append es e p q r x k ])
      h

-- The reader's phase agrees with the state of the converter, and with what the upstream has ended.
pub record Tracks (ended : Bool) (gone : ℤ → Bool) (out : List MessagesEvent) (started : Bool)
    (blocks : BlockMap) : Type 0 where
  pub phase : Phase
  pub reads : read_all out start ≡ some phase
  pub begun_ok : phase.begun ≡ started
  pub seen_ok : (i : ℤ) → among_ℤ i phase.seen ≡ (block_at i blocks).started
  pub opened_ok : (i : ℤ) → among_ℤ i phase.opened ≡ (block_at i blocks).is_open
  pub ended_ok : phase.ended ≡ ended
  pub live_ok : Live gone blocks

abbrev pub TracksOf : Bool → (ℤ → Bool) → ToMessages → Type 0
TracksOf ended gone s = Tracks ended gone s.out s.message_started s.blocks

-- The upstream may be done with more than is known.
pub TracksOf-more :
    (ended : Bool) (gone more : ℤ → Bool) (s : ToMessages)
    → ((j : ℤ) → gone j ≡ true → more j ≡ true)
    → TracksOf ended gone s
    → TracksOf ended more s
TracksOf-more ended gone more s h t = record {
  phase = t.phase;
  reads = t.reads;
  begun_ok = t.begun_ok;
  seen_ok = t.seen_ok;
  opened_ok = t.opened_ok;
  ended_ok = t.ended_ok;
  live_ok = Live-more gone more s.blocks h t.live_ok;
}

-- An event appended, with what the reader learns from it.
pub emitted-Tracks :
    {ended next : Bool} {gone : ℤ → Bool} (e : MessagesEvent) (s : ToMessages)
    (t : TracksOf ended gone s) (ph : Phase) (started : Bool) (blocks : BlockMap)
    → advance e t.phase ≡ some ph
    → ph.begun ≡ started
    → ((i : ℤ) → among_ℤ i ph.seen ≡ (block_at i blocks).started)
    → ((i : ℤ) → among_ℤ i ph.opened ≡ (block_at i blocks).is_open)
    → ph.ended ≡ next
    → Live gone blocks
    → Tracks next gone (s.out ++ (e ∷ [])) started blocks
emitted-Tracks e s t ph started blocks a b c d f g = record {
  phase = ph;
  reads = read_all-append s.out e start t.phase ph t.reads a;
  begun_ok = b;
  seen_ok = c;
  opened_ok = d;
  ended_ok = f;
  live_ok = g;
}

ensure_message_started :
    (s : ToMessages) → s.message_started ≡ true → ensure_anthropic_message_start s ≡ s
unfolding ensure_anthropic_message_start
ensure_message_started s e = rw e refl

ensure_message_fresh :
    (s : ToMessages)
    → s.message_started ≡ false
    → ensure_anthropic_message_start s
      ≡ record (emit (message_start (start_message s)) s) { message_started = true }
unfolding ensure_anthropic_message_start
ensure_message_fresh s e = rw e refl

pub ensure_anthropic_message_start-TracksOf :
    {ended : Bool} {gone : ℤ → Bool} (s : ToMessages)
    → TracksOf ended gone s
    → TracksOf ended gone (ensure_anthropic_message_start s)
      × ((ensure_anthropic_message_start s).message_started ≡ true)
ensure_anthropic_message_start-TracksOf s t = elim (Bool-cases (s.message_started)) [
  | inl e ↦ rw (ensure_message_started s e) (t, e)
  | inr e ↦ rw (ensure_message_fresh s e) (
    emitted-Tracks (message_start (start_message s)) s t (record (t.phase) { begun = true }) true
        s.blocks (unfold advance in rw (t.begun_ok ∙ e) refl) refl t.seen_ok t.opened_ok t.ended_ok
        t.live_ok,
    refl,
  )
]
