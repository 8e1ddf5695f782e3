-- ===== src/ToResponses/Grammar.antt =====
-- The order of the events of the Responses protocol, described apart from the converter: a reader
-- collects the texts of the parts, and compares them with the texts that the closing events carry.
use token_gate.Base.{
  ◌≡◌, refl, inl, inr, Bool, true, false, not, ◌&&◌, Option, none, some, List, [], ◌∷◌, ◌++◌, arith,
  if◌then◌else◌, Bool-cases, and_true, and_then, any, ℤ, ltb_ℤ, eq_ℤ,
}
use token_gate.ResponsesEvents.{
  OutputItem, ResponsesEvent, response_begun, item_added, part_added, text_delta, text_done,
  part_done, item_done, response_ended, open_ai_error,
}
use token_gate.Streams.{TextBlock, BlockMap, block_at, set_block}
use token_gate.Streams.Courses.{Live, Live-more}
use token_gate.Text.{Text, text_eq}
use token_gate.ToResponses.{ToResponses}

-- How far the response has come.
pub data Stage : Type 0 where
  running item_over response_over : Stage

abbrev pub is_running : Stage → Bool
is_running running = true
is_running stage = false

abbrev pub is_item_over : Stage → Bool
is_item_over item_over = true
is_item_over stage = false

pub record Reading : Type 0 where
  pub begun : Bool
  pub has_item : Bool
  pub stage : Stage
  pub collected : BlockMap

abbrev pub first_reading : Reading
first_reading = record { begun = false; has_item = false; stage = running; collected = [] }

abbrev pub texts_eq : List Text → List Text → Bool
texts_eq [] [] = true
texts_eq (s ∷ ss) (t ∷ ts) = text_eq s t && texts_eq ss ts
texts_eq _ _ = false

-- The texts that were collected, one for every part.
unfoldable pub gathered : BlockMap → List Text
gathered [] = []
gathered ((i, b) ∷ bs) = b.text ∷ gathered bs

unfoldable pub part_indexes : BlockMap → List ℤ
part_indexes [] = []
part_indexes ((i, b) ∷ bs) = i ∷ part_indexes bs

abbrev pub is_ahead : ℤ → BlockMap → Bool
is_ahead i [] = true
is_ahead i ((j, b) ∷ bs) = ltb_ℤ i j

-- The parts stand in ascending order of their indexes.
unfoldable pub is_ascending : BlockMap → Bool
is_ascending [] = true
is_ascending ((i, b) ∷ bs) = is_ahead i bs && is_ascending bs

-- No part is open, and the item has the texts that were collected, by ascending index.
unfoldable pub is_whole : OutputItem → Reading → Bool
unfolding block_at text_eq gathered part_indexes is_ascending
is_whole it r =
    r.has_item
    && (texts_eq it.texts (gathered r.collected)
        && (is_ascending r.collected
            && not (any (λ i. (block_at i r.collected).is_open) (part_indexes r.collected))))

-- What the reader knows next, if the event may come now: the response and its item begin once; a
-- part begins once, before the item is over, and has its deltas while it is open; its closing
-- events carry all its text; the item and then the response end once, with no part open. Errors may
-- come at any time.
unfoldable pub accept : ResponsesEvent → Reading → Option Reading
unfolding block_at set_block text_eq is_whole
accept (response_begun resp) r = if r.begun then none else some (record r { begun = true })
accept (item_added id role) r =
    if r.begun && not r.has_item then some (record r { has_item = true }) else none
accept (part_added id i) r =
    let block = block_at i r.collected in
    if r.has_item && (is_running r.stage && not block.started)
    then some (record r {
      collected = set_block i (record block { started = true; is_open = true }) r.collected;
    })
    else none
accept (text_delta id i text) r =
    let block = block_at i r.collected in
    if r.has_item && (is_running r.stage && block.is_open)
    then some (record r {
      collected = set_block i (record block { text = block.text ++ text }) r.collected;
    })
    else none
accept (text_done id i text) r =
    let block = block_at i r.collected in
    if is_running r.stage && (block.is_open && text_eq text block.text) then some r else none
accept (part_done id i text) r =
    let block = block_at i r.collected in
    if is_running r.stage && (block.is_open && text_eq text block.text)
    then some (record r { collected = set_block i (record block { is_open = false }) r.collected })
    else none
accept (item_done it) r =
    if is_running r.stage && is_whole it r then some (record r { stage = item_over }) else none
accept (response_ended id model it rest) r =
    if is_item_over r.stage && is_whole it r
    then some (record r { stage = response_over })
    else none
accept (open_ai_error p) r = some r

unfoldable pub accept_all : List ResponsesEvent → Reading → Option Reading
unfolding accept
accept_all [] r = some r
accept_all (e ∷ es) r = and_then (accept_all es) (accept e r)

-- What the reader knows of the events of a state at a stage, where it has accepted them.
abbrev pub reading_of : Stage → ToResponses → Reading
reading_of stage s = record {
  begun = s.created;
  has_item = s.added;
  stage = stage;
  collected = s.blocks;
}

-- A state whose events are accepted, against what the upstream has stopped.
pub record Follows (stage : Stage) (gone : ℤ → Bool) (s : ToResponses) : Type 0 where
  pub accepted : accept_all s.out first_reading ≡ some (reading_of stage s)
  pub live_ok : Live gone s.blocks
  pub ascends : is_ascending s.blocks ≡ true

pub Follows-more :
    (stage : Stage) (gone more : ℤ → Bool) (s : ToResponses)
    → ((j : ℤ) → gone j ≡ true → more j ≡ true)
    → Follows stage gone s
    → Follows stage more s
Follows-more stage gone more s h f = record {
  accepted = f.accepted;
  live_ok = Live-more gone more s.blocks h f.live_ok;
  ascends = f.ascends;
}

in_between : (i j : ℤ) → eq_ℤ j i ≡ false → ltb_ℤ i j ≡ false → ltb_ℤ j i ≡ true
in_between i j h k = ground (arith, h, k)

is_ahead-set_block :
    (k i : ℤ) (b : TextBlock) (bs : BlockMap)
    → is_ahead k bs ≡ true
    → ltb_ℤ k i ≡ true
    → is_ahead k (set_block i b bs) ≡ true
unfolding set_block
is_ahead-set_block k i b [] h l = l
is_ahead-set_block k i b ((j, c) ∷ bs) h l = elim (Bool-cases (eq_ℤ j i)) [
  | inl e ↦ rw e h
  | inr e ↦ elim (Bool-cases (ltb_ℤ i j)) [ inl m ↦ rw (e, m) l | inr m ↦ rw (e, m) h ]
]

pub is_ascending-set_block :
    (i : ℤ) (b : TextBlock) (bs : BlockMap)
    → is_ascending bs ≡ true
    → is_ascending (set_block i b bs) ≡ true
unfolding set_block is_ascending
is_ascending-set_block i b [] h = refl
is_ascending-set_block i b ((j, c) ∷ bs) h =
    let (a, g) = and_true (is_ahead j bs) (is_ascending bs) h in
    elim (Bool-cases (eq_ℤ j i)) [
      | inl e ↦ rw e h
      | inr e ↦ elim (Bool-cases (ltb_ℤ i j)) [
        | inl m ↦ rw (e, m) (rw m h)
        | inr m ↦
            rw (e, m, is_ahead-set_block j i b bs a (in_between i j e m))
              (is_ascending-set_block i b bs g)
      ]
    ]
