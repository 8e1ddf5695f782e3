-- ===== src/ToResponses/Parts.antt =====
-- The converter's operations on parts, event by event, against what the reader collects.
use token_gate.Base.{
  ◌≡◌, refl, ap, ◌∙◌, inl, inr, Bool, true, false, none, some, List, [], ◌∷◌, ◌++◌, arith,
  if◌then◌else◌, Bool-cases, and_then, ℤ,
}
use token_gate.ResponsesEvents.{
  ResponsesEvent, response_begun, item_added, part_added, text_delta, text_done, part_done,
}
use token_gate.Streams.{TextBlock, block_at, set_block}
use token_gate.Streams.Blocks.{block_at-set_block_same}
use token_gate.Streams.Courses.{Live, Live-set_block, opened_is_live, gone_is_live}
use token_gate.Text.{Text}
use token_gate.Text.Laws.{text_eq_refl}
use token_gate.ToResponses.{
  ToResponses, append_event, created_response, ensure_responses_created, role_or_assistant,
  with_item_id, ensure_responses_output_item_added, ensure_responses_content_part_added, close_part,
  ensure_item, ensure_part, grow_part,
}
use token_gate.ToResponses.Grammar.{
  Stage, running, Reading, first_reading, is_ascending, accept, accept_all, reading_of, Follows,
  is_ascending-set_block,
}

accept_all-append :
    (es : List ResponsesEvent) (e : ResponsesEvent) (r q t : Reading)
    → accept_all es r ≡ some q
    → accept e q ≡ some t
    → accept_all (es ++ (e ∷ [])) r ≡ some t
unfolding accept_all
accept_all-append [] e r q t h k = ground (arith, h, k)
accept_all-append (d ∷ es) e r q t h k =
    (elim (accept d r)
        as (λ o.
          and_then (accept_all es) o ≡ some q → and_then (accept_all (es ++ (e ∷ []))) o ≡ some t) [
            | none ↦ λ x. ground arith
            | some p ↦ λ x. accept_all-append es e p q t x k
          ])
      h

-- An event appended to accepted ones.
pub appended :
    {stage next : Stage} {gone : ℤ → Bool} (e : ResponsesEvent) (s q : ToResponses)
    → Follows stage gone s
    → q.out ≡ s.out ++ (e ∷ [])
    → accept e (reading_of stage s) ≡ some (reading_of next q)
    → Live gone q.blocks
    → is_ascending q.blocks ≡ true
    → Follows next gone q
appended {stage} {next} e s q f o k l a = record {
  accepted =
      ap (λ es. accept_all es first_reading) o
      ∙ accept_all-append s.out e first_reading (reading_of stage s) (reading_of next q) f.accepted
          k;
  live_ok = l;
  ascends = a;
}

-- One step with one event that the reader accepts, or no step at all.
stepped :
    {stage : Stage} {gone : ℤ → Bool} (t : Bool) (e : ResponsesEvent) (s q : ToResponses)
    → Follows stage gone s
    → q.out ≡ s.out ++ (e ∷ [])
    → (t ≡ false → accept e (reading_of stage s) ≡ some (reading_of stage q))
    → Live gone q.blocks
    → is_ascending q.blocks ≡ true
    → Follows stage gone (if t then s else q)
stepped true e s q f o k l a = f
stepped false e s q f o k l a = appended e s q f o (k refl) l a

either_way :
    {A : Type 0} (f : A → Bool) (t : Bool) (x y : A)
    → (t ≡ true → f x ≡ true)
    → f y ≡ true
    → f (if t then x else y) ≡ true
either_way f true x y h k = h refl
either_way f false x y h k = k

ensure_responses_created-Follows :
    {stage : Stage} {gone : ℤ → Bool} (s : ToResponses)
    → Follows stage gone s
    → Follows stage gone (ensure_responses_created s)
      × ((ensure_responses_created s).created ≡ true)
unfolding ensure_responses_created
ensure_responses_created-Follows s h =
    let begun = response_begun (created_response s) in
    let q : ToResponses = record (append_event begun s) { created = true } in
    (
      stepped s.created begun s q h refl (λ e. unfold accept in rw e refl) h.live_ok h.ascends,
      either_way (λ (x : ToResponses). x.created) s.created s q (λ e. e) refl,
    )

pub ensure_item-Follows :
    {stage : Stage} {gone : ℤ → Bool} (s : ToResponses)
    → Follows stage gone s
    → Follows stage gone (ensure_item s) × ((ensure_item s).added ≡ true)
unfolding ensure_responses_output_item_added
ensure_item-Follows z g =
    let s = ensure_responses_created z in
    let (h, c) = ensure_responses_created-Follows z g in
    let begun = item_added (with_item_id s).item_id (role_or_assistant (with_item_id s)) in
    let q : ToResponses = record (append_event begun (with_item_id s)) { added = true } in
    (
      stepped s.added begun s q h refl (λ e. unfold accept in rw (c, e) refl) h.live_ok h.ascends,
      either_way (λ (x : ToResponses). x.added) s.added s q (λ e. e) refl,
    )

pub ensure_part-Follows :
    {gone : ℤ → Bool} (i : ℤ) (s : ToResponses)
    → Follows running gone s
    → Follows running gone (ensure_part i s)
      × ((ensure_part i s).added ≡ true)
      × ((block_at i (ensure_part i s).blocks).started ≡ true)
unfolding ensure_responses_content_part_added
ensure_part-Follows {gone} i z g =
    let s = ensure_item z in
    let (h, c) = ensure_item-Follows z g in
    let b : TextBlock = record (block_at i s.blocks) { started = true; is_open = true } in
    let begun = part_added s.item_id i in
    let q : ToResponses = record (append_event begun s) { blocks = set_block i b s.blocks } in
    (
      stepped (block_at i s.blocks).started begun s q h refl (λ e. unfold accept in rw (c, e) refl)
          (Live-set_block gone i b s.blocks (opened_is_live (gone i) b refl) h.live_ok)
          (is_ascending-set_block i b s.blocks h.ascends),
      either_way (λ (x : ToResponses). x.added) (block_at i s.blocks).started s q (λ e. c) c,
      either_way (λ (x : ToResponses). (block_at i x.blocks).started) (block_at i s.blocks).started
          s q (λ e. e) (ap (λ (k : TextBlock). k.started) (block_at-set_block_same i b s.blocks)),
    )

pub grow_part-Follows :
    {gone : ℤ → Bool} (i : ℤ) (text : Text) (s : ToResponses)
    → Follows running gone s
    → s.added ≡ true
    → (block_at i s.blocks).is_open ≡ true
    → Follows running gone (grow_part i text s)
unfolding grow_part
grow_part-Follows {gone} i text s h c e =
    let b : TextBlock = record (block_at i s.blocks) {
      text = (block_at i s.blocks).text ++ text;
    } in
    appended (text_delta s.item_id i text) s (grow_part i text s) h refl
      (unfold accept in rw (c, e) refl)
      (Live-set_block gone i b s.blocks (opened_is_live (gone i) b e) h.live_ok)
      (is_ascending-set_block i b s.blocks h.ascends)

pub close_part-Follows :
    {gone : ℤ → Bool} (i : ℤ) (s : ToResponses)
    → gone i ≡ true
    → Follows running gone s
    → Follows running gone (close_part i s)
unfolding close_part
close_part-Follows {gone} i s g h = elim (Bool-cases ((block_at i s.blocks).is_open)) [
  | inl e ↦
      let block = block_at i s.blocks in
      let b : TextBlock = record block { is_open = false } in
      let q : ToResponses = append_event (text_done s.item_id i block.text) s in
      let r : ToResponses = record (append_event (part_done s.item_id i block.text) q) {
        blocks = set_block i b s.blocks;
      } in
      let f : Follows running gone q =
        appended (text_done s.item_id i block.text) s q h refl
          (unfold accept in rw (e, text_eq_refl block.text) refl) h.live_ok h.ascends in
      rw e (
        appended (part_done s.item_id i block.text) q r f refl
          (unfold accept in rw (e, text_eq_refl block.text) refl)
          (Live-set_block gone i b s.blocks (gone_is_live (gone i) b g) h.live_ok)
          (is_ascending-set_block i b s.blocks h.ascends))
  | inr e ↦ rw e h
]
