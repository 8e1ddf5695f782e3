-- ===== src/ToResponses/Ends.antt =====
-- The end of a response: every part is closed, and the item carries the whole texts.
use token_gate.Base.{
  ◌≡◌, refl, sym, ap, ◌∙◌, inl, inr, Bool, true, false, not, ◌&&◌, List, [], ◌∷◌, arith, Bool-cases,
  any, ℤ, eq_ℤ,
}
use token_gate.ResponsesEvents.{item_done, response_ended}
use token_gate.Streams.{TextBlock, BlockMap, block_at, set_block, ordered_block_indexes}
use token_gate.Streams.Blocks.{
  eq_ℤ_iff, block_at-set_block, among_ℤ, block_at_outside, shut_if, shut_already,
}
use token_gate.Text.Laws.{text_eq_refl}
use token_gate.ToResponses.{
  ToResponses, append_event, close_part, close_parts, close_open_responses_blocks, block_texts,
  build_responses_output_item, ensure_item, ended_rest, end_response, on_message_stop,
}
use token_gate.ToResponses.Grammar.{
  Stage, running, item_over, response_over, texts_eq, gathered, part_indexes, is_ascending,
  is_whole, accept, reading_of, Follows, Follows-more,
}
use token_gate.ToResponses.Parts.{appended, ensure_item-Follows, close_part-Follows}

close_part_shut :
    (i : ℤ) (s : ToResponses) → (block_at i s.blocks).is_open ≡ false → close_part i s ≡ s
unfolding close_part
close_part_shut i s e = rw e refl

-- What the closing of a block does to the blocks.
close_part_blocks :
    (i : ℤ) (s : ToResponses)
    → (block_at i s.blocks).is_open ≡ true
    → (close_part i s).blocks
      ≡ set_block i (record (block_at i s.blocks) { is_open = false }) s.blocks
unfolding close_part
close_part_blocks i s e = rw e refl

close_part_added : (i : ℤ) (s : ToResponses) → (close_part i s).added ≡ s.added
unfolding close_part
close_part_added i s = elim (Bool-cases ((block_at i s.blocks).is_open)) [
  | inl e ↦ rw e refl
  | inr e ↦ rw e refl
]

close_part_state :
    (i j : ℤ) (s : ToResponses)
    → (block_at j (close_part i s).blocks).is_open
      ≡ ((block_at j s.blocks).is_open && not (eq_ℤ i j))
close_part_state i j s = elim (Bool-cases ((block_at i s.blocks).is_open)) [
  | inl e ↦
      let b : TextBlock = record (block_at i s.blocks) { is_open = false } in
      rw (close_part_blocks i s e, block_at-set_block j i b s.blocks)
        (shut_if (eq_ℤ i j) b (block_at j s.blocks) refl)
  | inr e ↦ rw (close_part_shut i s e) (
      shut_already (eq_ℤ i j) _
        (λ q. ap (λ k. (block_at k s.blocks).is_open) (sym ((eq_ℤ_iff i j).0 q)) ∙ e))
]

close_parts-Follows :
    {gone : ℤ → Bool} (is : List ℤ) (s : ToResponses)
    → ((j : ℤ) → gone j ≡ true)
    → Follows running gone s
    → Follows running gone (close_parts is s) × ((close_parts is s).added ≡ s.added)
unfolding close_parts
close_parts-Follows [] s g h = (h, refl)
close_parts-Follows (i ∷ is) s g h =
    let (k, e) = close_parts-Follows is (close_part i s) g (close_part-Follows i s (g i) h) in
    (k, e ∙ close_part_added i s)

close_parts_state :
    (is : List ℤ) (j : ℤ) (s : ToResponses)
    → (block_at j (close_parts is s).blocks).is_open
      ≡ ((block_at j s.blocks).is_open && not (among_ℤ j is))
unfolding close_parts
close_parts_state [] j s = ground arith
close_parts_state (i ∷ is) j s =
    ground (arith, close_parts_state is j (close_part i s), close_part_state i j s)

-- Behind the loop that closes them, no block is open.
none_open :
    (j : ℤ) (s : ToResponses) → (block_at j (close_open_responses_blocks s).blocks).is_open ≡ false
unfolding close_open_responses_blocks
none_open j s =
    close_parts_state (ordered_block_indexes s.blocks) j s
    ∙ elim (Bool-cases (among_ℤ j (ordered_block_indexes s.blocks))) [
      | inl e ↦ rw e (ground arith)
      | inr e ↦ rw (e, block_at_outside j s.blocks e) refl
    ]

any_none : {A : Type 0} (p : A → Bool) (xs : List A) → ((x : A) → p x ≡ false) → any p xs ≡ false
any_none p [] h = refl
any_none p (x ∷ xs) h = rw (h x) (any_none p xs h)

-- The texts of the code's item are those of the reader.
same_texts : (bs : BlockMap) → texts_eq (block_texts bs) (gathered bs) ≡ true
unfolding block_texts gathered
same_texts [] = refl
same_texts ((i, b) ∷ bs) = rw (text_eq_refl b.text) (same_texts bs)

is_whole-build_responses_output_item :
    (stage : Stage) (s : ToResponses)
    → s.added ≡ true
    → is_ascending s.blocks ≡ true
    → ((j : ℤ) → (block_at j s.blocks).is_open ≡ false)
    → is_whole (build_responses_output_item s) (reading_of stage s) ≡ true
unfolding is_whole build_responses_output_item
is_whole-build_responses_output_item stage s c a h =
    rw
      (
        c,
        same_texts s.blocks,
        a,
        any_none (λ i. (block_at i s.blocks).is_open) (part_indexes s.blocks) h,
      )
      refl

end_response-Follows :
    {gone : ℤ → Bool} (s : ToResponses)
    → Follows running gone s
    → ((stage : Stage) → is_whole (build_responses_output_item s) (reading_of stage s) ≡ true)
    → Follows response_over gone (end_response s)
unfolding end_response
end_response-Follows {gone} s h e =
    let it = build_responses_output_item s in
    let q : ToResponses = append_event (item_done it) s in
    let f : Follows item_over gone q =
      appended (item_done it) s q h refl (unfold accept in rw (e running) refl) h.live_ok
        h.ascends in
    appended (response_ended s.response_id s.model it (ended_rest s)) q (end_response s) f refl
      (unfold accept in rw (e item_over) refl) f.live_ok f.ascends

pub on_message_stop-Follows :
    (gone : ℤ → Bool) (s : ToResponses)
    → Follows running gone s
    → Follows response_over (λ j. true) (on_message_stop s)
unfolding on_message_stop
on_message_stop-Follows gone z g =
    let s = ensure_item z in
    let (h, c) = ensure_item-Follows z (Follows-more running gone (λ j. true) z (λ j k. refl) g) in
    let (k, e) = close_parts-Follows (ordered_block_indexes s.blocks) s (λ j. refl) h in
    let q = close_open_responses_blocks s in
    let f : Follows running (λ j. true) q = unfold close_open_responses_blocks in k in
    end_response-Follows q f (λ stage.
      is_whole-build_responses_output_item stage q (unfold close_open_responses_blocks in e ∙ c)
        f.ascends (λ j. none_open j s))
