-- ===== src/Conversation/RoundTrip.antt =====
-- A conversation of the Messages protocol, turned into an input of the Responses protocol and back.
use token_gate.Base.{
  ◌≡◌, refl, sym, ap, ◌∙◌, subst, ◌≢◌, false, List, [], ◌∷◌, ◌++◌, map, reverse, append-nil,
  append_assoc, reverse-append, reverse-reverse, arith, All,
}
use token_gate.Conversation.{
  block_items, input_items, convert_anthropic_messages_to_responses_input, ChatMessage,
  message_json, has_role, add_blocks, add_unless_empty, take_items,
  convert_responses_input_to_anthropic_messages,
}
use token_gate.Conversation.Blocks.{take_blocks}
use token_gate.Conversation.Turns.{
  Block, block_json, Speaker, user, assistant, speaker_role, Turn, turn_message, turn_json, Speaks,
  other, TakesTurns, take_items-append,
}
use token_gate.Json.{Json, items_of, list_of, slice, first_non_blank, Codec}
use token_gate.Json.Laws.{list_of-items_of}
use token_gate.Text.{Text, codes}

-- A turn that starts a new message.
abbrev StartsNew : Text → List ChatMessage → Type 0
StartsNew role [] = Unit
StartsNew role (m ∷ ms) = has_role role m ≡ false

add_unless_empty_new :
    (role : Text) (vs : List Json) (ms : List ChatMessage)
    → vs ≢ []
    → StartsNew role ms
    → add_unless_empty role vs ms ≡ record { role = role; content = vs } ∷ ms
unfolding add_unless_empty add_blocks
add_unless_empty_new role [] ms h k = absurd (h refl)
add_unless_empty_new role (v ∷ vs) [] h k = refl
add_unless_empty_new role (v ∷ vs) (m ∷ ms) h k = rw k refl

map_not_empty : (bs : List Block) → bs ≢ [] → map block_json bs ≢ []
map_not_empty [] h k = absurd (h refl)
map_not_empty (b ∷ bs) h k = ground (arith, k)

message_turn_items :
    (codec : Codec) (a : Speaker) (bs vs : List Json)
    → input_items codec (message_json (record { role = speaker_role a; content = bs }) ∷ vs)
      ≡ block_items codec (speaker_role a) [] bs ++ input_items codec vs
unfolding input_items message_json
message_turn_items codec user bs vs =
    ap (λ ws. block_items codec (codes "user") [] ws ++ input_items codec vs) (list_of-items_of bs)
message_turn_items codec assistant bs vs =
    ap (λ ws. block_items codec (codes "assistant") [] ws ++ input_items codec vs)
      (list_of-items_of bs)

turn_items :
    (codec : Codec) (t : Turn) (vs : List Json)
    → input_items codec (turn_json t ∷ vs)
      ≡ block_items codec (speaker_role t.speaker) [] (map block_json t.blocks)
        ++ input_items codec vs
unfolding turn_message
turn_items codec t vs = message_turn_items codec t.speaker (map block_json t.blocks) vs

StartsNew-other :
    (a : Speaker) (vs : List Json) (ms : List ChatMessage)
    → StartsNew (speaker_role (other a)) (record { role = speaker_role a; content = vs } ∷ ms)
unfolding has_role first_non_blank
StartsNew-other user vs ms = refl
StartsNew-other assistant vs ms = refl

-- One turn, read back.
take_turn :
    (codec : Codec) (t : Turn) (ms : List ChatMessage)
    → Speaks codec t
    → StartsNew (speaker_role t.speaker) ms
    → take_items codec (block_items codec (speaker_role t.speaker) [] (map block_json t.blocks)) ms
      ≡ turn_message t ∷ ms
unfolding turn_message
take_turn codec t ms (b, f) n =
    take_blocks codec t.speaker t.blocks [] ms f
    ∙ add_unless_empty_new (speaker_role t.speaker) (map block_json t.blocks) ms
        (map_not_empty t.blocks b) n

take_turns :
    (codec : Codec) (a : Speaker) (ts : List Turn) (ms : List ChatMessage)
    → All (Speaks codec) ts
    → TakesTurns a ts
    → StartsNew (speaker_role a) ms
    → take_items codec (input_items codec (map turn_json ts)) ms
      ≡ reverse (map turn_message ts) ++ ms
take_turns codec a [] ms h k n = unfold input_items take_items in refl
take_turns codec a (t ∷ ts) ms (f, h) (e, k) n =
    let here = block_items codec (speaker_role t.speaker) [] (map block_json t.blocks) in
    let there = input_items codec (map turn_json ts) in
    ap (λ vs. take_items codec vs ms) (turn_items codec t (map turn_json ts))
    ∙ take_items-append codec here there ms
    ∙ ap (take_items codec there)
        (take_turn codec t ms f (subst (λ b. StartsNew (speaker_role b) ms) (sym e) n))
    ∙ take_turns codec (other a) ts (turn_message t ∷ ms) h k (
        subst (λ b. StartsNew (speaker_role (other b)) (turn_message t ∷ ms)) e
          (unfold turn_message in StartsNew-other t.speaker (map block_json t.blocks) ms))
    ∙ sym (
        ap (λ xs. xs ++ ms) (reverse-append (turn_message t ∷ []) (map turn_message ts))
        ∙ append_assoc (reverse (map turn_message ts)) (turn_message t ∷ []) ms)

-- A conversation in which the speakers take turns, each of them with some blocks, comes back as it
-- was: texts, calls of tools by the assistant and their results from the user, in the same messages
-- and the same order. The identifier of a call is not blank, and the decoder restores its input.
pub conversation_back :
    (codec : Codec) (a : Speaker) (ts : List Turn)
    → All (Speaks codec) ts
    → TakesTurns a ts
    → convert_responses_input_to_anthropic_messages codec
        (convert_anthropic_messages_to_responses_input codec (slice (map turn_json ts)))
      ≡ map turn_message ts
unfolding convert_responses_input_to_anthropic_messages
    convert_anthropic_messages_to_responses_input
conversation_back codec a ts h k =
    ap (λ vs. reverse (take_items codec vs []))
      (list_of-items_of (input_items codec (list_of (items_of (map turn_json ts))))
        ∙ ap (input_items codec) (list_of-items_of (map turn_json ts)))
    ∙ ap reverse (take_turns codec a ts [] h k tt ∙ append-nil (reverse (map turn_message ts)))
    ∙ reverse-reverse (map turn_message ts)
