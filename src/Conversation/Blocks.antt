-- ===== src/Conversation/Blocks.antt =====
-- The items of one message, read back as its blocks.
use token_gate.Base.{
  ◌≡◌, refl, sym, ap, ◌∙◌, false, List, [], ◌∷◌, ◌++◌, map, append-nil, append_assoc, map-append,
  All,
}
use token_gate.Content.{
  typed_text, anthropic_block, convert_anthropic_tool_use_to_responses_function_call,
  convert_anthropic_tool_result_to_responses_function_call_output, decoded_arguments,
}
use token_gate.Conversation.{
  message_items, block_items, ChatMessage, add_blocks, add_unless_empty, take_item, take_items,
}
use token_gate.Conversation.Turns.{
  Block, said, called, returned, block_json, Speaker, user, assistant, speaker_role, Restores, Fits,
  take_items-append, add_unless_empty_again, take_message,
}
use token_gate.Json.{Json, string, Object, mapping, as_object, first_non_blank, Codec}
use token_gate.Json.Laws.{entries_of-members_of}
use token_gate.Text.{Text, codes, is_empty, trim_space}

-- The items of the blocks that have one of their own.
abbrev call_item : Codec → Text → Json → Object → Json
call_item codec id name input = convert_anthropic_tool_use_to_responses_function_call codec (
    (codes "type", string (codes "tool_use"))
    ∷ (codes "id", string id)
    ∷ (codes "name", name)
    ∷ (codes "input", mapping input)
    ∷ [])

abbrev result_item : Json → Text → Json
result_item id text = convert_anthropic_tool_result_to_responses_function_call_output (
    (codes "type", string (codes "tool_result"))
    ∷ (codes "tool_use_id", id)
    ∷ (codes "content", string text)
    ∷ [])

block_items-nil :
    (codec : Codec) (role : Text) (pending : List Json)
    → block_items codec role pending [] ≡ message_items role pending
unfolding block_items
block_items-nil codec role pending = refl

block_items-said :
    (codec : Codec) (role : Text) (pending vs : List Json) (text : Text)
    → block_items codec role pending (block_json (said text) ∷ vs)
      ≡ block_items codec role (pending ++ (typed_text (codes "input_text") text ∷ [])) vs
unfolding block_items block_json
block_items-said codec role pending vs text = refl

block_items-called :
    (codec : Codec) (role : Text) (pending vs : List Json) (id : Text) (name : Json)
    (input : Object)
    → block_items codec role pending (block_json (called id name input) ∷ vs)
      ≡ message_items role pending ++ (call_item codec id name input ∷ block_items codec role [] vs)
unfolding block_items block_json
block_items-called codec role pending vs id name input = refl

block_items-returned :
    (codec : Codec) (role : Text) (pending vs : List Json) (id : Json) (text : Text)
    → block_items codec role pending (block_json (returned id text) ∷ vs)
      ≡ message_items role pending ++ (result_item id text ∷ block_items codec role [] vs)
unfolding block_items block_json
block_items-returned codec role pending vs id text = refl

first_non_blank_first :
    (s t : Text) → is_empty (trim_space s) ≡ false → first_non_blank (s ∷ t ∷ []) ≡ s
unfolding first_non_blank
first_non_blank_first s t h = rw h refl

decoded_arguments-marshal :
    (codec : Codec) (m : Object)
    → Restores codec m
    → decoded_arguments codec (trim_space (codec.marshal (mapping m))) ≡ m
unfolding decoded_arguments mapping as_object
decoded_arguments-marshal codec m h =
    rw (h.trimmed, h.not_empty, h.restored) (entries_of-members_of m)

take_call_item :
    (codec : Codec) (id : Text) (name : Json) (input : Object) (ms : List ChatMessage)
    → take_item codec (call_item codec id name input) ms
      ≡ add_blocks
          (codes "assistant")
          (block_json (
              called
                (first_non_blank (id ∷ [] ∷ []))
                name
                (decoded_arguments codec (trim_space (codec.marshal (mapping input)))))
            ∷ [])
          ms
unfolding take_item block_json convert_anthropic_tool_use_to_responses_function_call
take_call_item codec id name input ms = refl

take_item-call_item :
    (codec : Codec) (id : Text) (name : Json) (input : Object) (ms : List ChatMessage)
    → is_empty (trim_space id) ≡ false
    → Restores codec input
    → take_item codec (call_item codec id name input) ms
      ≡ add_blocks (codes "assistant") (block_json (called id name input) ∷ []) ms
take_item-call_item codec id name input ms h k =
    take_call_item codec id name input ms
    ∙ ap (λ (b : Block). add_blocks (codes "assistant") (block_json b ∷ []) ms)
        (ap
            (λ i.
              called i name (decoded_arguments codec (trim_space (codec.marshal (mapping input)))))
            (first_non_blank_first id [] h)
          ∙ ap (called id name) (decoded_arguments-marshal codec input k))

take_item-result_item :
    (codec : Codec) (id : Json) (text : Text) (ms : List ChatMessage)
    → take_item codec (result_item id text) ms
      ≡ add_blocks (codes "user") (block_json (returned id text) ∷ []) ms
unfolding take_item block_json convert_anthropic_tool_result_to_responses_function_call_output
take_item-result_item codec id text ms = refl

anthropic_block-typed_text :
    (text : Text) → anthropic_block (typed_text (codes "input_text") text) ≡ block_json (said text)
unfolding anthropic_block block_json
anthropic_block-typed_text text = refl

-- An item of its own between the blocks that wait and those that follow.
take_apart :
    (codec : Codec) (a : Speaker) (pending vs rest : List Json) (it b : Json)
    (ms : List ChatMessage)
    → ((ns : List ChatMessage) → take_item codec it ns ≡ add_blocks (speaker_role a) (b ∷ []) ns)
    → ((ns : List ChatMessage) → take_items codec rest ns ≡ add_unless_empty (speaker_role a) vs ns)
    → take_items codec (message_items (speaker_role a) pending ++ (it ∷ rest)) ms
      ≡ add_unless_empty (speaker_role a) (map anthropic_block pending ++ (b ∷ vs)) ms
unfolding take_items
take_apart codec a pending vs rest it b ms h k =
    let waiting = map anthropic_block pending in
    let ns = add_unless_empty (speaker_role a) waiting ms in
    take_items-append codec (message_items (speaker_role a) pending) (it ∷ rest) ms
    ∙ ap (λ ns. take_items codec (it ∷ rest) ns) (take_message codec a pending ms)
    ∙ ap (take_items codec rest) (h ns)
    ∙ k (add_blocks (speaker_role a) (b ∷ []) ns)
    ∙ (unfold add_unless_empty in add_unless_empty_again a (b ∷ []) vs ns)
    ∙ add_unless_empty_again a waiting (b ∷ vs) ms

-- The items of a message, read back, are its blocks.
pub take_blocks :
    (codec : Codec) (a : Speaker) (bs : List Block) (pending : List Json) (ms : List ChatMessage)
    → All (Fits codec a) bs
    → take_items codec (block_items codec (speaker_role a) pending (map block_json bs)) ms
      ≡ add_unless_empty (speaker_role a) (map anthropic_block pending ++ map block_json bs) ms
take_blocks codec a [] pending ms h =
    ap (λ vs. take_items codec vs ms) (block_items-nil codec (speaker_role a) pending)
    ∙ take_message codec a pending ms
    ∙ ap (λ vs. add_unless_empty (speaker_role a) vs ms)
        (sym (append-nil (map anthropic_block pending)))
take_blocks codec a (said text ∷ bs) pending ms (f, h) =
    let waiting = typed_text (codes "input_text") text ∷ [] in
    ap (λ vs. take_items codec vs ms)
      (block_items-said codec (speaker_role a) pending (map block_json bs) text)
    ∙ take_blocks codec a bs (pending ++ waiting) ms h
    ∙ ap (λ vs. add_unless_empty (speaker_role a) vs ms)
        (ap (λ vs. vs ++ map block_json bs) (map-append anthropic_block pending waiting)
          ∙ append_assoc (map anthropic_block pending) (map anthropic_block waiting)
              (map block_json bs)
          ∙ ap (λ b. map anthropic_block pending ++ (b ∷ map block_json bs))
              (anthropic_block-typed_text text))
take_blocks codec assistant (called id name input ∷ bs) pending ms ((f, g), h) =
    ap (λ vs. take_items codec vs ms)
      (block_items-called codec (codes "assistant") pending (map block_json bs) id name input)
    ∙ take_apart codec assistant pending (map block_json bs) _ (call_item codec id name input)
        (block_json (called id name input)) ms
        (λ ns. take_item-call_item codec id name input ns f g)
        (λ ns. take_blocks codec assistant bs [] ns h)
take_blocks codec user (returned id text ∷ bs) pending ms (f, h) =
    ap (λ vs. take_items codec vs ms)
      (block_items-returned codec (codes "user") pending (map block_json bs) id text)
    ∙ take_apart codec user pending (map block_json bs) _ (result_item id text)
        (block_json (returned id text)) ms (λ ns. take_item-result_item codec id text ns)
        (λ ns. take_blocks codec user bs [] ns h)
take_blocks codec user (called id name input ∷ bs) pending ms (f, h) = absurd f
take_blocks codec assistant (returned id text ∷ bs) pending ms (f, h) = absurd f
