-- ===== src/Conversation/Turns.antt =====
-- Turns of a conversation as values, and how blocks are added to messages.
use token_gate.Base.{
  ◌≡◌, refl, sym, ap, ◌∙◌, ◌≢◌, inl, inr, true, false, some, List, [], ◌∷◌, ◌++◌, map, append-nil,
  append_assoc, Bool-cases, All,
}
use token_gate.Content.{typed_text, anthropic_block}
use token_gate.Conversation.{
  message_items, ChatMessage, message_json, has_role, add_blocks, add_unless_empty, take_item,
  take_items,
}
use token_gate.Json.{Json, string, Object, items_of, list_of, mapping, first_non_blank, Codec}
use token_gate.Json.Laws.{list_of-items_of}
use token_gate.Text.{Text, codes, is_empty, trim_space}

-- A block of a message: a text, the call of a tool, or its result.
pub data Block : Type 0 where
  said : Text → Block
  called : Text → Json → Object → Block
  returned : Json → Text → Block

unfoldable pub block_json : Block → Json
unfolding typed_text mapping
block_json (said text) = typed_text (codes "text") text
block_json (called id name input) = mapping (
    (codes "type", string (codes "tool_use"))
    ∷ (codes "id", string id)
    ∷ (codes "name", name)
    ∷ (codes "input", mapping input)
    ∷ [])
block_json (returned id text) = mapping (
    (codes "type", string (codes "tool_result"))
    ∷ (codes "tool_use_id", id)
    ∷ (codes "content", string text)
    ∷ [])

pub data Speaker : Type 0 where
  user assistant : Speaker

abbrev pub speaker_role : Speaker → Text
speaker_role user = codes "user"
speaker_role assistant = codes "assistant"

pub record Turn : Type 0 where
  pub speaker : Speaker
  pub blocks : List Block

unfoldable pub turn_message : Turn → ChatMessage
unfolding block_json
turn_message t = record { role = speaker_role t.speaker; content = map block_json t.blocks }

abbrev pub turn_json : Turn → Json
turn_json t = message_json (turn_message t)

-- The decoder gives back what the encoder wrote of this object, which is no blank text.
pub record Restores (codec : Codec) (m : Object) : Type 0 where
  pub trimmed : trim_space (codec.marshal (mapping m)) ≡ codec.marshal (mapping m)
  pub not_empty : is_empty (codec.marshal (mapping m)) ≡ false
  pub restored : codec.unmarshal (codec.marshal (mapping m)) ≡ some (mapping m)

-- The assistant calls tools, the user returns results.
abbrev pub Fits : Codec → Speaker → Block → Type 0
Fits codec speaker (said text) = Unit
Fits codec user (called id name input) = ⊥
Fits codec assistant (called id name input) =
    (is_empty (trim_space id) ≡ false) × Restores codec input
Fits codec user (returned id text) = Unit
Fits codec assistant (returned id text) = ⊥

abbrev pub Speaks : Codec → Turn → Type 0
Speaks codec t = (t.blocks ≢ []) × All (Fits codec t.speaker) t.blocks

-- The speakers take turns.
abbrev pub other : Speaker → Speaker
other user = assistant
other assistant = user

abbrev pub TakesTurns : Speaker → List Turn → Type 0
TakesTurns next [] = Unit
TakesTurns next (t ∷ ts) = (t.speaker ≡ next) × TakesTurns (other next) ts

pub take_items-append :
    (codec : Codec) (vs ws : List Json) (ms : List ChatMessage)
    → take_items codec (vs ++ ws) ms ≡ take_items codec ws (take_items codec vs ms)
unfolding take_items
take_items-append codec [] ws ms = refl
take_items-append codec (v ∷ vs) ws ms = take_items-append codec vs ws (take_item codec v ms)

-- Adding blocks twice is adding them all.
has_role-speaker_role :
    (a : Speaker) (bs : List Json)
    → has_role (speaker_role a) (record { role = speaker_role a; content = bs }) ≡ true
unfolding has_role first_non_blank
has_role-speaker_role user bs = refl
has_role-speaker_role assistant bs = refl

has_role_content :
    (role : Text) (m : ChatMessage) (bs : List Json)
    → has_role role (record m { content = bs }) ≡ has_role role m
unfolding has_role
has_role_content role m bs = refl

add_blocks_again :
    (a : Speaker) (xs ys : List Json) (ms : List ChatMessage)
    → add_blocks (speaker_role a) ys (add_blocks (speaker_role a) xs ms)
      ≡ add_blocks (speaker_role a) (xs ++ ys) ms
unfolding add_blocks
add_blocks_again a xs ys [] = rw (has_role-speaker_role a xs) refl
add_blocks_again a xs ys (m ∷ ms) = elim (Bool-cases (has_role (speaker_role a) m)) [
  | inl e ↦
      rw (e, has_role_content (speaker_role a) m (m.content ++ xs) ∙ e)
        (ap (λ zs. record m { content = zs } ∷ ms) (append_assoc m.content xs ys))
  | inr e ↦ rw (e, has_role-speaker_role a xs) refl
]

pub add_unless_empty_again :
    (a : Speaker) (xs ys : List Json) (ms : List ChatMessage)
    → add_unless_empty (speaker_role a) ys (add_unless_empty (speaker_role a) xs ms)
      ≡ add_unless_empty (speaker_role a) (xs ++ ys) ms
unfolding add_unless_empty
add_unless_empty_again a [] ys ms = refl
add_unless_empty_again a (x ∷ xs) [] ms =
    ap (λ zs. add_blocks (speaker_role a) (x ∷ zs) ms) (sym (append-nil xs))
add_unless_empty_again a (x ∷ xs) (y ∷ ys) ms = add_blocks_again a (x ∷ xs) (y ∷ ys) ms

lists_twice :
    (vs : List Json)
    → list_of (items_of (map anthropic_block (list_of (items_of vs)))) ≡ map anthropic_block vs
lists_twice vs =
    list_of-items_of (map anthropic_block (list_of (items_of vs)))
    ∙ ap (map anthropic_block) (list_of-items_of vs)

-- The item of a message, read back.
pub take_message :
    (codec : Codec) (a : Speaker) (pending : List Json) (ms : List ChatMessage)
    → take_items codec (message_items (speaker_role a) pending) ms
      ≡ add_unless_empty (speaker_role a) (map anthropic_block pending) ms
unfolding take_items message_items
take_message codec a [] ms = refl
take_message codec user (b ∷ bs) ms = rw (lists_twice (b ∷ bs)) refl
take_message codec assistant (b ∷ bs) ms = rw (lists_twice (b ∷ bs)) refl
