-- ===== src/Streams/Sent.antt =====
-- What an upstream sends, read apart from the converters: which events are pings, what the payload
-- of an event is, and of which type the event is.
use token_gate.Base.{
  ℕ, ◌+◌, ◌≡◌, refl, sym, ap, ◌∙◌, inl, inr, Bool, true, false, ◌&&◌, ◌||◌, Option, none, some, [],
  ◌∷◌, arith, leb, ◌==◌, if◌then◌else◌, Bool-cases,
}
use token_gate.Json.{
  Json, null_value, boolean, number, string, array, object, Object, entries_of, get, as_string,
  first_non_blank, Codec, decode_json_object,
}
use token_gate.Sse.{SseEvent}
use token_gate.Streams.{
  Decoding, malformed, nothing_sent, payload, decode_sse_json, ascii_lower, is_ping, event_type,
}
use token_gate.Text.{Text, codes, text_eq, is_empty, trim_space}
use token_gate.Text.Laws.{text_eq_iff}

abbrev either_case : ℕ → ℕ → Bool
either_case c lower = c == lower || (c + 32) == lower

-- The name of a ping, in any case.
unfoldable pub is_named_ping : Text → Bool
is_named_ping (p ∷ i ∷ n ∷ g ∷ []) =
    either_case p b'p' && (either_case i b'i' && (either_case n b'n' && either_case g b'g'))
is_named_ping name = false

letter_of_ping :
    (c lower : ℕ)
    → leb b'a' lower ≡ true
    → leb lower b'z' ≡ true
    → (ascii_lower c == lower) ≡ either_case c lower
unfolding ascii_lower
letter_of_ping c lower h k = ground (arith, h, k)

pub is_ping-named : (name : Text) → is_ping name ≡ is_named_ping name
unfolding is_ping is_named_ping text_eq
is_ping-named [] = refl
is_ping-named (p ∷ []) = ground arith
is_ping-named (p ∷ i ∷ []) = ground arith
is_ping-named (p ∷ i ∷ n ∷ []) = ground arith
is_ping-named (p ∷ i ∷ n ∷ g ∷ []) = ground (
  arith,
  letter_of_ping p b'p' refl refl,
  letter_of_ping i b'i' refl refl,
  letter_of_ping n b'n' refl refl,
  letter_of_ping g b'g' refl refl,
)
is_ping-named (p ∷ i ∷ n ∷ g ∷ x ∷ name) = ground arith

-- The object of a decoded value.
unfoldable pub object_of : Option Json → Object
unfolding entries_of
object_of (some (object m)) = entries_of m
object_of v = []

-- The payload that the data of an event holds; nothing is an empty one.
unfoldable pub sent_payload : Codec → Text → Object
unfolding trim_space is_empty text_eq object_of
sent_payload codec text =
    if is_empty (trim_space text) || text_eq (trim_space text) (codes "[DONE]")
    then []
    else object_of (codec.unmarshal (trim_space text))

abbrev pub payload_of : Decoding → Object
payload_of (payload p) = p
payload_of d = []

decoded_by :
    (t : Bool) (o : Option Json)
    → payload_of (
        if t
        then nothing_sent
        else elim (elim o as (λ x. Option Object) [
          | none ↦ none
          | some v ↦ elim v as (λ x. Option Object) [
            | object m ↦ some (entries_of m)
            | null_value ↦ some []
            | _ ↦ none
          ]
        ])
            as (λ x. Decoding) [ none ↦ malformed | some p ↦ payload p ])
      ≡ (if t then [] else object_of o)
unfolding object_of
decoded_by true o = refl
decoded_by false none = refl
decoded_by false (some null_value) = refl
decoded_by false (some (boolean b)) = refl
decoded_by false (some (number n ds)) = refl
decoded_by false (some (string s)) = refl
decoded_by false (some (array vs)) = refl
decoded_by false (some (object m)) = refl

pub payload_of-decode_sse_json :
    (codec : Codec) (text : Text)
    → payload_of (decode_sse_json codec text) ≡ sent_payload codec text
unfolding decode_sse_json decode_json_object sent_payload
payload_of-decode_sse_json codec text =
    decoded_by (is_empty (trim_space text) || text_eq (trim_space text) (codes "[DONE]"))
      (codec.unmarshal (trim_space text))

-- The payload that the data of an event holds, if there is one; null is an empty one.
unfoldable pub sent_object : Codec → Text → Option Object
unfolding trim_space is_empty text_eq entries_of
sent_object codec text =
    if is_empty (trim_space text) || text_eq (trim_space text) (codes "[DONE]")
    then none
    else elim (codec.unmarshal (trim_space text)) [
      | some (object m) ↦ some (entries_of m)
      | some null_value ↦ some []
      | _ ↦ none
    ]

abbrev pub found_payload : Decoding → Option Object
found_payload (payload p) = some p
found_payload d = none

found_by :
    (t : Bool) (o : Option Json)
    → found_payload (
        if t
        then nothing_sent
        else elim (elim o as (λ x. Option Object) [
          | none ↦ none
          | some v ↦ elim v as (λ x. Option Object) [
            | object m ↦ some (entries_of m)
            | null_value ↦ some []
            | _ ↦ none
          ]
        ])
            as (λ x. Decoding) [ none ↦ malformed | some p ↦ payload p ])
      ≡ (if t then none else elim o as (λ x. Option Object) [
        | some (object m) ↦ some (entries_of m)
        | some null_value ↦ some []
        | _ ↦ none
      ])
found_by true o = refl
found_by false none = refl
found_by false (some null_value) = refl
found_by false (some (boolean b)) = refl
found_by false (some (number n ds)) = refl
found_by false (some (string s)) = refl
found_by false (some (array vs)) = refl
found_by false (some (object m)) = refl

pub found_payload-decode_sse_json :
    (codec : Codec) (text : Text)
    → found_payload (decode_sse_json codec text) ≡ sent_object codec text
unfolding decode_sse_json decode_json_object sent_object
found_payload-decode_sse_json codec text =
    found_by (is_empty (trim_space text) || text_eq (trim_space text) (codes "[DONE]"))
      (codec.unmarshal (trim_space text))

-- The member `type` names the type, or, where that is blank, the name of the event does.
unfoldable pub is_of_type : Text → Object → SseEvent → Bool
unfolding as_string get is_empty trim_space text_eq
is_of_type name p e =
    let own = as_string (get (codes "type") p) in
    if is_empty (trim_space own) then text_eq e.event name else text_eq own name

other_name :
    (name s : Text)
    → is_empty (trim_space name) ≡ false
    → is_empty (trim_space s) ≡ true
    → text_eq s name ≡ false
other_name name s h k = elim (Bool-cases (text_eq s name)) [
  | inl e ↦
      absurd
        (ground (arith, h, sym (ap (λ x. is_empty (trim_space x)) ((text_eq_iff s name).0 e)) ∙ k))
  | inr e ↦ e
]

pub event_type-is_of_type :
    (name : Text) (p : Object) (e : SseEvent)
    → is_empty (trim_space name) ≡ false
    → text_eq (event_type p e) name ≡ is_of_type name p e
unfolding event_type is_of_type first_non_blank
event_type-is_of_type name p e h =
    elim (Bool-cases (is_empty (trim_space (as_string (get (codes "type") p))))) [
      | inl o ↦ elim (Bool-cases (is_empty (trim_space e.event))) [
        | inl k ↦
            rw (o, k)
              (other_name name [] h (unfold is_empty trim_space in refl)
                ∙ sym (other_name name e.event h k))
        | inr k ↦ rw (o, k) refl
      ]
      | inr o ↦ rw o refl
    ]

pub type_is :
    (name : Text) (p : Object) (e : SseEvent)
    → is_empty (trim_space name) ≡ false
    → is_of_type name p e ≡ text_eq (event_type p e) name
type_is name p e h = sym (event_type-is_of_type name p e h)

pub all_the_same : {A : Type 0} (t : Bool) (x : A) → x ≡ (if t then x else x)
all_the_same true x = refl
all_the_same false x = refl
