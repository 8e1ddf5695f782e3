-- ===== src/Json.antt =====
-- JSON values as encoding/json gives them to an `any` of Go, and what the source does with them. A
-- number is its integer part, as a conversion to int cuts it, and its text; an object is a map, here
-- its entries, one for each key. The encoder and the decoder are arguments (`Codec`).
pub mod Laws
use token_gate.Base.{Bool, Option, none, some, List, [], ◌∷◌, if◌then◌else◌, ℤ, pos}
use token_gate.Text.{Text, text_eq, is_empty, trim_space}

mutual
  pub data Json : Type 0 where
    null_value : Json
    boolean : Bool → Json
    number : ℤ → Text → Json
    string : Text → Json
    array : Items → Json
    object : Members → Json

  pub data Items : Type 0 where
    no_items : Items
    item : Json → Items → Items

  pub data Members : Type 0 where
    no_members : Members
    member : Text → Json → Members → Members

abbrev pub Object : Type 0
Object = List (Text × Json)

unfoldable pub items_of : List Json → Items
items_of [] = no_items
items_of (v ∷ vs) = item v (items_of vs)

unfoldable pub list_of : Items → List Json
list_of no_items = []
list_of (item v vs) = v ∷ list_of vs

unfoldable pub members_of : Object → Members
members_of [] = no_members
members_of ((k, v) ∷ m) = member k v (members_of m)

unfoldable pub entries_of : Members → Object
entries_of no_members = []
entries_of (member k v m) = (k, v) ∷ entries_of m

-- A slice and a map as values.
unfoldable pub slice : List Json → Json
unfolding items_of
slice vs = array (items_of vs)

unfoldable pub mapping : Object → Json
unfolding members_of
mapping m = object (members_of m)

-- The type assertions, with `none` where `ok` is false.
unfoldable pub to_slice : Json → Option (List Json)
unfolding list_of
to_slice (array vs) = some (list_of vs)
to_slice _ = none

unfoldable pub to_mapping : Json → Option Object
unfolding entries_of
to_mapping (object m) = some (entries_of m)
to_mapping _ = none

-- `value, ok := m[key]`
unfoldable pub lookup : Text → Object → Option Json
unfolding text_eq
lookup key [] = none
lookup key ((k, v) ∷ m) = let rest = lookup key m in if text_eq k key then some v else rest

-- `m[key]`, nil for a key that is missing
unfoldable pub get : Text → Object → Json
unfolding lookup
get key m = elim (lookup key m) [ none ↦ null_value | some v ↦ v ]

-- `m[key] = value`
unfoldable pub put : Text → Json → Object → Object
unfolding text_eq
put key v [] = (key, v) ∷ []
put key v ((k, w) ∷ m) =
    let rest = put key v m in if text_eq k key then (k, v) ∷ m else (k, w) ∷ rest

-- `delete(m, key)`
unfoldable pub remove : Text → Object → Object
unfolding text_eq
remove key [] = []
remove key ((k, v) ∷ m) = let rest = remove key m in if text_eq k key then rest else (k, v) ∷ rest

-- `asString`
unfoldable pub as_string : Json → Text
as_string (string s) = s
as_string _ = []

-- `asObject`
unfoldable pub as_object : Json → Object
unfolding entries_of
as_object (object m) = entries_of m
as_object _ = []

-- `intValue`
unfoldable pub int_value : Json → ℤ
int_value (number n digits) = n
int_value _ = pos 0

-- An index of a block, as it is written.
abbrev pub digits_of : ℤ → Json
digits_of n = number n []

-- `firstNonEmpty` of internal/proxy/translate.go: the first value that is not blank, as it is
unfoldable pub first_non_blank : List Text → Text
unfolding is_empty trim_space
first_non_blank [] = []
first_non_blank (v ∷ vs) =
    let rest = first_non_blank vs in if is_empty (trim_space v) then rest else v

-- encoding/json: `Marshal` of a value that came from JSON or is built of such, which cannot fail, and
-- `Unmarshal` into an `any`.
pub record Codec : Type 0 where
  pub marshal : Json → Text
  pub unmarshal : Text → Option Json

-- `Unmarshal` into a map: null gives none, which the source takes for an empty one.
unfoldable pub decode_json_object : Codec → Text → Option Object
unfolding entries_of
decode_json_object codec body = elim (codec.unmarshal body) [
  | none ↦ none
  | some v ↦ elim v [ object m ↦ some (entries_of m) | null_value ↦ some [] | _ ↦ none ]
]
