-- ===== src/Requests/Tools.antt =====
-- The tools of a request, and the choice among them, turned into the form of the Responses protocol
-- and back.
use token_gate.Base.{
  ◌≡◌, refl, ap, ◌∙◌, Bool, true, false, Option, none, some, List, [], ◌∷◌, ◌++◌, map,
  if◌then◌else◌,
}
use token_gate.Json.{
  Json, null_value, boolean, number, string, array, object, Members, Object, items_of, list_of,
  entries_of, slice, mapping, lookup, get, as_string,
}
use token_gate.Json.Laws.{list_of-items_of}
use token_gate.Requests.{
  described, renamed, responses_tool, convert_anthropic_tools_to_responses_tools, anthropic_tool,
  convert_responses_tools_to_anthropic_tools,
  convert_anthropic_tool_choice_to_responses_tool_choice,
  convert_responses_tool_choice_to_anthropic_tool_choice,
}
use token_gate.Text.{Text, codes, is_empty, trim_space}
use token_gate.Text.Laws.{trim_space_idem}

-- A member, if there is a value for it.
abbrev pub member_of : Text → Option Json → Object
member_of key none = []
member_of key (some v) = (key, v) ∷ []

-- What is kept of a tool: its name, nil if it has none; its description, trimmed, unless it is
-- blank; its schema, if it has one. Other members are not kept; what is no object stays.
unfoldable pub kept_tool : Json → Json
unfolding entries_of mapping get lookup as_string trim_space is_empty
kept_tool (object m) =
    let text = trim_space (as_string (get (codes "description") (entries_of m))) in
    mapping (
      (codes "name", get (codes "name") (entries_of m))
      ∷ ((if is_empty text then [] else (codes "description", string text) ∷ [])
          ++ member_of (codes "input_schema") (lookup (codes "input_schema") (entries_of m))))
kept_tool raw = raw

-- The types of a choice that the Messages protocol knows.
pub data ChoiceType : Type 0 where
  any_or_none one_or_more never_any this_tool : ChoiceType

abbrev pub choice_name : ChoiceType → Text
choice_name any_or_none = codes "auto"
choice_name one_or_more = codes "any"
choice_name never_any = codes "none"
choice_name this_tool = codes "tool"

-- What is kept of a choice of that type: the type, and the name of a tool that is chosen.
unfoldable pub kept_choice : ChoiceType → Object → Json
unfolding mapping get
kept_choice this_tool m =
    mapping ((codes "type", string (codes "tool")) ∷ (codes "name", get (codes "name") m) ∷ [])
kept_choice t m = mapping ((codes "type", string (choice_name t)) ∷ [])

abbrev described_by : Bool → Text → Object
described_by e text = if e then [] else (codes "description", string text) ∷ []

-- The way back, member by member, from the form that the way there has made.
back_by :
    (name : Json) (e : Bool) (text : Text) (schema : Option Json)
    → trim_space text ≡ text
    → is_empty text ≡ e
    → anthropic_tool (
        mapping (
          (codes "type", string (codes "function"))
          ∷ (codes "name", name)
          ∷ (described_by e text ++ member_of (codes "parameters") schema)))
      ≡ mapping
          ((codes "name", name) ∷ (described_by e text ++ member_of (codes "input_schema") schema))
unfolding anthropic_tool
back_by name true text none h k = refl
back_by name true text (some v) h k = refl
back_by name false text none h k = rw (h, k) refl
back_by name false text (some v) h k = rw (h, k) refl

renamed_by : (from to : Text) (m : Object) → renamed from to m ≡ member_of to (lookup from m)
unfolding renamed
renamed_by from to m = member_by (lookup from m)
  where
    member_by :
        (o : Option Json)
        → (elim o as (λ x. Object) [ none ↦ [] | some v ↦ (to, v) ∷ [] ]) ≡ member_of to o
    member_by none = refl
    member_by (some v) = refl

tool_back : (v : Json) → anthropic_tool (responses_tool v) ≡ kept_tool v
unfolding responses_tool described kept_tool
tool_back (object m) =
    let raw = as_string (get (codes "description") (entries_of m)) in
    rw (renamed_by (codes "input_schema") (codes "parameters") (entries_of m)) (
      back_by (get (codes "name") (entries_of m)) (is_empty (trim_space raw)) (trim_space raw)
        (lookup (codes "input_schema") (entries_of m)) (trim_space_idem raw) refl)
tool_back null_value = unfold anthropic_tool in refl
tool_back (boolean b) = unfold anthropic_tool in refl
tool_back (number n ds) = unfold anthropic_tool in refl
tool_back (string s) = unfold anthropic_tool in refl
tool_back (array vs) = unfold anthropic_tool in refl

tools_back : (vs : List Json) → map anthropic_tool (map responses_tool vs) ≡ map kept_tool vs
tools_back [] = refl
tools_back (v ∷ vs) =
    ap (λ w. w ∷ map anthropic_tool (map responses_tool vs)) (tool_back v)
    ∙ ap (λ ws. kept_tool v ∷ ws) (tools_back vs)

choice_back :
    (t : ChoiceType) (m : Members)
    → trim_space (as_string (get (codes "type") (entries_of m))) ≡ choice_name t
    → convert_responses_tool_choice_to_anthropic_tool_choice
        (convert_anthropic_tool_choice_to_responses_tool_choice (object m))
      ≡ kept_choice t (entries_of m)
unfolding convert_responses_tool_choice_to_anthropic_tool_choice
    convert_anthropic_tool_choice_to_responses_tool_choice kept_choice
choice_back any_or_none m h = rw h refl
choice_back one_or_more m h = rw h refl
choice_back never_any m h = rw h refl
choice_back this_tool m h = rw h refl

-- A list of tools that goes to the form of the Responses protocol and back keeps of every tool that
-- is an object its name, its description, trimmed and unless it is blank, and its schema, and
-- nothing else. A choice of one of the four types keeps its type and, where it is of a tool, the
-- name; its other members are lost.
pub tools_and_choice_back :
    (vs : List Json) (t : ChoiceType) (m : Members)
    → trim_space (as_string (get (codes "type") (entries_of m))) ≡ choice_name t
    → (convert_responses_tools_to_anthropic_tools
          (convert_anthropic_tools_to_responses_tools (slice vs))
        ≡ slice (map kept_tool vs))
      × (convert_responses_tool_choice_to_anthropic_tool_choice
            (convert_anthropic_tool_choice_to_responses_tool_choice (object m))
          ≡ kept_choice t (entries_of m))
unfolding convert_responses_tools_to_anthropic_tools convert_anthropic_tools_to_responses_tools
tools_and_choice_back vs t m h = (
  ap slice (
      ap (map anthropic_tool) (
        list_of-items_of (map responses_tool (list_of (items_of vs)))
        ∙ ap (map responses_tool) (list_of-items_of vs))
      ∙ tools_back vs),
  choice_back t m h,
)
