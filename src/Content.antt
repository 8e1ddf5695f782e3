-- ===== src/Content.antt =====
-- internal/proxy/translate.go: the content of messages, and the calls of tools in it, turned from
-- the form of one protocol into that of the other. `cloneObject` copies a map, which a value is.
use token_gate.Base.{Bool, ◌||◌, Option, none, some, List, [], ◌∷◌, ◌++◌, map, if◌then◌else◌}
use token_gate.Json.{
  Json, string, array, object, Object, list_of, entries_of, slice, mapping, lookup, get, as_string,
  as_object, first_non_blank, Codec,
}
use token_gate.Text.{Text, codes, text_eq, is_empty, trim_space}

-- `strings.TrimSpace(asString(m["type"]))`
abbrev pub type_of : Object → Text
unfolding get as_string trim_space
type_of m = trim_space (as_string (get (codes "type") m))

abbrev pub is_blank : Text → Bool
unfolding is_empty trim_space
is_blank s = is_empty (trim_space s)

-- A block of text, under the name that the protocol has for it.
unfoldable pub typed_text : Text → Text → Json
unfolding mapping
typed_text name text = mapping ((codes "type", string name) ∷ (codes "text", string text) ∷ [])

unfoldable pub text_unless_blank : Text → Text → List Json
unfolding typed_text is_empty trim_space
text_unless_blank name text = if is_blank text then [] else typed_text name text ∷ []

unfoldable pub text_unless_empty : Text → Text → List Json
unfolding typed_text is_empty
text_unless_empty name text = if is_empty text then [] else typed_text name text ∷ []

abbrev pub is_text_type : Text → Bool
unfolding text_eq
is_text_type t =
    text_eq t (codes "input_text") || (text_eq t (codes "output_text") || text_eq t (codes "text"))

-- The body of the loop of `convertResponsesContentToAnthropicContent`.
unfoldable pub anthropic_block : Json → Json
unfolding entries_of get as_string trim_space text_eq typed_text
anthropic_block (object m) =
    if is_text_type (type_of (entries_of m))
    then typed_text (codes "text") (as_string (get (codes "text") (entries_of m)))
    else object m
anthropic_block raw = raw

-- `convertResponsesContentToAnthropicContent`
unfoldable pub convert_responses_content_to_anthropic_content : Json → Json
unfolding slice list_of text_unless_blank anthropic_block
convert_responses_content_to_anthropic_content (string s) =
    slice (text_unless_blank (codes "text") s)
convert_responses_content_to_anthropic_content (array vs) = slice (map anthropic_block (list_of vs))
convert_responses_content_to_anthropic_content v = v

-- `convertAnthropicContentBlockToResponsesInputBlock`; `none` is nil
unfoldable pub convert_anthropic_content_block_to_responses_input_block : Object → Option Json
unfolding get as_string trim_space text_eq typed_text mapping
convert_anthropic_content_block_to_responses_input_block m =
    if text_eq (type_of m) (codes "text")
    then some (typed_text (codes "input_text") (as_string (get (codes "text") m)))
    else if text_eq (type_of m) (codes "tool_use") || text_eq (type_of m) (codes "tool_result")
    then none
    else some (mapping m)

abbrev pub some_of : Option Json → List Json
some_of none = []
some_of (some v) = v ∷ []

unfoldable pub input_blocks : List Json → List Json
unfolding entries_of convert_anthropic_content_block_to_responses_input_block
input_blocks [] = []
input_blocks (object m ∷ vs) =
    some_of (convert_anthropic_content_block_to_responses_input_block (entries_of m))
    ++ input_blocks vs
input_blocks (raw ∷ vs) = raw ∷ input_blocks vs

-- `convertAnthropicContentToResponsesInputBlocks`
unfoldable pub convert_anthropic_content_to_responses_input_blocks : Json → List Json
unfolding list_of input_blocks text_unless_blank as_string
convert_anthropic_content_to_responses_input_blocks (string s) =
    text_unless_blank (codes "input_text") s
convert_anthropic_content_to_responses_input_blocks (array vs) = input_blocks (list_of vs)
convert_anthropic_content_to_responses_input_blocks v =
    text_unless_blank (codes "input_text") (as_string v)

-- `convertAnthropicToolUseToResponsesFunctionCall`
unfoldable pub convert_anthropic_tool_use_to_responses_function_call : Codec → Object → Json
unfolding lookup get mapping
convert_anthropic_tool_use_to_responses_function_call codec block = mapping (
    (codes "type", string (codes "function_call"))
    ∷ (codes "call_id", get (codes "id") block)
    ∷ (codes "name", get (codes "name") block)
    ∷ (
      codes "arguments",
      string (elim (lookup (codes "input") block) [ none ↦ codes "{}" | some v ↦ codec.marshal v ]),
    )
    ∷ [])

-- A list of one block of text has that text; every other list has its blocks.
unfoldable pub output_of_blocks : List Json → Json
unfolding entries_of get as_string trim_space text_eq slice input_blocks
output_of_blocks (object m ∷ []) =
    if text_eq (type_of (entries_of m)) (codes "text")
    then string (as_string (get (codes "text") (entries_of m)))
    else slice (input_blocks (object m ∷ []))
output_of_blocks vs = slice (input_blocks vs)

-- `convertAnthropicToolResultContentToResponsesOutput`
unfoldable pub convert_anthropic_tool_result_content_to_responses_output : Json → Json
unfolding list_of output_of_blocks
convert_anthropic_tool_result_content_to_responses_output (array vs) = output_of_blocks (list_of vs)
convert_anthropic_tool_result_content_to_responses_output v = v

-- `convertAnthropicToolResultToResponsesFunctionCallOutput`
unfoldable pub convert_anthropic_tool_result_to_responses_function_call_output : Object → Json
unfolding get mapping convert_anthropic_tool_result_content_to_responses_output
convert_anthropic_tool_result_to_responses_function_call_output block = mapping (
    (codes "type", string (codes "function_call_output"))
    ∷ (codes "call_id", get (codes "tool_use_id") block)
    ∷ (
      codes "output",
      convert_anthropic_tool_result_content_to_responses_output (get (codes "content") block),
    )
    ∷ [])

-- The input of a call: arguments that are no object in JSON give an empty one.
unfoldable pub decoded_arguments : Codec → Text → Object
unfolding is_empty as_object
decoded_arguments codec arguments =
    if is_empty arguments
    then []
    else elim (codec.unmarshal arguments) [ none ↦ [] | some v ↦ as_object v ]

-- `convertResponsesFunctionCallToAnthropicToolUse`
unfoldable pub convert_responses_function_call_to_anthropic_tool_use : Codec → Object → Json
unfolding get as_string trim_space first_non_blank mapping decoded_arguments
convert_responses_function_call_to_anthropic_tool_use codec it = mapping (
    (codes "type", string (codes "tool_use"))
    ∷ (
      codes "id",
      string (
          first_non_blank
            (as_string (get (codes "call_id") it) ∷ as_string (get (codes "id") it) ∷ [])),
    )
    ∷ (codes "name", get (codes "name") it)
    ∷ (
      codes "input",
      mapping (decoded_arguments codec (trim_space (as_string (get (codes "arguments") it)))),
    )
    ∷ [])

-- `convertResponsesFunctionCallOutputToAnthropicContent`
unfoldable pub convert_responses_function_call_output_to_anthropic_content : Json → Json
unfolding convert_responses_content_to_anthropic_content
convert_responses_function_call_output_to_anthropic_content (array vs) =
    convert_responses_content_to_anthropic_content (array vs)
convert_responses_function_call_output_to_anthropic_content v = v

-- `convertResponsesFunctionCallOutputToAnthropicToolResult`
unfoldable pub convert_responses_function_call_output_to_anthropic_tool_result : Object → Json
unfolding get mapping convert_responses_function_call_output_to_anthropic_content
convert_responses_function_call_output_to_anthropic_tool_result it = mapping (
    (codes "type", string (codes "tool_result"))
    ∷ (codes "tool_use_id", get (codes "call_id") it)
    ∷ (
      codes "content",
      convert_responses_function_call_output_to_anthropic_content (get (codes "output") it),
    )
    ∷ [])
