-- ===== src/JsonText.antt =====
-- `json.Valid` of encoding/json: its scanner as a pushdown automaton over the characters.
use token_gate.Base.{
  ℕ, zero, suc, ◌≡◌, refl, Bool, true, false, ◌&&◌, ◌||◌, Option, none, some, List, [], ◌∷◌, ltb,
  leb, ◌==◌, if◌then◌else◌, length,
}
use token_gate.Text.{Text, codes, contains_any}

pub data Frame : Type 0 where
  in_object : Frame
  in_array : Frame

-- What may come next. In a text the flag tells a key from a value.
pub data Mode : Type 0 where
  value_next value_or_close key_or_close key_next colon_next after_value : Mode
  in_text : Bool → Mode
  in_escape : Bool → Mode
  in_hex : Bool → ℕ → Mode
  minus zero_digit integer dot decimals exponent exponent_sign exponent_digits : Mode
  in_word : Text → Mode

pub record Scan : Type 0 where
  pub mode : Mode
  pub stack : List Frame

is_blank : ℕ → Bool
is_blank c = c == b' ' || c == b'\t' || c == b'\r' || c == b'\n'

is_digit : ℕ → Bool
is_digit c = leb b'0' c && leb c b'9'

is_hex : ℕ → Bool
unfolding is_digit
is_hex c = is_digit c || (leb b'a' c && leb c b'f') || (leb b'A' c && leb c b'F')

abbrev goto : List Frame → Mode → Option Scan
goto s m = some (record { mode = m; stack = s })

-- `pushParseState`, with `maxNestingDepth`
push : List Frame → Frame → Mode → Option Scan
push s f m = if ltb (length s) 10000 then goto (f ∷ s) m else none

begin_value : List Frame → ℕ → Option Scan
unfolding push is_digit
begin_value s c =
    if c == b'{'
    then push s in_object key_or_close
    else if c == b'['
    then push s in_array value_or_close
    else if c == b'"'
    then goto s (in_text false)
    else if c == b'-'
    then goto s minus
    else if c == b'0'
    then goto s zero_digit
    else if is_digit c
    then goto s integer
    else if c == b't'
    then goto s (in_word (codes "rue"))
    else if c == b'f'
    then goto s (in_word (codes "alse"))
    else if c == b'n'
    then goto s (in_word (codes "ull"))
    else none

-- Behind a value: a comma, or the end of the innermost object or array.
end_value : List Frame → ℕ → Option Scan
end_value [] c = none
end_value (in_object ∷ s) c =
    if c == b','
    then goto (in_object ∷ s) key_next
    else if c == b'}'
    then goto s after_value
    else none
end_value (in_array ∷ s) c =
    if c == b','
    then goto (in_array ∷ s) value_next
    else if c == b']'
    then goto s after_value
    else none

-- A number may end here; what ends it is read again behind it.
number_end : List Frame → ℕ → Option Scan
unfolding end_value is_blank
number_end s c = if is_blank c then goto s after_value else end_value s c

fraction_or_exponent : List Frame → ℕ → Option Scan
unfolding number_end
fraction_or_exponent s c =
    if c == b'.'
    then goto s dot
    else if c == b'e' || c == b'E'
    then goto s exponent
    else number_end s c

next_mode : Mode → List Frame → ℕ → Option Scan
unfolding is_blank is_digit is_hex begin_value end_value number_end fraction_or_exponent
next_mode value_next s c = if is_blank c then goto s value_next else begin_value s c
next_mode value_or_close s c =
    if is_blank c
    then goto s value_or_close
    else if c == b']'
    then end_value s c
    else begin_value s c
next_mode key_or_close s c =
    if is_blank c
    then goto s key_or_close
    else if c == b'}'
    then end_value s c
    else if c == b'"'
    then goto s (in_text true)
    else none
next_mode key_next s c =
    if is_blank c then goto s key_next else if c == b'"' then goto s (in_text true) else none
next_mode colon_next s c =
    if is_blank c then goto s colon_next else if c == b':' then goto s value_next else none
next_mode after_value s c = if is_blank c then goto s after_value else end_value s c
next_mode (in_text key) s c =
    if c == b'"'
    then goto s (if key then colon_next else after_value)
    else if c == b'\\'
    then goto s (in_escape key)
    else if ltb c 0x20
    then none
    else goto s (in_text key)
next_mode (in_escape key) s c =
    if contains_any (codes "bfnrt\\/\"") (c ∷ [])
    then goto s (in_text key)
    else if c == b'u'
    then goto s (in_hex key 4)
    else none
next_mode (in_hex key zero) s c = none
next_mode (in_hex key (suc n)) s c =
    if is_hex c then goto s (if n == 0 then in_text key else in_hex key n) else none
next_mode minus s c =
    if c == b'0' then goto s zero_digit else if is_digit c then goto s integer else none
next_mode zero_digit s c = fraction_or_exponent s c
next_mode integer s c = if is_digit c then goto s integer else fraction_or_exponent s c
next_mode dot s c = if is_digit c then goto s decimals else none
next_mode decimals s c =
    if is_digit c
    then goto s decimals
    else if c == b'e' || c == b'E'
    then goto s exponent
    else number_end s c
next_mode exponent s c =
    if c == b'+' || c == b'-'
    then goto s exponent_sign
    else if is_digit c
    then goto s exponent_digits
    else none
next_mode exponent_sign s c = if is_digit c then goto s exponent_digits else none
next_mode exponent_digits s c = if is_digit c then goto s exponent_digits else number_end s c
next_mode (in_word []) s c = none
next_mode (in_word (w ∷ [])) s c = if c == w then goto s after_value else none
next_mode (in_word (w ∷ v ∷ ws)) s c = if c == w then goto s (in_word (v ∷ ws)) else none

-- The text may stop here.
complete : Mode → List Frame → Bool
complete after_value [] = true
complete zero_digit [] = true
complete integer [] = true
complete decimals [] = true
complete exponent_digits [] = true
complete _ _ = false

run : Mode → List Frame → Text → Bool
unfolding next_mode complete
run m s [] = complete m s
run m s (c ∷ t) = elim (next_mode m s c) [ none ↦ false | some n ↦ run n.mode n.stack t ]

unfoldable pub json_valid : Text → Bool
unfolding run push contains_any
json_valid t = run value_next [] t

json_valid_object : json_valid (codes " {\"a\":[1,-2.5e3,true,null,\"\\u00e9\"],\"b\":{}} ") ≡ true
unfolding json_valid
json_valid_object = refl

json_valid_rejects :
    (json_valid (codes "{\"a\":01}") ≡ false)
    × (json_valid (codes "[1,]") ≡ false)
    × (json_valid (codes "{} x") ≡ false)
    × (json_valid [] ≡ false)
unfolding json_valid
json_valid_rejects = (refl, refl, refl, refl)
