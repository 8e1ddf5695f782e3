-- ===== src/Glob.antt =====
-- `path.Match`, by its documented grammar: a pattern is read into terms, and terms are matched by
-- trying every length that a `*` can take. A malformed pattern matches nothing.
pub mod Matching
use token_gate.Base.{
  ℕ, Bool, true, false, not, ◌&&◌, ◌||◌, Option, none, some, List, [], ◌∷◌, leb, ◌==◌,
  if◌then◌else◌, any,
}
use token_gate.Text.{Text}

pub data Term : Type 0 where
  star : Term
  any_one : Term
  literal : ℕ → Term
  class : Bool → List (ℕ × ℕ) → Term

-- Where the reader is: between terms, behind a backslash, or in a class, with its negation and
-- the ranges read so far.
pub data Reader : Type 0 where
  top escaped class_open : Reader
  class_item class_low_escaped : Bool → List (ℕ × ℕ) → Reader
  class_low class_high class_high_escaped : Bool → List (ℕ × ℕ) → ℕ → Reader

abbrev emit : Term → Option (List Term) → Option (List Term)
emit t none = none
emit t (some ts) = some (t ∷ ts)

-- What a character does in a class, before the low end of a range.
class_next : Bool → List (ℕ × ℕ) → ℕ → Option Reader
class_next negated [] c =
    if c == b'-' || c == b']'
    then none
    else if c == b'\\'
    then some (class_low_escaped negated [])
    else some (class_low negated [] c)
class_next negated (r ∷ rs) c =
    if c == b']'
    then some top
    else if c == b'-'
    then none
    else if c == b'\\'
    then some (class_low_escaped negated (r ∷ rs))
    else some (class_low negated (r ∷ rs) c)

-- The next reader, and the term that ends here, if one does.
next_reader : Reader → ℕ → Option (Reader × Option Term)
unfolding class_next
next_reader top c =
    if c == b'*'
    then some (top, some star)
    else if c == b'?'
    then some (top, some any_one)
    else if c == b'['
    then some (class_open, none)
    else if c == b'\\'
    then some (escaped, none)
    else some (top, some (literal c))
next_reader escaped c = some (top, some (literal c))
next_reader class_open c =
    if c == b'^'
    then some (class_item true [], none)
    else elim (class_next false [] c) [ none ↦ none | some r ↦ some (r, none) ]
next_reader (class_item negated rs) c = elim (class_next negated rs c) [
  | none ↦ none
  | some r ↦ some (r, if c == b']' then some (class negated rs) else none)
]
next_reader (class_low_escaped negated rs) c = some (class_low negated rs c, none)
next_reader (class_low negated rs lo) c =
    let done = (lo, lo) ∷ rs in
    if c == b'-' then some (class_high negated rs lo, none) else elim (class_next negated done c) [
      | none ↦ none
      | some r ↦ some (r, if c == b']' then some (class negated done) else none)
    ]
next_reader (class_high negated rs lo) c =
    if c == b'-' || c == b']'
    then none
    else if c == b'\\'
    then some (class_high_escaped negated rs lo, none)
    else some (class_item negated ((lo, c) ∷ rs), none)
next_reader (class_high_escaped negated rs lo) c = some (class_item negated ((lo, c) ∷ rs), none)

unfoldable pub read_terms : Reader → Text → Option (List Term)
unfolding next_reader
read_terms top [] = some []
read_terms _ [] = none
read_terms r (c ∷ s) = elim (next_reader r c) [
  | none ↦ none
  | some (q, t) ↦ let rest = read_terms q s in elim t [ none ↦ rest | some u ↦ emit u rest ]
]

unfoldable pub in_ranges : ℕ → List (ℕ × ℕ) → Bool
in_ranges c rs = any (λ r. leb r.0 c && leb c r.1) rs

-- Whether a term other than `*` takes the character.
unfoldable pub takes : Term → ℕ → Bool
unfolding in_ranges
takes star c = false
takes any_one c = not (c == b'/')
takes (literal d) c = d == c
takes (class negated rs) c = (if negated then not (in_ranges c rs) else in_ranges c rs)

unfoldable pub match_terms : List Term → Text → Bool
unfolding takes
match_terms [] [] = true
match_terms [] (c ∷ s) = false
match_terms (star ∷ ts) [] = match_terms ts []
match_terms (star ∷ ts) (c ∷ s) =
    match_terms ts (c ∷ s) || (not (c == b'/') && match_terms (star ∷ ts) s)
match_terms (t ∷ ts) [] = false
match_terms (t ∷ ts) (c ∷ s) = takes t c && match_terms ts s

unfoldable pub path_match : Text → Text → Bool
unfolding read_terms match_terms
path_match pattern name = elim (read_terms top pattern) [
  | none ↦ false
  | some ts ↦ match_terms ts name
]
