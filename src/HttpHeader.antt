-- ===== src/HttpHeader.antt =====
-- net/http.Header as the source uses it: values under canonical keys. A map has no order; here the
-- keys stand in the order in which they were added, and no operation or theorem depends on it.
pub mod Laws
use token_gate.Base.{
  ℕ, ◌+◌, ◌-◌, Bool, true, not, ◌&&◌, ◌||◌, List, [], ◌∷◌, ◌++◌, leb, ◌==◌, if◌then◌else◌, any,
}
use token_gate.Text.{Text, codes, text_eq}

abbrev pub Header : Type 0
Header = List (Text × List Text)

-- The characters of a token of RFC 9110, as `textproto` tests them.
unfoldable pub is_token_char : ℕ → Bool
is_token_char c =
    (leb b'0' c && leb c b'9')
    || (leb b'A' c && leb c b'Z')
    || (leb b'a' c && leb c b'z')
    || any (λ d. c == d) (codes "!#$%&'*+-.^_`|~")

-- Upper case at the start and behind a hyphen, lower case elsewhere.
unfoldable pub capitalise : Bool → Text → Text
capitalise upper [] = []
capitalise upper (c ∷ s) =
    let d =
      if upper && leb b'a' c && leb c b'z'
      then c - 32
      else if not upper && leb b'A' c && leb c b'Z'
      then c + 32
      else c in
    d ∷ capitalise (c == b'-') s

-- `textproto.CanonicalMIMEHeaderKey`: a key that is no token stays as it is.
unfoldable pub canonical_key : Text → Text
unfolding is_token_char capitalise
canonical_key key = if any (λ c. not (is_token_char c)) key then key else capitalise true key

-- `h[key]` at a canonical key
unfoldable pub values : Text → Header → List Text
unfolding text_eq
values key [] = []
values key ((k, vs) ∷ h) = let rest = values key h in if text_eq k key then vs else rest

unfoldable pub add_value : Text → Text → Header → Header
unfolding text_eq
add_value key value [] = (key, value ∷ []) ∷ []
add_value key value ((k, vs) ∷ h) =
    let rest = add_value key value h in
    if text_eq k key then (k, vs ++ (value ∷ [])) ∷ h else (k, vs) ∷ rest

unfoldable pub drop_key : Text → Header → Header
unfolding text_eq
drop_key key [] = []
drop_key key ((k, vs) ∷ h) =
    let rest = drop_key key h in if text_eq k key then rest else (k, vs) ∷ rest

-- `Header.Add`, `Header.Del` and `Header.Set`
unfoldable pub add : Text → Text → Header → Header
unfolding add_value canonical_key
add key value h = add_value (canonical_key key) value h

unfoldable pub del : Text → Header → Header
unfolding drop_key canonical_key
del key h = drop_key (canonical_key key) h

unfoldable pub set : Text → Text → Header → Header
unfolding drop_key canonical_key
set key value h = (canonical_key key, value ∷ []) ∷ drop_key (canonical_key key) h
