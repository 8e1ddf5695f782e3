-- ===== src/NetAddress.antt =====
-- What internal/proxy/socks5.go uses of the packages net and strconv: `SplitHostPort`, `Atoi` and
-- `ParseIP`, by their documented grammars.
use token_gate.Base.{
  ℕ, zero, suc, ◌+◌, ◌-◌, ◌*◌, ◌/◌, ◌%◌, ◌^◌, Bool, true, false, not, ◌&&◌, ◌||◌, Option, none,
  some, List, [], ◌∷◌, ◌++◌, map, ltb, leb, ◌==◌, if◌then◌else◌, length, any, ℤ, pos, negsuc,
}
use token_gate.Text.{Text, codes, text_eq, is_empty, cut_prefix, has_prefix}

-- The text on either side of the first such character.
unfoldable pub cut_first : ℕ → Text → Option (Text × Text)
cut_first c [] = none
cut_first c (d ∷ s) =
    let rest = cut_first c s in
    if d == c then some ([], s) else elim rest [ none ↦ none | some (a, b) ↦ some (d ∷ a, b) ]

-- The text on either side of the last such character.
unfoldable pub cut_last : ℕ → Text → Option (Text × Text)
cut_last c [] = none
cut_last c (d ∷ s) = elim (cut_last c s) [
  | none ↦ if d == c then some ([], s) else none
  | some (a, b) ↦ some (d ∷ a, b)
]

abbrev pub contains : ℕ → Text → Bool
contains c s = any (λ d. d == c) s

-- The host in brackets, and what follows the closing one.
unfoldable pub split_bracketed : Text × Text → Option (Text × Text)
unfolding cut_first
split_bracketed (host, after) = elim after [
  | [] ↦ none
  | c ∷ port ↦
      if c == b':'
        && not (contains b':' port)
        && not (contains b'[' (host ++ port))
        && not (contains b']' port)
      then some (host, port)
      else none
]

unfoldable pub split_plain : Text × Text → Option (Text × Text)
split_plain (host, port) =
    if contains b':' host || contains b'[' (host ++ port) || contains b']' (host ++ port)
    then none
    else some (host, port)

-- `net.SplitHostPort`
unfoldable pub split_host_port : Text → Option (Text × Text)
unfolding cut_first cut_last split_bracketed split_plain
split_host_port [] = none
split_host_port (c ∷ s) =
    if c == b'['
    then elim (cut_first b']' s) [ none ↦ none | some parts ↦ split_bracketed parts ]
    else elim (cut_last b':' (c ∷ s)) [ none ↦ none | some parts ↦ split_plain parts ]

abbrev pub is_digit : ℕ → Bool
is_digit c = leb b'0' c && leb c b'9'

-- The digits read onto a value.
unfoldable pub read_decimal : ℕ → Text → Option ℕ
read_decimal n [] = some n
read_decimal n (c ∷ s) =
    let rest = read_decimal (n * 10 + (c - b'0')) s in if is_digit c then rest else none

-- A number without a sign: at least one digit.
unfoldable pub decimal : Text → Option ℕ
unfolding read_decimal
decimal [] = none
decimal (c ∷ s) = read_decimal 0 (c ∷ s)

-- `strconv.Atoi`, for an `int` of 64 bits
unfoldable pub atoi : Text → Option ℤ
unfolding decimal
atoi [] = none
atoi (c ∷ s) =
    if c == b'-'
    then elim (decimal s) [
      | none ↦ none
      | some zero ↦ some (pos 0)
      | some (suc n) ↦ if ltb n (2 ^ 63) then some (negsuc n) else none
    ]
    else elim (if c == b'+' then decimal s else decimal (c ∷ s)) [
      | none ↦ none
      | some n ↦ if ltb n (2 ^ 63) then some (pos n) else none
    ]

-- One of the four numbers of an IPv4 address: no leading zero, at most 255.
unfoldable pub octet : Text → Option ℕ
unfolding decimal
octet (c ∷ d ∷ s) =
    if c == b'0'
    then none
    else elim (decimal (c ∷ d ∷ s)) [ none ↦ none | some n ↦ if leb n 255 then some n else none ]
octet s = decimal s

-- The parts between the characters `c`.
unfoldable pub split_on : ℕ → Text → List Text
split_on c [] = [] ∷ []
split_on c (d ∷ s) = elim (split_on c s) [
  | [] ↦ (d ∷ []) ∷ []
  | p ∷ ps ↦ if d == c then [] ∷ p ∷ ps else (d ∷ p) ∷ ps
]

unfoldable pub parse_ipv4 : Text → Option (List ℕ)
unfolding split_on octet
parse_ipv4 s = elim (map octet (split_on b'.' s)) [
  | some a ∷ some b ∷ some c ∷ some d ∷ [] ↦ some (a ∷ b ∷ c ∷ d ∷ [])
  | _ ↦ none
]

unfoldable pub hex_digit : ℕ → Option ℕ
hex_digit c =
    if is_digit c
    then some (c - b'0')
    else if leb b'a' c && leb c b'f'
    then some (c - b'a' + 10)
    else if leb b'A' c && leb c b'F'
    then some (c - b'A' + 10)
    else none

-- The leading hexadecimal digits: how many, their value, and the rest.
unfoldable pub take_hex : ℕ → Text → ℕ × ℕ × Text
unfolding hex_digit
take_hex acc [] = (0, acc, [])
take_hex acc (c ∷ s) = elim (hex_digit c) [
  | none ↦ (0, acc, c ∷ s)
  | some d ↦ let (n, v, r) = take_hex (acc * 16 + d) s in (suc n, v, r)
]

-- What an IPv6 text gave so far: its bytes, where `::` stood among them, and the rest.
pub record Groups : Type 0 where
  pub bytes : List ℕ
  pub ellipsis : Option ℕ
  pub rest : Text

-- The text behind a double colon: only one may stand in an address. The flag says that the text ended.
unfoldable pub double_colon : List ℕ → Option ℕ → Text → Option (Bool × Groups)
double_colon bytes (some e) s = none
double_colon bytes none s =
    some (is_empty s, record { bytes = bytes; ellipsis = some (length bytes); rest = s })

-- The text behind a group: its end, or a colon, or the double colon.
unfoldable pub after_group : List ℕ → Option ℕ → Text → Option (Bool × Groups)
unfolding double_colon
after_group bytes ellipsis [] =
    some (true, record { bytes = bytes; ellipsis = ellipsis; rest = [] })
after_group bytes ellipsis (c ∷ []) = none
after_group bytes ellipsis (c ∷ d ∷ s) =
    if not (c == b':')
    then none
    else if not (d == b':')
    then some (false, record { bytes = bytes; ellipsis = ellipsis; rest = d ∷ s })
    else double_colon bytes ellipsis s

unfoldable pub no_ellipsis : Option ℕ → Bool
no_ellipsis none = true
no_ellipsis (some e) = false

-- An IPv4 address in the last four bytes.
unfoldable pub embedded : List ℕ → Option ℕ → Text → Option Groups
unfolding parse_ipv4 no_ellipsis
embedded bytes ellipsis s =
    if ltb 16 (length bytes + 4) || (no_ellipsis ellipsis && not (length bytes == 12))
    then none
    else elim (parse_ipv4 s) [
      | none ↦ none
      | some ip ↦ some (record { bytes = bytes ++ ip; ellipsis = ellipsis; rest = [] })
    ]

-- The loop over the groups of two bytes, at most as many as the first argument.
unfoldable pub read_groups : ℕ → List ℕ → Option ℕ → Text → Option Groups
unfolding take_hex after_group embedded
read_groups zero bytes ellipsis s = some (record { bytes = bytes; ellipsis = ellipsis; rest = s })
read_groups (suc k) bytes ellipsis s =
    let (n, v, r) = take_hex 0 s in
    if n == 0 || ltb 4 n
    then none
    else if has_prefix (codes ".") r
    then embedded bytes ellipsis s
    else elim (after_group (bytes ++ ((v / 256) ∷ (v % 256) ∷ [])) ellipsis r) [
      | none ↦ none
      | some (done, g) ↦ if done then some g else read_groups k g.bytes g.ellipsis g.rest
    ]

abbrev pub zeros : ℕ → List ℕ
zeros zero = []
zeros (suc n) = 0 ∷ zeros n

-- The bytes with zeros put in after the first `n`.
abbrev pub insert_zeros : ℕ → ℕ → List ℕ → List ℕ
insert_zeros k zero xs = zeros k ++ xs
insert_zeros k (suc n) [] = zeros k
insert_zeros k (suc n) (x ∷ xs) = x ∷ insert_zeros k n xs

unfoldable pub finish_groups : Groups → Option (List ℕ)
finish_groups g = if not (is_empty g.rest) then none else elim (g.ellipsis) [
  | none ↦ if length g.bytes == 16 then some g.bytes else none
  | some e ↦
      if ltb (length g.bytes) 16 then some (insert_zeros (16 - length g.bytes) e g.bytes) else none
]

unfoldable pub parse_ipv6 : Text → Option (List ℕ)
unfolding read_groups finish_groups cut_prefix
parse_ipv6 s = elim (cut_prefix (codes "::") s) [
  | some [] ↦ some (zeros 16)
  | some (c ∷ t) ↦ elim (read_groups 8 [] (some 0) (c ∷ t)) [
    | none ↦ none
    | some g ↦ finish_groups g
  ]
  | none ↦ elim (read_groups 8 [] none s) [ none ↦ none | some g ↦ finish_groups g ]
]

-- `To4` of an IPv6 address: the last four bytes of ::ffff:a.b.c.d
unfoldable pub to4 : List ℕ → Option (List ℕ)
unfolding text_eq
to4 (a ∷ b ∷ c ∷ d ∷ e ∷ f ∷ g ∷ h ∷ i ∷ j ∷ k ∷ l ∷ v4) =
    if text_eq (a ∷ b ∷ c ∷ d ∷ e ∷ f ∷ g ∷ h ∷ i ∷ j ∷ k ∷ l ∷ []) (zeros 10 ++ (255 ∷ 255 ∷ []))
    then some v4
    else none
to4 _ = none

pub data Ip : Type 0 where
  v4 : List ℕ → Ip
  v6 : List ℕ → Ip

-- Which of `.`, `:` and `%` comes first.
unfoldable pub first_mark : Text → Option ℕ
first_mark [] = none
first_mark (c ∷ s) =
    let rest = first_mark s in if c == b'.' || c == b':' || c == b'%' then some c else rest

-- `net.ParseIP`, with the `To4` of its result. An address with a zone is none.
unfoldable pub parse_ip : Text → Option Ip
unfolding first_mark parse_ipv4 parse_ipv6 to4
parse_ip s = elim (first_mark s) [
  | none ↦ none
  | some m ↦
      if m == b'.'
      then elim (parse_ipv4 s) [ none ↦ none | some b ↦ some (v4 b) ]
      else if m == b':' && not (contains b'%' s)
      then elim (parse_ipv6 s) [
        | none ↦ none
        | some b ↦ elim (to4 b) [ some w ↦ some (v4 w) | none ↦ some (v6 b) ]
      ]
      else none
]
