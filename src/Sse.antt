-- ===== src/Sse.antt =====
-- internal/proxy/translate.go: event streams, read and written. A line of 4 MiB or more is an error
-- of the scanner.
pub mod Lines
pub mod RoundTrip
use token_gate.Base.{
  ℕ, Bool, ◌&&◌, Option, none, some, List, [], ◌∷◌, ◌++◌, leb, ◌==◌, if◌then◌else◌, length, any,
}
use token_gate.NetAddress.{cut_first, split_on}
use token_gate.Text.{
  Text, codes, text_eq, is_empty, trim_space, has_prefix, trim_prefix, join, byte_length,
}

pub record SseEvent : Type 0 where
  pub event : Text
  pub data_text : Text

abbrev pub newline : ℕ
newline = 10

abbrev pub line_limit : ℕ
line_limit = 4194304

-- The lines, each without its end. What follows the last end is a line if it is not empty.
unfoldable pub raw_lines : Text → List Text
raw_lines [] = []
raw_lines (c ∷ s) =
    let rest = raw_lines s in
    if c == newline then [] ∷ rest else elim rest [ [] ↦ (c ∷ []) ∷ [] | l ∷ ls ↦ (c ∷ l) ∷ ls ]

-- A carriage return at the end is dropped.
unfoldable pub drop_cr : Text → Text
drop_cr [] = []
drop_cr (c ∷ []) = if c == 13 then [] else c ∷ []
drop_cr (c ∷ d ∷ s) = c ∷ drop_cr (d ∷ s)

-- The variables of the loop of `parseSSEStream`.
pub record SseReader : Type 0 where
  pub events : List SseEvent
  pub name : Text
  pub rows : List Text

unfoldable pub flush : SseReader → SseReader
unfolding is_empty
flush r = if is_empty r.name && length r.rows == 0 then r else record {
  events = r.events ++ (record { event = r.name; data_text = join (newline ∷ []) r.rows } ∷ []);
  name = [];
  rows = [];
}

-- A field of an event: a name that is no field of the source's is dropped.
unfoldable pub read_field : Text × Text → SseReader → SseReader
unfolding text_eq trim_prefix
read_field (field, value) r =
    let v = trim_prefix (codes " ") value in
    if text_eq field (codes "event")
    then record r { name = v }
    else if text_eq field (codes "data")
    then record r { rows = r.rows ++ (v ∷ []) }
    else r

-- A line that starts with a colon is a comment.
unfoldable pub read_text : Text → SseReader → SseReader
unfolding flush has_prefix cut_first read_field
read_text line r =
    if is_empty line
    then flush r
    else if has_prefix (codes ":") line
    then r
    else elim (cut_first b':' line) [ none ↦ r | some parts ↦ read_field parts r ]

-- The body of the loop: `ScanLines` drops one carriage return, `TrimSuffix` another one.
unfoldable pub read_line : Text → SseReader → SseReader
unfolding drop_cr read_text
read_line raw r = read_text (drop_cr (drop_cr raw)) r

unfoldable pub read_lines : List Text → SseReader → SseReader
unfolding read_line
read_lines [] r = r
read_lines (l ∷ ls) r = read_lines ls (read_line l r)

abbrev pub is_long : Text → Bool
is_long line = leb line_limit (byte_length line)

-- `parseSSEStream`; `none` is `bufio.ErrTooLong`.
unfoldable pub parse_sse_stream : Text → Option (List SseEvent)
unfolding raw_lines read_lines flush
parse_sse_stream body =
    let ls = raw_lines body in
    if any is_long ls
    then none
    else some (flush (read_lines ls (record { events = []; name = []; rows = [] }))).events

-- The `data:` lines.
unfoldable pub data_lines : List Text → Text
data_lines [] = []
data_lines (row ∷ rows) = codes "data: " ++ (row ++ (newline ∷ data_lines rows))

unfoldable pub event_line : Text → Text
unfolding is_empty trim_space
event_line name =
    if is_empty (trim_space name) then [] else codes "event: " ++ (name ++ (newline ∷ []))

-- `marshalSSEStream`
unfoldable pub marshal_sse_stream : List SseEvent → Text
unfolding event_line data_lines split_on
marshal_sse_stream [] = []
marshal_sse_stream (e ∷ es) =
    event_line e.event
    ++ (data_lines (split_on newline e.data_text) ++ (newline ∷ marshal_sse_stream es))
