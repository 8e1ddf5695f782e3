-- ===== src/Sse/RoundTrip.antt =====
-- What `marshalSSEStream` writes, `parseSSEStream` reads back.
use token_gate.Base.{
  ◌≡◌, refl, sym, ap, ◌∙◌, ◌⊎◌, inl, inr, Bool, false, some, List, [], ◌∷◌, ◌++◌, map, append-nil,
  append_assoc, arith, if◌then◌else◌, Bool-cases, any, All,
}
use token_gate.NetAddress.{split_on}
use token_gate.Sse.{
  SseEvent, newline, raw_lines, SseReader, flush, read_line, read_lines, is_long, parse_sse_stream,
  data_lines, event_line, marshal_sse_stream,
}
use token_gate.Sse.Lines.{
  Lacks, Lacks-append, raw_lines-append, split_on-cons, join-split_on, split_on-Lacks,
  split_on-keeps_Lacks, read_line-event, data_line, read_lines-data,
}
use token_gate.Text.{Text, codes, is_empty, trim_space, join, byte_length}

-- An event that the writer can write: no line ends in its name, which is empty or not blank, no
-- carriage return in its data, and no line that is too long.
pub record IsPlain (e : SseEvent) : Type 0 where
  pub name_whole : Lacks newline e.event
  pub name_plain : Lacks 13 e.event
  pub name_shows : (e.event ≡ []) ⊎ (is_empty (trim_space e.event) ≡ false)
  pub name_short : is_long (codes "event: " ++ e.event) ≡ false
  pub data_plain : Lacks 13 e.data_text
  pub data_short :
      All (λ row. is_long (codes "data: " ++ row) ≡ false) (split_on newline e.data_text)

-- The lines of what is written.
event_lines : Text → List Text
unfolding is_empty trim_space
event_lines name = if is_empty (trim_space name) then [] else (codes "event: " ++ name) ∷ []

all_lines : List SseEvent → List Text
all_lines [] = []
all_lines (e ∷ es) =
    event_lines e.event ++ (map data_line (split_on newline e.data_text) ++ ([] ∷ all_lines es))

raw_lines-data_lines :
    (rows : List Text) (rest : Text)
    → All (Lacks newline) rows
    → raw_lines (data_lines rows ++ rest) ≡ map data_line rows ++ raw_lines rest
unfolding data_lines
raw_lines-data_lines [] rest h = refl
raw_lines-data_lines (row ∷ rows) rest (h, hs) =
    rw (append_assoc row (newline ∷ data_lines rows) rest) (
      raw_lines-append (codes "data: " ++ row) (data_lines rows ++ rest)
        (Lacks-append newline (codes "data: ") row (ground arith) h)
      ∙ ap (λ ls. data_line row ∷ ls) (raw_lines-data_lines rows rest hs))

raw_lines-event_line :
    (name rest : Text)
    → Lacks newline name
    → raw_lines (event_line name ++ rest) ≡ event_lines name ++ raw_lines rest
unfolding event_line event_lines
raw_lines-event_line name rest h = elim (Bool-cases (is_empty (trim_space name))) [
  | inl e ↦ rw e refl
  | inr e ↦
      rw (e, append_assoc name (newline ∷ []) rest)
        (raw_lines-append (codes "event: " ++ name) rest
          (Lacks-append newline (codes "event: ") name (ground arith) h))
]

raw_lines-marshal_sse_stream :
    (es : List SseEvent) → All IsPlain es → raw_lines (marshal_sse_stream es) ≡ all_lines es
unfolding marshal_sse_stream all_lines
raw_lines-marshal_sse_stream [] h = unfold raw_lines in refl
raw_lines-marshal_sse_stream (e ∷ es) (h, hs) =
    raw_lines-event_line e.event _ h.name_whole
    ∙ ap (λ ls. event_lines e.event ++ ls)
        (raw_lines-data_lines (split_on newline e.data_text) (newline ∷ marshal_sse_stream es)
            (split_on-Lacks newline e.data_text)
          ∙ ap (λ ls. map data_line (split_on newline e.data_text) ++ ls)
              (raw_lines-append [] (marshal_sse_stream es) tt
                ∙ ap (λ ls. [] ∷ ls) (raw_lines-marshal_sse_stream es hs)))

-- Reading the lines of one event, from a reader between two events.
abbrev between : List SseEvent → SseReader
between es = record { events = es; name = []; rows = [] }

read_lines-event_lines :
    (e : SseEvent) (done : List SseEvent) (rest : List Text)
    → IsPlain e
    → read_lines (event_lines e.event ++ rest) (between done)
      ≡ read_lines rest (record (between done) { name = e.event })
unfolding event_lines read_lines
read_lines-event_lines e done rest h = elim (h.name_shows) [
  | inl n ↦ rw n refl
  | inr n ↦ rw n (ap (read_lines rest) (read_line-event e.event (between done) h.name_plain))
]

flush_rows :
    (done : List SseEvent) (name p : Text) (ps : List Text)
    → flush (record { events = done; name = name; rows = p ∷ ps })
      ≡ between (done ++ (record { event = name; data_text = join (newline ∷ []) (p ∷ ps) } ∷ []))
unfolding flush
flush_rows done [] p ps = ground arith
flush_rows done (c ∷ name) p ps = refl

flush_split :
    (done : List SseEvent) (e : SseEvent)
    → flush (record { events = done; name = e.event; rows = split_on newline e.data_text })
      ≡ between (done ++ (e ∷ []))
flush_split done e =
    let (p, ps, q) = split_on-cons newline e.data_text in
    ap (λ rs. flush (record { events = done; name = e.event; rows = rs })) q
    ∙ flush_rows done e.event p ps
    ∙ ap (λ t. between (done ++ (record { event = e.event; data_text = t } ∷ [])))
        (ap (join (newline ∷ [])) (sym q) ∙ join-split_on newline e.data_text)

read_line_empty : (r : SseReader) → read_line [] r ≡ flush r
unfolding read_line
read_line_empty r = refl

read_lines-all_lines :
    (es done : List SseEvent)
    → All IsPlain es
    → read_lines (all_lines es) (between done) ≡ between (done ++ es)
unfolding all_lines read_lines
read_lines-all_lines [] done h = ap between (sym (append-nil done))
read_lines-all_lines (e ∷ es) done (h, hs) =
    let rows = split_on newline e.data_text in
    read_lines-event_lines e done _ h
    ∙ read_lines-data rows ([] ∷ all_lines es) (record (between done) { name = e.event })
        (split_on-keeps_Lacks 13 newline e.data_text h.data_plain)
    ∙ ap (read_lines (all_lines es)) (
        read_line_empty (record { events = done; name = e.event; rows = rows })
        ∙ flush_split done e)
    ∙ read_lines-all_lines es (done ++ (e ∷ [])) hs
    ∙ ap between (append_assoc done (e ∷ []) es)

any-append :
    {A : Type 0} (p : A → Bool) (xs ys : List A)
    → any p xs ≡ false
    → any p ys ≡ false
    → any p (xs ++ ys) ≡ false
any-append p [] ys h k = k
any-append p (x ∷ xs) ys h k = ground (arith, any-append p xs ys)

any_long-data :
    (rows : List Text)
    → All (λ row. is_long (data_line row) ≡ false) rows
    → any is_long (map data_line rows) ≡ false
any_long-data [] h = refl
any_long-data (row ∷ rows) (h, hs) = rw h (any_long-data rows hs)

any_long-event_lines : (e : SseEvent) → IsPlain e → any is_long (event_lines e.event) ≡ false
unfolding event_lines
any_long-event_lines e h = elim (Bool-cases (is_empty (trim_space e.event))) [
  | inl t ↦ rw t refl
  | inr t ↦ rw (t, h.name_short) refl
]

any_long-all_lines : (es : List SseEvent) → All IsPlain es → any is_long (all_lines es) ≡ false
unfolding all_lines byte_length
any_long-all_lines [] h = refl
any_long-all_lines (e ∷ es) (h, hs) =
    any-append is_long (event_lines e.event) _ (any_long-event_lines e h) (
      any-append is_long (map data_line (split_on newline e.data_text)) ([] ∷ all_lines es)
        (any_long-data _ h.data_short) (any_long-all_lines es hs))

-- The events of a stream are read back as they were written, if each of them is plain.
pub parse_sse_stream-marshal_sse_stream :
    (es : List SseEvent) → All IsPlain es → parse_sse_stream (marshal_sse_stream es) ≡ some es
unfolding parse_sse_stream
parse_sse_stream-marshal_sse_stream es h =
    rw (raw_lines-marshal_sse_stream es h, any_long-all_lines es h)
      (ap (λ (r : SseReader). some (flush r).events) (read_lines-all_lines es [] h))
