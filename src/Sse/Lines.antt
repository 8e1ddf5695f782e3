-- ===== src/Sse/Lines.antt =====
-- The lines that a marshalled stream is read as: joins, cuts, and one line at a time.
-- A text without this character.
use token_gate.Base.{
  ℕ, ◌≡◌, refl, sym, ap, ◌∙◌, subst, inl, inr, false, List, [], ◌∷◌, ◌++◌, map, append-nil,
  append_assoc, arith, ◌==◌, ==_iff, Bool-cases, All,
}
use token_gate.NetAddress.{split_on}
use token_gate.Sse.{newline, raw_lines, drop_cr, SseReader, read_text, read_line, read_lines}
use token_gate.Text.{Text, codes, join}

abbrev pub Lacks : ℕ → Text → Type 0
Lacks c s = All (λ d. (d == c) ≡ false) s

pub Lacks-append : (c : ℕ) (s t : Text) → Lacks c s → Lacks c t → Lacks c (s ++ t)
Lacks-append c [] t h k = k
Lacks-append c (d ∷ s) t (e, h) k = (e, Lacks-append c s t h k)

pub raw_lines-append :
    (l rest : Text) → Lacks newline l → raw_lines (l ++ (newline ∷ rest)) ≡ l ∷ raw_lines rest
unfolding raw_lines
raw_lines-append [] rest h = refl
raw_lines-append (c ∷ l) rest (e, h) = rw (e, raw_lines-append l rest h) refl

drop_cr-Lacks : (l : Text) → Lacks 13 l → drop_cr l ≡ l
unfolding drop_cr
drop_cr-Lacks [] h = refl
drop_cr-Lacks (c ∷ []) (e, h) = rw e refl
drop_cr-Lacks (c ∷ d ∷ s) (e, h) = ap (λ t. c ∷ t) (drop_cr-Lacks (d ∷ s) h)

drop_cr_twice : (l : Text) → Lacks 13 l → drop_cr (drop_cr l) ≡ l
drop_cr_twice l h = rw (drop_cr-Lacks l h, drop_cr-Lacks l h) refl

pub split_on-cons : (c : ℕ) (s : Text) → (p : Text) × (ps : List Text) × (split_on c s ≡ p ∷ ps)
unfolding split_on
split_on-cons c [] = ([], [], refl)
split_on-cons c (d ∷ s) =
    let (p, ps, e) = split_on-cons c s in
    elim (Bool-cases (d == c)) [
      | inl t ↦ ([], p ∷ ps, rw (e, t) refl)
      | inr t ↦ (d ∷ p, ps, rw (e, t) refl)
    ]

join-first :
    (c d : ℕ) (p : Text) (ps : List Text)
    → join (c ∷ []) ((d ∷ p) ∷ ps) ≡ d ∷ join (c ∷ []) (p ∷ ps)
unfolding join
join-first c d p [] = refl
join-first c d p (q ∷ ps) = refl

join_empty :
    (c : ℕ) (p : Text) (ps : List Text) → join (c ∷ []) ([] ∷ p ∷ ps) ≡ c ∷ join (c ∷ []) (p ∷ ps)
unfolding join
join_empty c p ps = refl

pub join-split_on : (c : ℕ) (s : Text) → join (c ∷ []) (split_on c s) ≡ s
unfolding split_on
join-split_on c [] = unfold join in refl
join-split_on c (d ∷ s) =
    let (p, ps, e) = split_on-cons c s in
    let ih : join (c ∷ []) (p ∷ ps) ≡ s = ap (join (c ∷ [])) (sym e) ∙ join-split_on c s in
    elim (Bool-cases (d == c)) [
      | inl t ↦
          rw (e, t)
            (join_empty c p ps ∙ ap (λ x. c ∷ x) ih ∙ ap (λ x. x ∷ s) (sym ((==_iff d c).0 t)))
      | inr t ↦ rw (e, t) (join-first c d p ps ∙ ap (λ x. d ∷ x) ih)
    ]

-- Every part lacks the character it was split on, and each one that the whole lacks.
pub split_on-Lacks : (c : ℕ) (s : Text) → All (Lacks c) (split_on c s)
unfolding split_on
split_on-Lacks c [] = (tt, tt)
split_on-Lacks c (d ∷ s) =
    let (p, ps, e) = split_on-cons c s in
    let (h, hs) : All (Lacks c) (p ∷ ps) = subst (All (Lacks c)) e (split_on-Lacks c s) in
    elim (Bool-cases (d == c)) [ inl t ↦ rw (e, t) (tt, (h, hs)) | inr t ↦ rw (e, t) ((t, h), hs) ]

pub split_on-keeps_Lacks : (a c : ℕ) (s : Text) → Lacks a s → All (Lacks a) (split_on c s)
unfolding split_on
split_on-keeps_Lacks a c [] l = (tt, tt)
split_on-keeps_Lacks a c (d ∷ s) (k, l) =
    let (p, ps, e) = split_on-cons c s in
    let (h, hs) : All (Lacks a) (p ∷ ps) = subst (All (Lacks a)) e (split_on-keeps_Lacks a c s l) in
    elim (Bool-cases (d == c)) [ inl t ↦ rw (e, t) (tt, (h, hs)) | inr t ↦ rw (e, t) ((k, h), hs) ]

read_text-event :
    (name : Text) (r : SseReader) → read_text (codes "event: " ++ name) r ≡ record r { name = name }
unfolding read_text
read_text-event name r = refl

read_text-data :
    (row : Text) (r : SseReader)
    → read_text (codes "data: " ++ row) r ≡ record r { rows = r.rows ++ (row ∷ []) }
unfolding read_text
read_text-data row r = refl

-- A line without a carriage return is read as it is.
read_line-Lacks : (l : Text) (r : SseReader) → Lacks 13 l → read_line l r ≡ read_text l r
unfolding read_line
read_line-Lacks l r h = ap (λ t. read_text t r) (drop_cr_twice l h)

pub read_line-event :
    (name : Text) (r : SseReader)
    → Lacks 13 name
    → read_line (codes "event: " ++ name) r ≡ record r { name = name }
read_line-event name r h =
    read_line-Lacks _ r (Lacks-append 13 (codes "event: ") name (ground arith) h)
    ∙ read_text-event name r

abbrev pub data_line : Text → Text
data_line row = codes "data: " ++ row

read_line-data :
    (row : Text) (r : SseReader)
    → Lacks 13 row
    → read_line (data_line row) r ≡ record r { rows = r.rows ++ (row ∷ []) }
read_line-data row r h =
    read_line-Lacks _ r (Lacks-append 13 (codes "data: ") row (ground arith) h)
    ∙ read_text-data row r

pub read_lines-data :
    (rows rest : List Text) (r : SseReader)
    → All (Lacks 13) rows
    → read_lines (map data_line rows ++ rest) r
      ≡ read_lines rest (record r { rows = r.rows ++ rows })
unfolding read_lines
read_lines-data [] rest r h =
    ap (λ rs. read_lines rest (record r { rows = rs })) (sym (append-nil r.rows))
read_lines-data (row ∷ rows) rest r (h, hs) =
    ap (read_lines (map data_line rows ++ rest)) (read_line-data row r h)
    ∙ read_lines-data rows rest (record r { rows = r.rows ++ (row ∷ []) }) hs
    ∙ ap (λ rs. read_lines rest (record r { rows = rs })) (append_assoc r.rows (row ∷ []) rows)
