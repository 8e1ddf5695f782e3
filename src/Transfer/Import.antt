-- ===== src/Transfer/Import.antt =====
-- An import whose items pass the checks is not refused by the store.
use token_gate.Base.{
  ℕ, ◌+◌, ◌≡◌, refl, sym, ap, ◌∙◌, subst, inl, inr, Bool, true, false, not, ◌&&◌, ◌||◌, Option,
  none, some, List, [], ◌∷◌, ◌++◌, map, append-nil, append_assoc, map-append, arith, ◌==◌,
  Bool-cases, All,
}
use token_gate.Domain.{Backend, one_of}
use token_gate.Socks5.Grants.{after}
use token_gate.Store.{Result, ok, err, Db}
use token_gate.Store.Backends.{
  name_taken, insert_backend, imported_row, imported_answer, import_rows, finish_import,
  import_backends,
}
use token_gate.Store.UsageLogs.{created}
use token_gate.Text.{Text, text_eq, trim_space}
use token_gate.Text.Laws.{text_eq_iff, trim_space_idem}
use token_gate.Time.{Time}
use token_gate.Transfer.{
  TransferItem, ImportError, first_failure, Outside, name_key, checks_of, imported_backend, Checked,
  not_accepted, accepted, in_front, unless_failure, validate_items, validate_backend_import_payload,
  Imported, bad_request, store_refused, created_backends, stored, handle_import_backends,
}

-- The keys of the names in the table.
abbrev pub keys_of : Outside → List Backend → List Text
keys_of out bs = map (λ (b : Backend). name_key out b.name) bs

-- Backends with trimmed names, whose keys differ from each other and from these.
abbrev pub Fresh : Outside → List Text → List Backend → Type 0
Fresh out ks [] = Unit
Fresh out ks (b ∷ bs) =
    (trim_space b.name ≡ b.name)
    × (one_of (name_key out b.name) ks ≡ false)
    × Fresh out (ks ++ (name_key out b.name ∷ [])) bs

abbrev IsOk : {A : Type 0} → Result A → Type 0
IsOk (ok a) = Unit
IsOk (err e) = ⊥

or_false : (a b : Bool) → (a || b) ≡ false → (a ≡ false) × (b ≡ false)
or_false true b h = ground (arith, h)
or_false false b h = (refl, h)

no_row : (t r : Bool) → r ≡ false → (not t && false || r) ≡ false
no_row true r h = h
no_row false r h = h

-- A name that is taken has its key among the keys.
name_taken-one_of :
    (out : Outside) (name : Text) (rows : List Backend)
    → trim_space name ≡ name
    → one_of (name_key out name) (keys_of out rows) ≡ false
    → name_taken 0 name rows ≡ false
unfolding name_taken one_of
name_taken-one_of out name [] h k = refl
name_taken-one_of out name (b ∷ rows) h k =
    let (x, r) =
      or_false (text_eq (name_key out name) (name_key out b.name))
        (one_of (name_key out name) (keys_of out rows)) k in
    elim (Bool-cases (text_eq b.name name)) [
      | inl e ↦ absurd (
          ground (
            arith,
            x,
            (text_eq_iff (name_key out name) (name_key out b.name)).1
                (ap (name_key out) (sym ((text_eq_iff b.name name).0 e))),
          ))
      | inr e ↦ rw e (no_row (b.id == 0) _ (name_taken-one_of out name rows h r))
    ]

imported_row_name : (now : Time) (b : Backend) → (imported_row now b).name ≡ trim_space b.name
unfolding imported_row
imported_row_name now b = refl

keys_after :
    (out : Outside) (now : Time) (b : Backend) (db : Db)
    → trim_space b.name ≡ b.name
    → keys_of out (insert_backend (imported_row now b) db).backends
      ≡ keys_of out db.backends ++ (name_key out b.name ∷ [])
unfolding insert_backend
keys_after out now b db t =
    map-append (λ (x : Backend). name_key out x.name) db.backends
      (record (imported_row now b) { id = db.next_backend_id } ∷ [])
    ∙ ap (λ k. keys_of out db.backends ++ (name_key out k ∷ [])) (imported_row_name now b ∙ t)

import_rows-IsOk :
    (out : Outside) (now : Time) (done bs : List Backend) (db : Db)
    → Fresh out (keys_of out db.backends) bs
    → IsOk (import_rows now done bs db).1
unfolding import_rows
import_rows-IsOk out now done [] db h = tt
import_rows-IsOk out now done (b ∷ bs) db (t, o, h) =
    let n : name_taken 0 (imported_row now b).name db.backends ≡ false =
      ap (λ x. name_taken 0 x db.backends) (imported_row_name now b ∙ t)
      ∙ name_taken-one_of out b.name db.backends t o in
    let after = insert_backend (imported_row now b) db in
    rw n (
      import_rows-IsOk out now (done ++ (imported_answer now db.next_backend_id b ∷ [])) bs after
        (subst (λ ks. Fresh out ks bs) (sym (keys_after out now b db t)) h))

-- The checks that passed.
first_failure-none :
    (checks : List (Bool × ImportError))
    → first_failure checks ≡ none
    → All (λ (c : Bool × ImportError). c.0 ≡ false) checks
unfolding first_failure
first_failure-none [] h = tt
first_failure-none ((true, e) ∷ checks) h = ground (arith, h)
first_failure-none ((false, e) ∷ checks) h = (refl, first_failure-none checks h)

-- A property of the backends that were accepted.
abbrev WhenAccepted : (List Backend → Type 0) → Checked → Type 0
WhenAccepted P (not_accepted e) = Unit
WhenAccepted P (accepted bs) = P bs

in_front-WhenAccepted :
    (P Q : List Backend → Type 0) (b : Backend) (c : Checked)
    → ((bs : List Backend) → P bs → Q (b ∷ bs))
    → WhenAccepted P c
    → WhenAccepted Q (in_front b c)
in_front-WhenAccepted P Q b (not_accepted e) h k = tt
in_front-WhenAccepted P Q b (accepted bs) h k = h bs k

unless_failure-WhenAccepted :
    (P : List Backend → Type 0) (o : Option ImportError) (c : Checked)
    → (o ≡ none → WhenAccepted P c)
    → WhenAccepted P (unless_failure o c)
unless_failure-WhenAccepted P none c h = h refl
unless_failure-WhenAccepted P (some e) c h = tt

imported_backend_name :
    (out : Outside) (it : TransferItem)
    → ((imported_backend it).name ≡ trim_space it.name)
      × (name_key out (imported_backend it).name ≡ name_key out it.name)
unfolding imported_backend
imported_backend_name out it = (refl, unfold name_key in ap out.lower (trim_space_idem it.name))

one_of-append :
    (k : Text) (xs ys : List Text)
    → one_of k xs ≡ false
    → one_of k ys ≡ false
    → one_of k (xs ++ ys) ≡ false
unfolding one_of
one_of-append k [] ys h l = l
one_of-append k (x ∷ xs) ys h l =
    let (a, b) = or_false (text_eq k x) (one_of k xs) h in rw a (one_of-append k xs ys b l)

-- The names of an item that passed the checks are new.
checks_of_names :
    (out : Outside) (db : Db) (existing seen : List Text) (i : ℕ) (it : TransferItem)
    → first_failure (checks_of out db existing seen i it) ≡ none
    → one_of (name_key out it.name) (existing ++ seen) ≡ false
unfolding checks_of
checks_of_names out db existing seen i it h =
    let (a, (s, (e, more))) = first_failure-none (checks_of out db existing seen i it) h in
    one_of-append (name_key out it.name) existing seen e s

validate_items-Fresh :
    (out : Outside) (db : Db) (existing seen : List Text) (i : ℕ) (items : List TransferItem)
    → WhenAccepted (Fresh out (existing ++ seen)) (validate_items out db existing seen i items)
unfolding validate_items
validate_items-Fresh out db existing seen i [] = tt
validate_items-Fresh out db existing seen i (it ∷ items) =
    let b = imported_backend it in
    let k = name_key out it.name in
    let (n, q) = imported_backend_name out it in
    unless_failure-WhenAccepted (Fresh out (existing ++ seen))
      (first_failure (checks_of out db existing seen i it)) _
      (λ h.
        in_front-WhenAccepted (Fresh out (existing ++ (seen ++ (k ∷ []))))
          (Fresh out (existing ++ seen)) b _
          (λ bs f. (
            ap trim_space n ∙ trim_space_idem it.name ∙ sym n,
            ap (λ x. one_of x (existing ++ seen)) q ∙ checks_of_names out db existing seen i it h,
            subst (λ ks. Fresh out ks bs)
                (sym (append_assoc existing seen (k ∷ []))
                  ∙ ap (λ x. (existing ++ seen) ++ (x ∷ [])) (sym q))
                f,
          ))
          (validate_items-Fresh out db existing (seen ++ (k ∷ [])) (i + 1) items))

-- Whether an answer is no refusal of the store.
abbrev pub NotStoreRefused : Imported → Type 0
NotStoreRefused (bad_request e) = Unit
NotStoreRefused (store_refused e) = ⊥
NotStoreRefused (created_backends bs) = Unit

import_backends-NotStoreRefused :
    (out : Outside) (now : Time) (bs : List Backend) (db : Db)
    → Fresh out (keys_of out db.backends) bs
    → NotStoreRefused (stored (import_backends now bs db)).1
unfolding import_backends
import_backends-NotStoreRefused out now bs db h =
    committed (import_rows now [] bs db) (import_rows-IsOk out now [] bs db h)
  where
    committed :
        (r : Db × Result (List Backend))
        → IsOk r.1
        → NotStoreRefused (stored (finish_import db r)).1
    committed (after, ok created) k = tt
    committed (after, err e) k = absurd k

-- The names of an import are checked so far that the store's constraint never refuses one: the
-- answer is an error of the checks, or the backends that were created.
pub handle_import_backends-NotStoreRefused :
    (out : Outside) (now : Time) (items : List TransferItem) (db : Db)
    → NotStoreRefused (handle_import_backends out now items db).1
unfolding handle_import_backends validate_backend_import_payload
handle_import_backends-NotStoreRefused out now items db =
    answered (validate_items out db (keys_of out db.backends) [] 0 items)
      (validate_items-Fresh out db (keys_of out db.backends) [] 0 items)
  where
    answered :
        (c : Checked)
        → WhenAccepted (Fresh out (keys_of out db.backends ++ [])) c
        → NotStoreRefused
            (elim c as (λ x. Db × Imported) [
              | not_accepted e ↦ (db, bad_request e)
              | accepted bs ↦ stored (import_backends now bs db)
            ]).1
    answered (not_accepted e) h = tt
    answered (accepted bs) h =
        import_backends-NotStoreRefused out now bs db
          (subst (λ ks. Fresh out ks bs) (append-nil (keys_of out db.backends)) h)
