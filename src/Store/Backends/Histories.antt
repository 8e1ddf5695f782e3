-- ===== src/Store/Backends/Histories.antt =====
-- `UpdateBackend`, and all histories of the table of backends.
use token_gate.Base.{
  ℕ, ◌+◌, ◌<◌, ◌≡◌, refl, inl, inr, false, List, [], ◌∷◌, arith, ◌==◌, Bool-cases, Option-cases, ℤ,
}
use token_gate.Domain.{Backend}
use token_gate.Store.{Db}
use token_gate.Store.Backends.{
  find_backend, update_backend_row, name_taken, create_backend, import_backends, update_backend,
  mark_backend_success, mark_backend_failure, recover_expired_backends, delete_backend,
}
use token_gate.Store.Backends.Changes.{
  mark_backend_failure-IsTable, recover_expired_backends-IsTable, delete_backend-IsTable,
}
use token_gate.Store.Backends.Invariant.{
  Ascending, named, DistinctNames, IsTable, written-IsRow, All-update, Ascending-update,
}
use token_gate.Store.Backends.Preserve.{
  name_taken-named, create_backend-IsTable, import_backends-IsTable, mark_backend_success-IsTable,
}
use token_gate.Store.Columns.{written}
use token_gate.Text.{Text, text_eq}
use token_gate.Text.Laws.{text_eq_iff}
use token_gate.Time.{Time}

module _ (id : ℕ) (name : Text) (f : Backend → Backend)
    (renames : (b : Backend) → (f b).name ≡ name) where
  named-rename :
      (other : Text) (rows : List Backend)
      → named other rows ≡ false
      → text_eq name other ≡ false
      → named other (update_backend_row id f rows) ≡ false
  unfolding update_backend_row
  named-rename other [] h k = refl
  named-rename other (b ∷ rows) h k = elim (Bool-cases (b.id == id)) [
    | inl this ↦ rw this (rw (renames b, k) (named-rename other rows (ground arith) k))
    | inr keeps ↦ rw keeps (ground (arith, named-rename other rows))
  ]

  -- No row from `lo` on has a smaller id.
  update_above :
      (lo next : ℕ) (rows : List Backend)
      → id < lo
      → Ascending lo rows next
      → update_backend_row id f rows ≡ rows
  unfolding update_backend_row
  update_above lo next [] lt h = refl
  update_above lo next (b ∷ rows) lt h = ground (arith, update_above (b.id + 1) next rows)

  DistinctNames-rename :
      (lo next : ℕ) (rows : List Backend)
      → Ascending lo rows next
      → name_taken id name rows ≡ false
      → DistinctNames rows
      → DistinctNames (update_backend_row id f rows)
  unfolding update_backend_row name_taken
  DistinctNames-rename lo next [] a free h = tt
  DistinctNames-rename lo next (b ∷ rows) a free h = elim (Bool-cases (b.id == id)) [
    | inl this ↦
        let above : id < b.id + 1 = ground arith in
        rw this (
          rw (update_above (b.id + 1) next rows above a.1) (
            rw (renames b) (
                rw (← name_taken-named id (b.id + 1) next name rows above a.1)
                  (unfold name_taken in ground arith)),
            h.1,
          ))
    | inr other ↦ rw other (
      named-rename b.name rows h.0
          (ground (arith, text_eq_iff name b.name, text_eq_iff b.name name)),
      DistinctNames-rename (b.id + 1) next rows a.1 (ground arith) h.1,
    )
  ]

update_backend-IsTable :
    (now : Time) (b : Backend) (db : Db) → IsTable db → IsTable (update_backend now b db).0
unfolding update_backend
update_backend-IsTable now b db t = elim (Option-cases (find_backend b.id db.backends)) [
  | inl missing ↦ rw (missing, update_backend) t
  | inr (old, found) ↦ elim (Bool-cases (name_taken b.id (written b).name db.backends)) [
    | inl taken ↦ rw (found, taken, update_backend) t
    | inr free ↦
        rw (found, free, update_backend)
          (record {
            rows_ok =
                All-update b.id _ db.backends
                  (λ r k. written-IsRow b b.consecutive_failures b.recover_at r.created_at now b.id)
                  t.rows_ok;
            ids_ok =
                Ascending-update b.id _ 1 db.next_backend_id db.backends
                  (λ r e. unfold written in refl) t.ids_ok;
            names_ok =
                DistinctNames-rename b.id (written b).name _ (λ r. refl) 1 db.next_backend_id
                  db.backends t.ids_ok free t.names_ok;
          })
  ]
]

-- A call of the store on backends, with the time that it reads and the values that it is given.
pub data Call : Type 0 where
  create : Time → Backend → Call
  imports : Time → List Backend → Call
  update : Time → Backend → Call
  succeeded : Time → ℕ → Call
  failed : ℕ → ℤ → ℕ → Time → Call
  recover : Time → Call
  delete : ℕ → Call

abbrev pub step : Call → Db → Db
step (create now b) db = (create_backend now b db).0
step (imports now bs) db = (import_backends now bs db).0
step (update now b) db = (update_backend now b db).0
step (succeeded now id) db = (mark_backend_success now id db).0
step (failed id threshold cooldown now) db = (mark_backend_failure id threshold cooldown now db).0
step (recover now) db = recover_expired_backends now db
step (delete id) db = delete_backend id db

abbrev pub history : List Call → Db → Db
history [] db = db
history (c ∷ cs) db = history cs (step c db)

step-IsTable : (c : Call) (db : Db) → IsTable db → IsTable (step c db)
step-IsTable (create now b) db t = create_backend-IsTable now b db t
step-IsTable (imports now bs) db t = import_backends-IsTable now bs db t
step-IsTable (update now b) db t = update_backend-IsTable now b db t
step-IsTable (succeeded now id) db t = mark_backend_success-IsTable now id db t
step-IsTable (failed id threshold cooldown now) db t =
    mark_backend_failure-IsTable id threshold cooldown now db t
step-IsTable (recover now) db t = recover_expired_backends-IsTable now db t
step-IsTable (delete id) db t = delete_backend-IsTable id db t

-- Whatever calls the table of backends has seen, with whatever arguments, from a well-formed
-- database on: ids go up and stay below the next id, names are distinct, every status is one of
-- the three, every weight is at least 1, and every row reads back as it was written.
pub history-IsTable : (cs : List Call) (db : Db) → IsTable db → IsTable (history cs db)
history-IsTable [] db t = t
history-IsTable (c ∷ cs) db t = history-IsTable cs (step c db) (step-IsTable c db t)
