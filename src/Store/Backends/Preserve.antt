-- ===== src/Store/Backends/Preserve.antt =====
-- Every operation on the table of backends keeps it well formed.
use token_gate.Base.{
  ℕ, ◌+◌, ◌≤◌, ◌<◌, ◌≡◌, refl, ◌∙◌, inl, inr, false, ◌||◌, none, List, [], ◌∷◌, ◌++◌, arith,
  Bool-cases, All,
}
use token_gate.Domain.{status_normal, Backend}
use token_gate.Store.{Result, ok, err, Db}
use token_gate.Store.Backends.{
  update_backend_row, name_taken, insert_backend, created_row, create_backend, imported_row,
  imported_answer, import_rows, finish_import, import_backends, mark_backend_success,
}
use token_gate.Store.Backends.Invariant.{
  IsRow, Ascending, named, DistinctNames, IsTable, written-IsRow, IsRow-health, All-update,
  Ascending-update, DistinctNames-update,
}
use token_gate.Store.Columns.{written}
use token_gate.Text.{Text, text_eq}
use token_gate.Text.Laws.{text_eq_iff}
use token_gate.Time.{Time, before}

pub Ascending-weaken :
    (lo lo' next : ℕ) (rows : List Backend)
    → lo' ≤ lo
    → Ascending lo rows next
    → Ascending lo' rows next
Ascending-weaken lo lo' next [] le h = omega arith
Ascending-weaken lo lo' next (b ∷ rows) le h = (omega arith, h.1)

module _ (r : Backend) where
  Ascending-concat :
      (lo next : ℕ) (rows : List Backend)
      → r.id ≡ next
      → Ascending lo rows next
      → Ascending lo (rows ++ r ∷ []) (next + 1)
  Ascending-concat lo next [] e h = omega arith
  Ascending-concat lo next (b ∷ rows) e h = (h.0, Ascending-concat (b.id + 1) next rows e h.1)

  All-concat : (rows : List Backend) → All IsRow rows → IsRow r → All IsRow (rows ++ r ∷ [])
  All-concat [] h k = (k, tt)
  All-concat (b ∷ rows) h k = (h.0, All-concat rows h.1 k)

  named-concat :
      (name : Text) (rows : List Backend)
      → named name (rows ++ r ∷ []) ≡ (named name rows || text_eq r.name name)
  named-concat name [] = ground arith
  named-concat name (b ∷ rows) = ground (arith, named-concat name rows)

  DistinctNames-concat :
      (rows : List Backend)
      → DistinctNames rows
      → named r.name rows ≡ false
      → DistinctNames (rows ++ r ∷ [])
  DistinctNames-concat [] h k = (refl, tt)
  DistinctNames-concat (b ∷ rows) h k = (
    ground (
      arith,
      named-concat b.name rows,
      h.0,
      text_eq_iff r.name b.name,
      text_eq_iff b.name r.name,
    ),
    DistinctNames-concat rows h.1 (ground arith),
  )

-- Where no row has the excluded id, every row counts.
pub name_taken-named :
    (id lo next : ℕ) (name : Text) (rows : List Backend)
    → id < lo
    → Ascending lo rows next
    → name_taken id name rows ≡ named name rows
unfolding name_taken
name_taken-named id lo next name [] lt h = refl
name_taken-named id lo next name (b ∷ rows) lt h =
    ground (arith, name_taken-named id (b.id + 1) next name rows)

insert_backend-IsTable :
    (r : Backend) (db : Db)
    → IsRow (record r { id = db.next_backend_id })
    → named r.name db.backends ≡ false
    → IsTable db
    → IsTable (insert_backend r db)
unfolding insert_backend
insert_backend-IsTable r db row fresh t = record {
  rows_ok = All-concat _ db.backends t.rows_ok row;
  ids_ok = Ascending-concat _ 1 db.next_backend_id db.backends refl t.ids_ok;
  names_ok = DistinctNames-concat _ db.backends t.names_ok fresh;
}

-- A name that no row has, as the UNIQUE test finds it.
fresh_name :
    (name : Text) (db : Db)
    → IsTable db
    → name_taken 0 name db.backends ≡ false
    → named name db.backends ≡ false
fresh_name name db t h =
    rw (name_taken-named 0 1 db.next_backend_id name db.backends (omega arith) t.ids_ok) at h

pub create_backend-IsTable :
    (now : Time) (b : Backend) (db : Db) → IsTable db → IsTable (create_backend now b db).0
unfolding create_backend
create_backend-IsTable now b db t = elim (Bool-cases (name_taken 0 (written b).name db.backends)) [
  | inl taken ↦ rw taken t
  | inr free ↦ rw free (
      insert_backend-IsTable (created_row now b) db
        (written-IsRow b 0 none now now db.next_backend_id) (fresh_name (written b).name db t free)
        t)
]

import_rows-IsTable :
    (now : Time) (created bs : List Backend) (db : Db)
    → IsTable db
    → IsTable (import_rows now created bs db).0
unfolding import_rows
import_rows-IsTable now created [] db t = t
import_rows-IsTable now created (b ∷ bs) db t =
    elim (Bool-cases (name_taken 0 (written b).name db.backends)) [
      | inl taken ↦ rw taken t
      | inr free ↦ rw free (
          import_rows-IsTable now (created ++ imported_answer now db.next_backend_id b ∷ []) bs
            (insert_backend (imported_row now b) db)
            (insert_backend-IsTable (imported_row now b) db
              (written-IsRow b b.consecutive_failures none now now db.next_backend_id)
              (fresh_name (written b).name db t free) t))
    ]

finish_import-IsTable :
    (before : Db) (r : Db × Result (List Backend))
    → IsTable before
    → IsTable r.0
    → IsTable (finish_import before r).0
unfolding finish_import
finish_import-IsTable before (after, ok bs) t u = u
finish_import-IsTable before (after, err e) t u = t

pub import_backends-IsTable :
    (now : Time) (bs : List Backend) (db : Db) → IsTable db → IsTable (import_backends now bs db).0
unfolding import_backends
import_backends-IsTable now bs db t =
    finish_import-IsTable db (import_rows now [] bs db) t (import_rows-IsTable now [] bs db t)

-- A change of rows that keeps ids and names.
module _ (id : ℕ) (f : Backend → Backend) where
  pub update_row-IsTable :
      (db : Db)
      → ((b : Backend) → (f b).id ≡ b.id)
      → ((b : Backend) → (f b).name ≡ b.name)
      → ((b : Backend) → IsRow b → IsRow (f b))
      → IsTable db
      → IsTable (record db { backends = update_backend_row id f db.backends })
  update_row-IsTable db ids names rows t = record {
    rows_ok = All-update id f db.backends rows t.rows_ok;
    ids_ok = Ascending-update id f 1 db.next_backend_id db.backends (λ b e. ids b ∙ e) t.ids_ok;
    names_ok = DistinctNames-update id f names db.backends t.names_ok;
  }

pub mark_backend_success-IsTable :
    (now : Time) (id : ℕ) (db : Db) → IsTable db → IsTable (mark_backend_success now id db).0
unfolding mark_backend_success
mark_backend_success-IsTable now id db t =
    update_row-IsTable id _ db (λ b. refl) (λ b. refl)
      (λ b r. IsRow-health b status_normal 0 none now (inl refl) r) t
