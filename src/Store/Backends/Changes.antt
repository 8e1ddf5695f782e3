-- ===== src/Store/Backends/Changes.antt =====
-- The operations that change or remove rows keep the table well formed, and so does every history.
use token_gate.Base.{
  ℕ, ◌+◌, ◌≡◌, refl, ◌∙◌, ◌⊎◌, inl, inr, false, ◌&&◌, none, List, [], ◌∷◌, map, arith, ◌==◌,
  Bool-cases, Option-cases, All, ℤ,
}
use token_gate.Domain.{status_normal, status_abnormal, Backend}
use token_gate.Domain.Normal.{IsStatus, normalize_backend_status-IsStatus}
use token_gate.Store.{StoreError, Result, ok, err, Db}
use token_gate.Store.Backends.{
  find_backend, get_backend, failure_state, mark_backend_failure, is_due, recover_row,
  recover_expired_backends, without_backend, delete_backend,
}
use token_gate.Store.Backends.Invariant.{
  IsRow, Ascending, named, DistinctNames, IsTable, IsRow-health,
}
use token_gate.Store.Backends.Preserve.{Ascending-weaken, update_row-IsTable}
use token_gate.Text.{Text, text_eq}
use token_gate.Time.{Time}

failure_state-IsStatus :
    (threshold : ℤ) (cooldown : ℕ) (now : Time) (b : Backend)
    → IsStatus b.status
    → IsStatus (failure_state threshold cooldown now b).0
unfolding failure_state
failure_state-IsStatus threshold cooldown now b h = ground arith

pub get_backend-IsStatus :
    (id : ℕ) (db : Db) {b : Backend} → get_backend id db ≡ ok b → IsStatus b.status
unfolding get_backend
get_backend-IsStatus id db {b} h = elim (Option-cases (find_backend id db.backends)) [
  | inl missing ↦ cc
  | inr (row, found) ↦ ground (arith, normalize_backend_status-IsStatus row.status)
]

pub Result-cases {ℓ} :
    {A : Type ℓ} (r : Result A) → ((e : StoreError) × (r ≡ err e)) ⊎ ((a : A) × (r ≡ ok a))
Result-cases (ok a) = inr (a, refl)
Result-cases (err e) = inl (e, refl)

pub mark_backend_failure-IsTable :
    (id : ℕ) (threshold : ℤ) (cooldown : ℕ) (now : Time) (db : Db)
    → IsTable db
    → IsTable (mark_backend_failure id threshold cooldown now db).0
unfolding mark_backend_failure
mark_backend_failure-IsTable id threshold cooldown now db t =
    elim (Result-cases (get_backend id db)) [
      | inl (e, failed) ↦ rw (failed, mark_backend_failure) t
      | inr (b, found) ↦
          rw (found, mark_backend_failure)
            (update_row-IsTable id _ db (λ b. refl) (λ b. refl)
              (λ r k.
                IsRow-health r _ _ _ now
                  (failure_state-IsStatus threshold cooldown now b
                    (get_backend-IsStatus id db found))
                  k)
              t)
    ]

recover_row-IsRow : (now : Time) (b : Backend) → IsRow b → IsRow (recover_row now b)
unfolding recover_row
recover_row-IsRow now b h =
    elim (Bool-cases (text_eq b.status status_abnormal && is_due now b.recover_at)) [
      | inl due ↦ rw due (IsRow-health b status_normal 0 none now (inl refl) h)
      | inr not_due ↦ rw not_due h
    ]

pub recover_row-id : (now : Time) (b : Backend) → (recover_row now b).id ≡ b.id
unfolding recover_row
recover_row-id now b = ground arith

pub recover_row-name : (now : Time) (b : Backend) → (recover_row now b).name ≡ b.name
unfolding recover_row
recover_row-name now b = ground arith

module _ (now : Time) where
  All-recover : (rows : List Backend) → All IsRow rows → All IsRow (map (recover_row now) rows)
  All-recover [] h = tt
  All-recover (b ∷ rows) h = (recover_row-IsRow now b h.0, All-recover rows h.1)

  Ascending-recover :
      (lo next : ℕ) (rows : List Backend)
      → Ascending lo rows next
      → Ascending lo (map (recover_row now) rows) next
  Ascending-recover lo next [] h = h
  Ascending-recover lo next (b ∷ rows) h =
      rw (recover_row-id now b) (h.0, Ascending-recover (b.id + 1) next rows h.1)

  named-recover :
      (name : Text) (rows : List Backend)
      → named name (map (recover_row now) rows) ≡ named name rows
  named-recover name [] = refl
  named-recover name (b ∷ rows) = rw (recover_row-name now b, named-recover name rows)

  DistinctNames-recover :
      (rows : List Backend) → DistinctNames rows → DistinctNames (map (recover_row now) rows)
  DistinctNames-recover [] h = tt
  DistinctNames-recover (b ∷ rows) h = (
    rw (recover_row-name now b) (named-recover b.name rows ∙ h.0),
    DistinctNames-recover rows h.1,
  )

pub recover_expired_backends-IsTable :
    (now : Time) (db : Db) → IsTable db → IsTable (recover_expired_backends now db)
unfolding recover_expired_backends
recover_expired_backends-IsTable now db t = record {
  rows_ok = All-recover now db.backends t.rows_ok;
  ids_ok = Ascending-recover now 1 db.next_backend_id db.backends t.ids_ok;
  names_ok = DistinctNames-recover now db.backends t.names_ok;
}

module _ (id : ℕ) where
  All-without : (rows : List Backend) → All IsRow rows → All IsRow (without_backend id rows)
  unfolding without_backend
  All-without [] h = tt
  All-without (b ∷ rows) h = elim (Bool-cases (b.id == id)) [
    | inl this ↦ rw this (All-without rows h.1)
    | inr other ↦ rw other (h.0, All-without rows h.1)
  ]

  Ascending-without :
      (lo next : ℕ) (rows : List Backend)
      → Ascending lo rows next
      → Ascending lo (without_backend id rows) next
  unfolding without_backend
  Ascending-without lo next [] h = h
  Ascending-without lo next (b ∷ rows) h = elim (Bool-cases (b.id == id)) [
    | inl this ↦ rw this (
        Ascending-weaken (b.id + 1) lo next _ (omega (arith, h.0))
          (Ascending-without (b.id + 1) next rows h.1))
    | inr other ↦ rw other (h.0, Ascending-without (b.id + 1) next rows h.1)
  ]

  named-without :
      (name : Text) (rows : List Backend)
      → named name rows ≡ false
      → named name (without_backend id rows) ≡ false
  unfolding without_backend
  named-without name [] h = refl
  named-without name (b ∷ rows) h = ground (arith, named-without name rows)

  DistinctNames-without :
      (rows : List Backend) → DistinctNames rows → DistinctNames (without_backend id rows)
  unfolding without_backend
  DistinctNames-without [] h = tt
  DistinctNames-without (b ∷ rows) h = elim (Bool-cases (b.id == id)) [
    | inl this ↦ rw this (DistinctNames-without rows h.1)
    | inr other ↦ rw other (named-without b.name rows h.0, DistinctNames-without rows h.1)
  ]

pub delete_backend-IsTable : (id : ℕ) (db : Db) → IsTable db → IsTable (delete_backend id db)
unfolding delete_backend
delete_backend-IsTable id db t = record {
  rows_ok = All-without id db.backends t.rows_ok;
  ids_ok = Ascending-without id 1 db.next_backend_id db.backends t.ids_ok;
  names_ok = DistinctNames-without id db.backends t.names_ok;
}
