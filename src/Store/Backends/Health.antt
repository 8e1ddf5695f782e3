-- ===== src/Store/Backends/Health.antt =====
-- The health of a backend: failures trip it, a success resets it, and time recovers it.
use mathlib.Core.Option
use token_gate.Base.{
  ℕ, ◌+◌, ◌≡◌, refl, sym, ap, ◌∙◌, inl, inr, Bool, true, false, not, ◌&&◌, some, List, [], ◌∷◌,
  arith, ◌==◌, if◌then◌else◌, Bool-cases, All, ℤ, pos, ltb_ℤ, leb_ℤ,
}
use token_gate.Domain.{status_abnormal, status_disabled, SocksProxy, Backend}
use token_gate.Domain.Normal.{IsStatus, normalize_status_of_IsStatus}
use token_gate.Store.{Db}
use token_gate.Store.Backends.{
  find_backend, update_backend_row, scan_backend, get_backend, failure_state, mark_backend_failure,
}
use token_gate.Store.Backends.Invariant.{IsRow, IsTable}
use token_gate.Text.{text_eq, is_empty}
use token_gate.Time.{Time, add}

find_hit :
    (id : ℕ) (b : Backend) (rows : List Backend)
    → (b.id == id) ≡ true
    → find_backend id (b ∷ rows) ≡ some b
unfolding find_backend
find_hit id b rows h = rw h

find_miss :
    (id : ℕ) (b : Backend) (rows : List Backend)
    → (b.id == id) ≡ false
    → find_backend id (b ∷ rows) ≡ find_backend id rows
unfolding find_backend
find_miss id b rows h = rw h

find_cons :
    (id : ℕ) (b : Backend) (rows rest : List Backend)
    → find_backend id rows ≡ find_backend id rest
    → find_backend id (b ∷ rows) ≡ find_backend id (b ∷ rest)
unfolding find_backend
find_cons id b rows rest h = rw h

pub find-update_self :
    (id : ℕ) (f : Backend → Backend) (rows : List Backend) {b : Backend}
    → ((b : Backend) → (f b).id ≡ b.id)
    → find_backend id rows ≡ some b
    → find_backend id (update_backend_row id f rows) ≡ some (f b)
unfolding update_backend_row
find-update_self id f [] ids h = absurd (unfold find_backend in cc)
find-update_self id f (r ∷ rows) ids h = elim (Bool-cases (r.id == id)) [
  | inl this ↦ rw this (
      find_hit id (f r) _ (rw (ids r) this) ∙ ap (Option.map f) (sym (find_hit id r rows this) ∙ h))
  | inr other ↦ rw other (
      find_miss id r _ other ∙ find-update_self id f rows ids (sym (find_miss id r rows other) ∙ h))
]

pub find-update_other :
    (id j : ℕ) (f : Backend → Backend) (rows : List Backend)
    → ((b : Backend) → (f b).id ≡ b.id)
    → (id == j) ≡ false
    → find_backend j (update_backend_row id f rows) ≡ find_backend j rows
unfolding update_backend_row
find-update_other id j f [] ids h = refl
find-update_other id j f (r ∷ rows) ids h = elim (Bool-cases (r.id == id)) [
  | inl this ↦
      let apart : (r.id == j) ≡ false = ground arith in
      rw this (
        find_miss j (f r) _ (rw (ids r) apart)
        ∙ find-update_other id j f rows ids h
        ∙ sym (find_miss j r rows apart))
  | inr other ↦ rw other (find_cons j r _ rows (find-update_other id j f rows ids h))
]

-- The threshold as `MarkBackendFailure` uses it, and whether a row trips at its next failure.
abbrev pub limit_of : ℤ → ℤ
limit_of threshold = if ltb_ℤ threshold (pos 1) then pos 1 else threshold

abbrev pub trips : ℤ → Backend → Bool
trips threshold b =
    not (text_eq b.status status_disabled)
    && leb_ℤ (limit_of threshold) (pos (b.consecutive_failures + 1))

-- The row after one more failure.
abbrev pub failed_row : ℤ → ℕ → Time → Backend → Backend
failed_row threshold cooldown now b = record b {
  status = if trips threshold b then status_abnormal else b.status;
  consecutive_failures = b.consecutive_failures + 1;
  recover_at = if trips threshold b then some (add now cooldown) else b.recover_at;
  updated_at = now;
}

failure_state-scan :
    (threshold : ℤ) (cooldown : ℕ) (now : Time) (proxies : List SocksProxy) (b : Backend)
    → IsStatus b.status
    → failure_state threshold cooldown now (scan_backend proxies b) ≡ (
      if trips threshold b then status_abnormal else b.status,
      if trips threshold b then some (add now cooldown) else b.recover_at,
    )
unfolding failure_state scan_backend is_empty text_eq
failure_state-scan threshold cooldown now proxies b s =
    rw (normalize_status_of_IsStatus b.status s) (ground arith)

pub find-IsRow :
    (id : ℕ) (rows : List Backend) {b : Backend}
    → All IsRow rows
    → find_backend id rows ≡ some b
    → IsRow b
unfolding find_backend
find-IsRow id [] k h = cc
find-IsRow id (r ∷ rows) {b} k h = elim (Bool-cases (r.id == id)) [
  | inl this ↦ let same : r ≡ b = cc (sym (find_hit id r rows this) ∙ h) in rw same at k.0
  | inr other ↦ find-IsRow id rows k.1 (sym (find_miss id r rows other) ∙ h)
]

-- One failed request changes the row of its backend to `failed_row`, and no other row.
pub mark_backend_failure_lem :
    (id : ℕ) (threshold : ℤ) (cooldown : ℕ) (now : Time) (db : Db) {b : Backend}
    → IsTable db
    → find_backend id db.backends ≡ some b
    → (find_backend id (mark_backend_failure id threshold cooldown now db).0.backends
        ≡ some (failed_row threshold cooldown now b))
      × ((j : ℕ)
          → (id == j) ≡ false
          → find_backend j (mark_backend_failure id threshold cooldown now db).0.backends
            ≡ find_backend j db.backends)
unfolding mark_backend_failure get_backend
mark_backend_failure_lem id threshold cooldown now db {b} t found =
    let row = find-IsRow id db.backends t.rows_ok found in
    rw (found, get_backend, mark_backend_failure)
      (rw (failure_state-scan threshold cooldown now db.proxies b row.status_ok) (
        find-update_self id _ db.backends (λ r. refl) found,
        λ j apart. find-update_other id j _ db.backends (λ r. refl) apart,
      ))
