-- ===== src/Store/Backends/Invariant.antt =====
-- The well-formedness of the table of backends, and that every operation keeps it.
use token_gate.Base.{
  ℕ, ◌+◌, ◌≤◌, ◌≡◌, refl, sym, ap, ◌∙◌, inl, inr, Bool, true, false, Option, none, List, [], ◌∷◌,
  ◌==◌, ==_iff, Bool-cases, any, All, pos, leb_ℤ,
}
use token_gate.Domain.{SocksProxy, Backend}
use token_gate.Domain.Normal.{
  IsStatus, normalize_backend_protocol-IsProtocol, normalize_backend_status-IsStatus,
  normalize_protocol_of_IsProtocol, normalize_status_of_IsStatus, normalize_backend_type_idem,
}
use token_gate.Store.{Db}
use token_gate.Store.Backends.{find_proxy, update_backend_row, scan_backend}
use token_gate.Store.Columns.{written}
use token_gate.Store.Columns.Laws.{
  normalize_weight_pos, normalize_json_object_idem, normalize_list_idem, normalize_map_idem,
}
use token_gate.Text.{Text, text_eq}
use token_gate.Text.Laws.{trim_space_idem}
use token_gate.Time.{Time}

abbrev joined : List SocksProxy → Backend → Backend
joined proxies b = record b { proxy = find_proxy b.proxy_id proxies }

ruleset read_back = (
  trim_space_idem, normalize_list_idem, normalize_map_idem, normalize_json_object_idem,
  normalize_backend_type_idem,
)

-- What holds of each row.
pub record IsRow (b : Backend) : Type 0 where
  pub status_ok : IsStatus b.status
  pub weight_ok : leb_ℤ (pos 1) b.weight ≡ true
  pub reads_back : (proxies : List SocksProxy) → scan_backend proxies b ≡ joined proxies b

-- Ids go up from `lo`, and stay below the next one.
abbrev pub Ascending : ℕ → List Backend → ℕ → Type 0
Ascending lo [] next = lo ≤ next
Ascending lo (b ∷ rows) next = (lo ≤ b.id) × Ascending (b.id + 1) rows next

abbrev pub named : Text → List Backend → Bool
named name rows = any (λ b. text_eq b.name name) rows

abbrev pub DistinctNames : List Backend → Type 0
DistinctNames [] = Unit
DistinctNames (b ∷ rows) = (named b.name rows ≡ false) × DistinctNames rows

pub record IsTable (db : Db) : Type 0 where
  pub rows_ok : All IsRow db.backends
  pub ids_ok : Ascending 1 db.backends db.next_backend_id
  pub names_ok : DistinctNames db.backends

pub written-IsRow :
    (b : Backend) (failures : ℕ) (recover_at : Option Time) (created updated : Time) (i : ℕ)
    → IsRow (record (written b) {
      id = i;
      proxy = none;
      consecutive_failures = failures;
      recover_at = recover_at;
      created_at = created;
      updated_at = updated;
    })
written-IsRow b failures recover_at created updated i = record {
  status_ok = unfold written in normalize_backend_status-IsStatus b.status;
  weight_ok = unfold written in normalize_weight_pos b.weight;
  reads_back = λ proxies.
      unfold scan_backend written in
      simp (
        read_back,
        normalize_status_of_IsStatus _ (normalize_backend_status-IsStatus b.status),
        normalize_protocol_of_IsProtocol _ (normalize_backend_protocol-IsProtocol b.protocol),
      );
}

-- A change of the health columns keeps a row well formed.
pub IsRow-health :
    (b : Backend) (status : Text) (failures : ℕ) (recover_at : Option Time) (now : Time)
    → IsStatus status
    → IsRow b
    → IsRow (record b {
      status = status;
      consecutive_failures = failures;
      recover_at = recover_at;
      updated_at = now;
    })
IsRow-health b status failures recover_at now s h = record {
  status_ok = s;
  weight_ok = h.weight_ok;
  reads_back = λ proxies.
      unfold scan_backend in
      rw (normalize_status_of_IsStatus status s) (
        ap
          (λ (r : Backend). record r {
            status = status;
            consecutive_failures = failures;
            recover_at = recover_at;
            updated_at = now;
          })
          (h.reads_back proxies));
}

module _ (id : ℕ) (f : Backend → Backend) where
  pub All-update :
      (rows : List Backend)
      → ((b : Backend) → IsRow b → IsRow (f b))
      → All IsRow rows
      → All IsRow (update_backend_row id f rows)
  unfolding update_backend_row
  All-update [] k h = tt
  All-update (b ∷ rows) k h = elim (Bool-cases (b.id == id)) [
    | inl this ↦ rw this (k b h.0, All-update rows k h.1)
    | inr other ↦ rw other (h.0, All-update rows k h.1)
  ]

  pub Ascending-update :
      (lo next : ℕ) (rows : List Backend)
      → ((b : Backend) → b.id ≡ id → (f b).id ≡ id)
      → Ascending lo rows next
      → Ascending lo (update_backend_row id f rows) next
  unfolding update_backend_row
  Ascending-update lo next [] k h = h
  Ascending-update lo next (b ∷ rows) k h = elim (Bool-cases (b.id == id)) [
    | inl this ↦
        let same : (f b).id ≡ b.id =
          k b ((==_iff b.id id).0 this) ∙ sym ((==_iff b.id id).0 this) in
        rw this (rw same (h.0, Ascending-update (b.id + 1) next rows k h.1))
    | inr other ↦ rw other (h.0, Ascending-update (b.id + 1) next rows k h.1)
  ]

  module _ (same : (b : Backend) → (f b).name ≡ b.name) where
    named-update :
        (name : Text) (rows : List Backend)
        → named name (update_backend_row id f rows) ≡ named name rows
    unfolding update_backend_row
    named-update name [] = refl
    named-update name (b ∷ rows) = elim (Bool-cases (b.id == id)) [
      | inl this ↦ rw this (rw (same b, named-update name rows))
      | inr other ↦ rw other (rw (named-update name rows))
    ]

    pub DistinctNames-update :
        (rows : List Backend) → DistinctNames rows → DistinctNames (update_backend_row id f rows)
    unfolding update_backend_row
    DistinctNames-update [] h = tt
    DistinctNames-update (b ∷ rows) h = elim (Bool-cases (b.id == id)) [
      | inl this ↦
          rw this (rw (same b) (named-update b.name rows ∙ h.0), DistinctNames-update rows h.1)
      | inr other ↦ rw other (named-update b.name rows ∙ h.0, DistinctNames-update rows h.1)
    ]
