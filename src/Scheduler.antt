-- ===== src/Scheduler.antt =====
-- internal/scheduler/scheduler.go. A stable sort is modelled by insertion.
pub mod Order
pub mod Selection
pub mod Patterns
use token_gate.Base.{
  ℕ, Bool, true, false, not, ◌&&◌, ◌||◌, Option, none, some, List, [], ◌∷◌, ltb, if◌then◌else◌, any,
  keep, ℤ, pos, ltb_ℤ, eq_ℤ,
}
use token_gate.Domain.{status_normal, Backend}
use token_gate.Glob.{path_match}
use token_gate.Store.{Db}
use token_gate.Store.Backends.{
  list_backends, mark_backend_success, mark_backend_failure, recover_expired_backends,
}
use token_gate.Text.{Text, codes, text_eq, is_empty, trim_space, contains_any}
use token_gate.Time.{Time}

pub record Service : Type 0 where
  pub backend_cooldown : ℕ
  pub backend_fails : ℤ

-- `New`
unfoldable pub new : ℕ → ℤ → Service
new cooldown fails = record {
  backend_cooldown = cooldown;
  backend_fails = if ltb_ℤ fails (pos 1) then pos 1 else fails;
}

unfoldable pub match_pattern : Text → Text → Bool
unfolding is_empty text_eq contains_any
match_pattern pattern value =
    let p = trim_space pattern in
    if is_empty p || text_eq p (codes "*")
    then true
    else if not (contains_any (codes "*?") p)
    then text_eq p value
    else path_match p value

unfoldable pub supports_model : List Text → Text → Bool
unfolding match_pattern
supports_model patterns model = any (λ p. match_pattern p model) patterns

unfoldable pub maps_model : Text → List (Text × Text) → Bool
unfolding text_eq is_empty
maps_model model [] = false
maps_model model ((client, upstream) ∷ m) =
    (text_eq (trim_space client) model && not (is_empty (trim_space upstream)))
    || maps_model model m

unfoldable pub supports_backend_model : Backend → Text → Bool
unfolding supports_model maps_model is_empty
supports_backend_model backend model =
    let m = trim_space model in
    if supports_model backend.models model
    then true
    else if is_empty m
    then false
    else maps_model m backend.model_mapping

-- What the loop over the backends keeps.
unfoldable pub is_candidate : Text → Backend → Bool
unfolding text_eq supports_backend_model
is_candidate model backend =
    if not (text_eq backend.status status_normal)
    then false
    else supports_backend_model backend model

-- The `less` function of the sort.
unfoldable pub less : Backend → Backend → Bool
less a b = if eq_ℤ a.weight b.weight then ltb a.id b.id else ltb_ℤ b.weight a.weight

-- In front of the first one that is greater.
unfoldable pub insert : Backend → List Backend → List Backend
unfolding less
insert a [] = a ∷ []
insert a (b ∷ bs) = let rest = insert a bs in if less b a then b ∷ rest else a ∷ b ∷ bs

unfoldable pub sort_stable : List Backend → List Backend
unfolding insert
sort_stable [] = []
sort_stable (b ∷ bs) = insert b (sort_stable bs)

unfoldable pub candidates : Text → Db → List Backend
unfolding is_candidate sort_stable list_backends
candidates model db = sort_stable (keep (is_candidate model) (list_backends db))

-- The test on `len(candidates)`; `none` is `ErrNoBackendAvailable`.
unfoldable pub selection_of : List Backend → Option (List Backend)
selection_of [] = none
selection_of (b ∷ bs) = some (b ∷ bs)

-- The endpoint is not used.
unfoldable pub select_backend : Time → Text → Text → Db → Db × Option (List Backend)
unfolding candidates recover_expired_backends selection_of
select_backend now endpoint model db =
    let after = recover_expired_backends now db in (after, selection_of (candidates model after))

unfoldable pub mark_success : Time → ℕ → Db → Db
unfolding mark_backend_success
mark_success now id db = (mark_backend_success now id db).0

unfoldable pub mark_failure : Service → Time → ℕ → Db → Db
unfolding mark_backend_failure
mark_failure s now id db = (mark_backend_failure id s.backend_fails s.backend_cooldown now db).0
