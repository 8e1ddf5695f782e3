-- ===== src/Tests/SchedulerTests.antt =====
-- The scheduler at a concrete database.
use token_gate.Base.{◌≡◌, refl, ◌↔◌, true, none, some, List, [], ◌∷◌, map, Has, pos}
use token_gate.Domain.{endpoint_chat, status_normal, Backend, normalize_backend_status}
use token_gate.Glob.{path_match}
use token_gate.Scheduler.{match_pattern, supports_backend_model, candidates, select_backend}
use token_gate.Scheduler.Order.{InOrder}
use token_gate.Scheduler.Patterns.{Accepts, match_pattern_iff}
use token_gate.Scheduler.Selection.{select_backend-some, select_backend-none}
use token_gate.Store.{Db, empty_db}
use token_gate.Store.Backends.{list_backends, recover_expired_backends}
use token_gate.Store.Columns.{normalize_list}
use token_gate.Tests.Samples.{at_second, backend}
use token_gate.Text.{Text, codes, trim_space, to_lower}

abbrev wild : List Text
wild = codes "gpt-[3-5]*" ∷ []

abbrev busy : Db
busy = record empty_db {
  backends =
      backend 1 "edge-a" (pos 5) wild
      ∷ backend 2 "edge-b" (pos 9) wild
      ∷ backend 3 "edge-c" (pos 5) wild
      ∷ [];
  next_backend_id = 4;
}

abbrev model : Text
model = codes "gpt-4o"

abbrev chosen : List Backend
chosen = candidates model (recover_expired_backends (at_second 5 0) busy)

chosen_ids : map (λ (b : Backend). b.id) chosen ≡ 2 ∷ 1 ∷ 3 ∷ []
unfolding candidates recover_expired_backends normalize_backend_status to_lower trim_space
    normalize_list path_match
chosen_ids = refl

selected : (select_backend (at_second 5 0) endpoint_chat model busy).1 ≡ some chosen
unfolding select_backend normalize_backend_status to_lower trim_space normalize_list path_match
selected = refl

select_backend-some_example :
    InOrder chosen
    × ((b : Backend)
        → Has b chosen ↔ (
            Has b (list_backends (recover_expired_backends (at_second 5 0) busy))
            × ((b.status ≡ status_normal) × (supports_backend_model b model ≡ true))))
select_backend-some_example = select_backend-some (at_second 5 0) endpoint_chat model busy selected

select_backend-none_example :
    ((select_backend (at_second 5 0) endpoint_chat model empty_db).1 ≡ none) ↔ (
      (b : Backend)
      → Has b (list_backends (recover_expired_backends (at_second 5 0) empty_db))
      → b.status ≡ status_normal
      → supports_backend_model b model ≡ true
      → ⊥)
select_backend-none_example = select_backend-none (at_second 5 0) endpoint_chat model empty_db

match_pattern_iff_example :
    (match_pattern (codes " gpt-[3-5]* ") model ≡ true)
    ↔ Accepts (trim_space (codes " gpt-[3-5]* ")) model
match_pattern_iff_example = match_pattern_iff (codes " gpt-[3-5]* ") model
