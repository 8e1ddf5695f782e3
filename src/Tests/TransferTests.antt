-- ===== src/Tests/TransferTests.antt =====
-- An import at a concrete table. The tests take every text that is not empty for a URL.
use token_gate.Base.{String, ◌≡◌, refl, not, List, [], ◌∷◌, pos}
use token_gate.Store.{Db, empty_db}
use token_gate.Tests.Samples.{at_second, backend}
use token_gate.Text.{codes, is_empty, to_lower}
use token_gate.Transfer.{
  TransferItem, backend_to_import_export_item, duplicate_name, name_exists, Outside, not_accepted,
  validate_backend_import_payload, bad_request, handle_import_backends,
}
use token_gate.Transfer.Import.{NotStoreRefused, handle_import_backends-NotStoreRefused}

abbrev any_url : Outside
any_url = record { valid_url = λ s. not (is_empty s); lower = to_lower }

abbrev one_backend : Db
one_backend = record empty_db { backends = backend 1 "a" (pos 1) [] ∷ []; next_backend_id = 2 }

abbrev named : String → TransferItem
unfolding backend_to_import_export_item
named name = backend_to_import_export_item (backend 1 name (pos 1) [])

abbrev two_items : List TransferItem
two_items = named " b" ∷ named "C" ∷ []

handle_import_backends-NotStoreRefused_example :
    NotStoreRefused (handle_import_backends any_url (at_second 5 0) two_items one_backend).1
handle_import_backends-NotStoreRefused_example =
    handle_import_backends-NotStoreRefused any_url (at_second 5 0) two_items one_backend

-- The key of a name has no capitals.
name_is_there :
    handle_import_backends any_url (at_second 5 0) (named "b" ∷ named " A " ∷ []) one_backend
    ≡ (one_backend, bad_request (name_exists (codes "A")))
unfolding handle_import_backends named
name_is_there = refl

name_is_there_twice :
    validate_backend_import_payload any_url one_backend (named "b" ∷ named "B" ∷ [])
    ≡ not_accepted (duplicate_name (codes "B"))
unfolding validate_backend_import_payload named
name_is_there_twice = refl
