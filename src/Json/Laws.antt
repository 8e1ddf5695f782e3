-- ===== src/Json/Laws.antt =====
-- Lists and maps as values, and the members of a map that was changed.
use token_gate.Base.{
  ◌≡◌, refl, sym, ap, ◌∙◌, inl, inr, Bool, true, false, none, some, List, [], ◌∷◌, arith,
  if◌then◌else◌, Bool-cases,
}
use token_gate.Json.{Json, Object, items_of, list_of, members_of, entries_of, lookup, put, remove}
use token_gate.Text.{Text, text_eq}
use token_gate.Text.Laws.{text_eq_iff}

-- Choices that are nested.
asked_twice :
    {A : Type 0} (t : Bool) (x y z : A)
    → (if t then x else z) ≡ (if t then x else (if t then y else z))
asked_twice true x y z = refl
asked_twice false x y z = refl

asked_in_turn :
    {A : Type 0} (t u : Bool) (x y z : A)
    → (t ≡ true → u ≡ false)
    → (if t then x else (if u then y else z)) ≡ (if u then y else (if t then x else z))
asked_in_turn true u x y z h = rw (h refl) refl
asked_in_turn false u x y z h = refl

keys_apart :
    (k to key : Text) → text_eq k to ≡ false → text_eq k key ≡ true → text_eq to key ≡ false
keys_apart k to key e h = elim (Bool-cases (text_eq to key)) [
  | inl q ↦ absurd (
      ground
        (arith, e, (text_eq_iff k to).1 ((text_eq_iff k key).0 h ∙ sym ((text_eq_iff to key).0 q))))
  | inr q ↦ q
]

pub lookup-put :
    (key to : Text) (v : Json) (m : Object)
    → lookup key (put to v m) ≡ (if text_eq to key then some v else lookup key m)
unfolding lookup put
lookup-put key to v [] = refl
lookup-put key to v ((k, w) ∷ m) = elim (Bool-cases (text_eq k to)) [
  | inl e ↦
      rw (e, ap (λ x. text_eq x key) ((text_eq_iff k to).0 e))
        (asked_twice (text_eq to key) (some v) (some w) (lookup key m))
  | inr e ↦
      rw (e, lookup-put key to v m)
        (asked_in_turn (text_eq k key) (text_eq to key) (some w) (some v) (lookup key m)
          (keys_apart k to key e))
]

pub lookup-remove :
    (key from : Text) (m : Object)
    → lookup key (remove from m) ≡ (if text_eq from key then none else lookup key m)
unfolding lookup remove
lookup-remove key from [] = elim (Bool-cases (text_eq from key)) [
  | inl e ↦ rw e refl
  | inr e ↦ rw e refl
]
lookup-remove key from ((k, w) ∷ m) = elim (Bool-cases (text_eq k from)) [
  | inl e ↦
      rw (e, lookup-remove key from m, ap (λ x. text_eq x key) ((text_eq_iff k from).0 e))
        (asked_twice (text_eq from key) none (some w) (lookup key m))
  | inr e ↦
      rw (e, lookup-remove key from m)
        (asked_in_turn (text_eq k key) (text_eq from key) (some w) none (lookup key m)
          (keys_apart k from key e))
]

pub list_of-items_of : (vs : List Json) → list_of (items_of vs) ≡ vs
unfolding list_of items_of
list_of-items_of [] = refl
list_of-items_of (v ∷ vs) = ap (λ ws. v ∷ ws) (list_of-items_of vs)

pub entries_of-members_of : (m : Object) → entries_of (members_of m) ≡ m
unfolding entries_of members_of
entries_of-members_of [] = refl
entries_of-members_of ((k, v) ∷ m) = ap (λ n. (k, v) ∷ n) (entries_of-members_of m)
