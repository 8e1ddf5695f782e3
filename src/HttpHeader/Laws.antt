-- ===== src/HttpHeader/Laws.antt =====
-- What stands under a key of a header after each operation.
use token_gate.Base.{◌≡◌, refl, inl, inr, [], ◌∷◌, ◌++◌, arith, if◌then◌else◌, Bool-cases}
use token_gate.HttpHeader.{Header, canonical_key, values, add_value, drop_key, set}
use token_gate.Text.{Text, text_eq}
use token_gate.Text.Laws.{text_eq_iff}

pub values-add_value :
    (k key v : Text) (h : Header)
    → values k (add_value key v h) ≡ (if text_eq key k then values k h ++ (v ∷ []) else values k h)
unfolding values add_value
values-add_value k key v [] = elim (Bool-cases (text_eq key k)) [
  | inl e ↦ rw e refl
  | inr e ↦ rw e refl
]
values-add_value k key v ((c, vs) ∷ h) =
    ground
      (arith, values-add_value k key v h, text_eq_iff c key, text_eq_iff key k, text_eq_iff c k)

pub values-drop_key :
    (k key : Text) (h : Header)
    → values k (drop_key key h) ≡ (if text_eq key k then [] else values k h)
unfolding values drop_key
values-drop_key k key [] = ground arith
values-drop_key k key ((c, vs) ∷ h) =
    ground (arith, values-drop_key k key h, text_eq_iff c key, text_eq_iff key k, text_eq_iff c k)

pub values-set :
    (k key v : Text) (h : Header)
    → canonical_key key ≡ key
    → values k (set key v h) ≡ (if text_eq key k then v ∷ [] else values k h)
unfolding values set
values-set k key v h c = elim (Bool-cases (text_eq key k)) [
  | inl e ↦ rw (c, e) refl
  | inr e ↦ rw (values-drop_key k (canonical_key key) h, c, e) refl
]
