-- ===== src/Store/Columns/Laws.antt =====
-- A column that is read back is what was written: normalisation changes no normalised value.
use token_gate.Base.{
  ◌≡◌, refl, ap, ◌∙◌, inl, inr, Bool, true, false, ◌||◌, List, [], ◌∷◌, ◌++◌, append-nil,
  append_assoc, arith, Bool-cases, any, ℤ, pos, leb_ℤ,
}
use token_gate.JsonText.{json_valid}
use token_gate.Store.Columns.{
  normalize_from, normalize_list, map_set, normalize_onto, normalize_map, normalize_weight,
  normalize_json_object,
}
use token_gate.Text.{Text, codes, text_eq, is_empty, trim_space}
use token_gate.Text.Laws.{text_eq_iff, trim_space_idem}

pub normalize_weight_pos : (w : ℤ) → leb_ℤ (pos 1) (normalize_weight w) ≡ true
unfolding normalize_weight
normalize_weight_pos w = ground arith

json_object_of_blank :
    (v : Text) → is_empty (trim_space v) ≡ true → normalize_json_object v ≡ codes "{}"
unfolding normalize_json_object
json_object_of_blank v h = rw h

pub normalize_json_object_idem :
    (v : Text) → normalize_json_object (normalize_json_object v) ≡ normalize_json_object v
unfolding normalize_json_object json_valid trim_space is_empty
normalize_json_object_idem v = elim (Bool-cases (is_empty (trim_space v))) [
  | inl blank ↦ rw blank
  | inr text ↦ elim (Bool-cases (json_valid (trim_space v))) [
    | inl good ↦ rw (text, good) (rw (trim_space_idem v) (rw (text, good)))
    | inr bad ↦ rw (text, bad)
  ]
]

-- Trimmed, not blank, in no list of values seen before, and so on for the rest.
abbrev Clean : List Text → List Text → Type 0
Clean seen [] = Unit
Clean seen (y ∷ ys) =
    (trim_space y ≡ y) × (is_empty y ≡ false) × (any (text_eq y) seen ≡ false) × Clean (y ∷ seen) ys

normalize_from-Clean : (seen vs : List Text) → Clean seen (normalize_from seen vs)
unfolding normalize_from
normalize_from-Clean seen [] = tt
normalize_from-Clean seen (v ∷ vs) = elim (Bool-cases (is_empty (trim_space v))) [
  | inl blank ↦ rw blank (normalize_from-Clean seen vs)
  | inr text ↦ elim (Bool-cases (any (text_eq (trim_space v)) seen)) [
    | inl old ↦ rw (text, old) (normalize_from-Clean seen vs)
    | inr new ↦
        rw (text, new) (trim_space_idem v, text, new, normalize_from-Clean (trim_space v ∷ seen) vs)
  ]
]

normalize_from_of_Clean : (seen ys : List Text) → Clean seen ys → normalize_from seen ys ≡ ys
unfolding normalize_from
normalize_from_of_Clean seen [] h = refl
normalize_from_of_Clean seen (y ∷ ys) h =
    rw (h.0) (rw (h.1, h.2) (ap (◌∷◌ y) (normalize_from_of_Clean (y ∷ seen) ys h.3)))

pub normalize_list_idem : (vs : List Text) → normalize_list (normalize_list vs) ≡ normalize_list vs
unfolding normalize_list
normalize_list_idem vs = normalize_from_of_Clean [] _ (normalize_from-Clean [] vs)

-- Keys and values are trimmed and not blank, and no key stands twice.
abbrev CleanEntry : Text × Text → Type 0
CleanEntry (k, v) =
    (trim_space k ≡ k) × (is_empty k ≡ false) × (trim_space v ≡ v) × (is_empty v ≡ false)

abbrev has_key : Text → List (Text × Text) → Bool
has_key k m = any (λ e. text_eq e.0 k) m

abbrev CleanMap : List (Text × Text) → Type 0
CleanMap [] = Unit
CleanMap ((k, v) ∷ m) = CleanEntry (k, v) × (has_key k m ≡ false) × CleanMap m

has_key-map_set :
    (k v j : Text) (m : List (Text × Text))
    → text_eq k j ≡ false
    → has_key j (map_set k v m) ≡ has_key j m
unfolding map_set
has_key-map_set k v j [] h = rw h
has_key-map_set k v j ((i, w) ∷ m) h =
    ground (arith, has_key-map_set k v j m h, text_eq_iff i k, text_eq_iff i j, text_eq_iff k j)

CleanMap-map_set :
    (k v : Text) (m : List (Text × Text))
    → CleanEntry (k, v)
    → CleanMap m
    → CleanMap (map_set k v m)
unfolding map_set
CleanMap-map_set k v [] e c = (e, refl, tt)
CleanMap-map_set k v ((i, w) ∷ m) e c = elim (Bool-cases (text_eq i k)) [
  | inl same ↦ rw same (e, rw ((text_eq_iff i k).0 same) at c.1, c.2)
  | inr other ↦ rw other (
    c.0,
    has_key-map_set k v i m (ground (arith, text_eq_iff i k, text_eq_iff k i)) ∙ c.1,
    CleanMap-map_set k v m e c.2,
  )
]

normalize_onto-CleanMap :
    (out m : List (Text × Text)) → CleanMap out → CleanMap (normalize_onto out m)
unfolding normalize_onto
normalize_onto-CleanMap out [] c = c
normalize_onto-CleanMap out ((k, v) ∷ m) c =
    elim (Bool-cases (is_empty (trim_space k) || is_empty (trim_space v))) [
      | inl blank ↦ rw blank (normalize_onto-CleanMap out m c)
      | inr text ↦ rw text (
          normalize_onto-CleanMap (map_set (trim_space k) (trim_space v) out) m (
            CleanMap-map_set (trim_space k) (trim_space v) out
              (trim_space_idem k, ground arith, trim_space_idem v, ground arith) c))
    ]

-- The keys of the second map are none of the first.
abbrev Fresh : List (Text × Text) → List (Text × Text) → Type 0
Fresh out [] = Unit
Fresh out ((k, v) ∷ m) = (has_key k out ≡ false) × Fresh out m

has_key-concat :
    (k v j : Text) (out : List (Text × Text))
    → has_key j (out ++ (k, v) ∷ []) ≡ (has_key j out || text_eq k j)
has_key-concat k v j [] = ground arith
has_key-concat k v j ((i, w) ∷ out) = ground (arith, has_key-concat k v j out)

Fresh-concat :
    (k v : Text) (out m : List (Text × Text))
    → Fresh out m
    → has_key k m ≡ false
    → Fresh (out ++ (k, v) ∷ []) m
Fresh-concat k v out [] f h = tt
Fresh-concat k v out ((i, w) ∷ m) f h = (
  ground (arith, has_key-concat k v i out, f.0, text_eq_iff i k, text_eq_iff k i),
  Fresh-concat k v out m f.1 (ground arith),
)

map_set_fresh :
    (k v : Text) (m : List (Text × Text)) → has_key k m ≡ false → map_set k v m ≡ m ++ (k, v) ∷ []
unfolding map_set
map_set_fresh k v [] h = refl
map_set_fresh k v ((i, w) ∷ m) h = ground (arith, map_set_fresh k v m)

normalize_onto_of_CleanMap :
    (out m : List (Text × Text)) → CleanMap m → Fresh out m → normalize_onto out m ≡ out ++ m
unfolding normalize_onto
normalize_onto_of_CleanMap out [] c f = rw append-nil
normalize_onto_of_CleanMap out ((k, v) ∷ m) c f =
    rw (c.0.0, c.0.2)
      (rw (c.0.1, c.0.3)
        (rw (map_set_fresh k v out f.0) (
          normalize_onto_of_CleanMap (out ++ (k, v) ∷ []) m c.2 (Fresh-concat k v out m f.1 c.1)
          ∙ append_assoc out ((k, v) ∷ []) m)))

Fresh-nil : (m : List (Text × Text)) → Fresh [] m
Fresh-nil [] = tt
Fresh-nil ((k, v) ∷ m) = (refl, Fresh-nil m)

pub normalize_map_idem :
    (m : List (Text × Text)) → normalize_map (normalize_map m) ≡ normalize_map m
unfolding normalize_map
normalize_map_idem m =
    normalize_onto_of_CleanMap [] _ (normalize_onto-CleanMap [] m tt) (Fresh-nil _)
