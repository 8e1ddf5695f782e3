-- ===== src/Text/Laws.antt =====
-- Laws of the operations on text.
use token_gate.Base.{ℕ, ◌≡◌, refl, ◌↔◌, inl, inr, true, false, [], ◌∷◌, arith, Bool-cases}
use token_gate.Text.{Text, text_eq, is_space, trim_left, trim_cons, trim_right, trim_space}

pub text_eq_iff : (s t : Text) → (text_eq s t ≡ true) ↔ (s ≡ t)
unfolding text_eq
text_eq_iff (a ∷ s) (b ∷ t) = ground (arith, text_eq_iff s t)
text_eq_iff _ _ = ground arith

pub text_eq_refl : (s : Text) → text_eq s s ≡ true
text_eq_refl s = (text_eq_iff s s).1 refl

trim_left_idem : (s : Text) → trim_left (trim_left s) ≡ trim_left s
unfolding trim_left
trim_left_idem [] = refl
trim_left_idem (c ∷ s) = elim (Bool-cases (is_space c)) [
  | inl sp ↦ rw sp (trim_left_idem s)
  | inr no_sp ↦ rw no_sp (rw no_sp)
]

-- The first character is no space.
abbrev Starts : Text → Type 0
Starts [] = Unit
Starts (c ∷ s) = is_space c ≡ false

trim_left-Starts : (s : Text) → Starts (trim_left s)
unfolding trim_left
trim_left-Starts [] = tt
trim_left-Starts (c ∷ s) = elim (Bool-cases (is_space c)) [
  | inl sp ↦ rw sp (trim_left-Starts s)
  | inr no_sp ↦ rw no_sp no_sp
]

trim_left_of_Starts : (s : Text) → Starts s → trim_left s ≡ s
unfolding trim_left
trim_left_of_Starts [] h = refl
trim_left_of_Starts (c ∷ s) h = rw h

trim_cons-Starts : (c : ℕ) (s : Text) → is_space c ≡ false → Starts (trim_cons c s)
unfolding trim_cons
trim_cons-Starts c [] h = rw h h
trim_cons-Starts c (d ∷ s) h = h

trim_right-Starts : (s : Text) → Starts s → Starts (trim_right s)
unfolding trim_right
trim_right-Starts [] h = tt
trim_right-Starts (c ∷ s) h = trim_cons-Starts c (trim_right s) h

trim_right-trim_cons :
    (c : ℕ) (s : Text) → trim_right s ≡ s → trim_right (trim_cons c s) ≡ trim_cons c s
unfolding trim_right trim_cons
trim_right-trim_cons c [] h = ground arith
trim_right-trim_cons c (d ∷ s) h = rw h

trim_right_idem : (s : Text) → trim_right (trim_right s) ≡ trim_right s
unfolding trim_right
trim_right_idem [] = refl
trim_right_idem (c ∷ s) = trim_right-trim_cons c (trim_right s) (trim_right_idem s)

-- A trimmed text has nothing left to trim.
pub trim_space_idem : (s : Text) → trim_space (trim_space s) ≡ trim_space s
unfolding trim_space
trim_space_idem s =
    rw
      (trim_left_of_Starts (trim_right (trim_left s))
        (trim_right-Starts (trim_left s) (trim_left-Starts s)))
      (trim_right_idem (trim_left s))
