-- ===== src/Glob/Matching.antt =====
-- What it means for a name to match a pattern, and that `match_terms` decides it.
-- A `*` takes any characters but slashes, another term takes one character.
use token_gate.Base.{
  ℕ, ◌≡◌, refl, ◌↔◌, inl, inr, true, false, List, [], ◌∷◌, arith, ◌==◌, Bool-cases, and_true,
}
use token_gate.Glob.{Term, star, any_one, literal, class, takes, match_terms}
use token_gate.Text.{Text}

pub data Matches : List Term → Text → Type 0 where
  nothing : Matches [] []
  star_ends : {ts : List Term} {s : Text} → Matches ts s → Matches (star ∷ ts) s
  star_takes :
      {ts : List Term} {c : ℕ} {s : Text}
      → (c == b'/') ≡ false
      → Matches (star ∷ ts) s
      → Matches (star ∷ ts) (c ∷ s)
  takes_one :
      {t : Term} {ts : List Term} {c : ℕ} {s : Text}
      → takes t c ≡ true
      → Matches ts s
      → Matches (t ∷ ts) (c ∷ s)

match_sound : (ts : List Term) (s : Text) → match_terms ts s ≡ true → Matches ts s
unfolding match_terms
match_sound [] [] h = nothing
match_sound [] (c ∷ s) h = cc
match_sound (star ∷ ts) [] h = star_ends (match_sound ts [] h)
match_sound (star ∷ ts) (c ∷ s) h = elim (Bool-cases (match_terms ts (c ∷ s))) [
  | inl now ↦ star_ends (match_sound ts (c ∷ s) now)
  | inr later ↦ star_takes (ground arith) (match_sound (star ∷ ts) s (ground arith))
]
match_sound (any_one ∷ ts) [] h = cc
match_sound (literal d ∷ ts) [] h = cc
match_sound (class n rs ∷ ts) [] h = cc
match_sound (any_one ∷ ts) (c ∷ s) h =
    takes_one (and_true _ _ h).0 (match_sound ts s (and_true _ _ h).1)
match_sound (literal d ∷ ts) (c ∷ s) h =
    takes_one (and_true _ _ h).0 (match_sound ts s (and_true _ _ h).1)
match_sound (class n rs ∷ ts) (c ∷ s) h =
    takes_one (and_true _ _ h).0 (match_sound ts s (and_true _ _ h).1)

star_ends_true :
    (ts : List Term) (s : Text) → match_terms ts s ≡ true → match_terms (star ∷ ts) s ≡ true
unfolding match_terms
star_ends_true ts [] h = h
star_ends_true ts (c ∷ s) h = rw h

star_takes_true :
    (ts : List Term) (c : ℕ) (s : Text)
    → (c == b'/') ≡ false
    → match_terms (star ∷ ts) s ≡ true
    → match_terms (star ∷ ts) (c ∷ s) ≡ true
unfolding match_terms
star_takes_true ts c s h k = ground arith

takes_one_true :
    (t : Term) (ts : List Term) (c : ℕ) (s : Text)
    → takes t c ≡ true
    → match_terms ts s ≡ true
    → match_terms (t ∷ ts) (c ∷ s) ≡ true
unfolding match_terms
takes_one_true star ts c s h k = cc
takes_one_true any_one ts c s h k = rw (h, k)
takes_one_true (literal d) ts c s h k = rw (h, k)
takes_one_true (class n rs) ts c s h k = rw (h, k)

match_complete : {ts : List Term} {s : Text} → Matches ts s → match_terms ts s ≡ true
match_complete nothing = unfold match_terms in refl
match_complete (star_ends {ts} {s} m) = star_ends_true ts s (match_complete m)
match_complete (star_takes {ts} {c} {s} h m) = star_takes_true ts c s h (match_complete m)
match_complete (takes_one {t} {ts} {c} {s} h m) = takes_one_true t ts c s h (match_complete m)

-- The matcher answers true exactly on the names that match.
pub match_terms_iff : (ts : List Term) (s : Text) → (match_terms ts s ≡ true) ↔ Matches ts s
match_terms_iff ts s = (match_sound ts s, match_complete)
