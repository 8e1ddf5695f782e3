-- ===== src/Scheduler/Order.antt =====
-- The sort of the candidates: what it returns is in order and holds the same backends.
use token_gate.Base.{
  ◌≤◌, ◌≡◌, ◌↔◌, ◌⊎◌, inl, inr, true, false, List, [], ◌∷◌, arith, Bool-cases, All, Has, ltb_ℤ,
  eq_ℤ,
}
use token_gate.Domain.{Backend}
use token_gate.Scheduler.{less, insert, sort_stable}

-- No backend stands behind one that the code puts before it.
abbrev IsBefore : Backend → List Backend → Type 0
IsBefore a bs = All (λ b. less b a ≡ false) bs

abbrev IsSorted : List Backend → Type 0
IsSorted [] = Unit
IsSorted (b ∷ bs) = IsBefore b bs × IsSorted bs

less_asymm : (a b : Backend) → less a b ≡ true → less b a ≡ false
unfolding less
less_asymm a b h = ground arith

not_less_trans : (a b c : Backend) → less b a ≡ false → less c b ≡ false → less c a ≡ false
unfolding less
not_less_trans a b c h k = ground arith

IsBefore-trans :
    (a b : Backend) (bs : List Backend) → less b a ≡ false → IsBefore b bs → IsBefore a bs
IsBefore-trans a b [] h k = tt
IsBefore-trans a b (c ∷ bs) h k = (not_less_trans a b c h k.0, IsBefore-trans a b bs h k.1)

insert-IsBefore :
    (a x : Backend) (bs : List Backend)
    → less x a ≡ false
    → IsBefore a bs
    → IsBefore a (insert x bs)
unfolding insert
insert-IsBefore a x [] h k = (h, tt)
insert-IsBefore a x (b ∷ bs) h k = elim (Bool-cases (less b x)) [
  | inl passes ↦ rw passes (k.0, insert-IsBefore a x bs h k.1)
  | inr stops ↦ rw stops (h, k)
]

insert-IsSorted : (x : Backend) (bs : List Backend) → IsSorted bs → IsSorted (insert x bs)
unfolding insert
insert-IsSorted x [] s = (tt, tt)
insert-IsSorted x (b ∷ bs) s = elim (Bool-cases (less b x)) [
  | inl passes ↦
      rw passes (insert-IsBefore b x bs (less_asymm b x passes) s.0, insert-IsSorted x bs s.1)
  | inr stops ↦ rw stops ((stops, IsBefore-trans x b bs stops s.0), s)
]

-- A backend of a higher weight comes first, and among equal weights one of an id that is not higher.
abbrev pub Precedes : Backend → Backend → Type 0
Precedes a b = (ltb_ℤ b.weight a.weight ≡ true) ⊎ ((eq_ℤ a.weight b.weight ≡ true) × (a.id ≤ b.id))

-- Every backend comes before all that stand behind it.
abbrev pub InOrder : List Backend → Type 0
InOrder [] = Unit
InOrder (b ∷ bs) = All (Precedes b) bs × InOrder bs

-- The order of the code, spelled out.
Precedes-of_not_less : (a b : Backend) → less b a ≡ false → Precedes a b
unfolding less
Precedes-of_not_less a b h = ground (arith, h)

in_front_of : (a : Backend) (bs : List Backend) → IsBefore a bs → All (Precedes a) bs
in_front_of a [] h = tt
in_front_of a (b ∷ bs) (h, k) = (Precedes-of_not_less a b h, in_front_of a bs k)

InOrder-of_IsSorted : (bs : List Backend) → IsSorted bs → InOrder bs
InOrder-of_IsSorted [] s = tt
InOrder-of_IsSorted (b ∷ bs) (h, s) = (in_front_of b bs h, InOrder-of_IsSorted bs s)

sort_stable-IsSorted : (bs : List Backend) → IsSorted (sort_stable bs)
unfolding sort_stable
sort_stable-IsSorted [] = tt
sort_stable-IsSorted (b ∷ bs) = insert-IsSorted b (sort_stable bs) (sort_stable-IsSorted bs)

pub sort_stable-InOrder : (bs : List Backend) → InOrder (sort_stable bs)
sort_stable-InOrder bs = InOrder-of_IsSorted (sort_stable bs) (sort_stable-IsSorted bs)

insert-Has : (a x : Backend) (bs : List Backend) → Has a (insert x bs) ↔ ((a ≡ x) ⊎ Has a bs)
unfolding insert
insert-Has a x [] = (λ h. h, λ h. h)
insert-Has a x (b ∷ bs) = elim (Bool-cases (less b x)) [
  | inl passes ↦ rw passes (insert_cases (insert-Has a x bs))
  | inr stops ↦ rw stops (λ h. h, λ h. h)
]
  where
    insert_cases :
        Has a (insert x bs) ↔ ((a ≡ x) ⊎ Has a bs)
        → ((a ≡ b) ⊎ Has a (insert x bs)) ↔ ((a ≡ x) ⊎ ((a ≡ b) ⊎ Has a bs))
    insert_cases (f, g) = (
      elim [ inl e ↦ inr (inl e) | inr h ↦ elim (f h) [ inl e ↦ inl e | inr k ↦ inr (inr k) ] ],
      elim [ inl e ↦ inr (g (inl e)) | inr h ↦ elim h [ inl e ↦ inl e | inr k ↦ inr (g (inr k)) ] ],
    )

pub sort_stable-Has : (a : Backend) (bs : List Backend) → Has a (sort_stable bs) ↔ Has a bs
unfolding sort_stable
sort_stable-Has a [] = (λ h. h, λ h. h)
sort_stable-Has a (b ∷ bs) =
    let (f, g) = insert-Has a b (sort_stable bs) in
    let (p, q) = sort_stable-Has a bs in
    (
      λ h. elim (f h) [ inl e ↦ inl e | inr k ↦ inr (p k) ],
      elim [ inl e ↦ g (inl e) | inr k ↦ g (inr (q k)) ],
    )
