-- ===== src/Streams/Blocks.antt =====
-- The map of blocks: what stands at an index after a block is put at another one.
use token_gate.Base.{
  ◌≡◌, refl, ap, ◌∙◌, ◌↔◌, inl, inr, Bool, true, false, not, ◌&&◌, List, [], ◌∷◌, arith,
  if◌then◌else◌, Bool-cases, any, ℤ, pos, negsuc, ltb_ℤ, eq_ℤ,
}
use token_gate.Streams.{
  TextBlock, empty_block, BlockMap, block_at, set_block, ordered_block_indexes,
}

pub eq_ℤ_iff : (a b : ℤ) → (eq_ℤ a b ≡ true) ↔ (a ≡ b)
eq_ℤ_iff (pos a) (pos b) = ground arith
eq_ℤ_iff (pos a) (negsuc b) = ground arith
eq_ℤ_iff (negsuc a) (pos b) = ground arith
eq_ℤ_iff (negsuc a) (negsuc b) = ground arith

replaced :
    (t : Bool) (b c r : TextBlock) → (if t then b else r) ≡ (if t then b else (if t then c else r))
replaced true b c r = refl
replaced false b c r = refl

swapped :
    (t u : Bool) (b c r : TextBlock)
    → (t ≡ true → u ≡ false)
    → (if t then c else (if u then b else r)) ≡ (if u then b else (if t then c else r))
swapped true u b c r h = rw (h refl) refl
swapped false u b c r h = refl

apart : (i j k : ℤ) → eq_ℤ k j ≡ false → eq_ℤ k i ≡ true → eq_ℤ j i ≡ false
apart i j k e h = ground (arith, eq_ℤ_iff k j, eq_ℤ_iff k i, eq_ℤ_iff j i)

pub block_at-set_block :
    (i j : ℤ) (b : TextBlock) (bs : BlockMap)
    → block_at i (set_block j b bs) ≡ (if eq_ℤ j i then b else block_at i bs)
unfolding block_at set_block
block_at-set_block i j b [] = refl
block_at-set_block i j b ((k, c) ∷ bs) = elim (Bool-cases (eq_ℤ k j)) [
  | inl e ↦ rw (e, (eq_ℤ_iff k j).0 e) (replaced (eq_ℤ j i) b c (block_at i bs))
  | inr e ↦ elim (Bool-cases (ltb_ℤ j k)) [
    | inl l ↦ rw (e, l) refl
    | inr l ↦
        rw (e, l, block_at-set_block i j b bs)
          (swapped (eq_ℤ k i) (eq_ℤ j i) b c (block_at i bs) (apart i j k e))
  ]
]

pub block_at-set_block_same :
    (i : ℤ) (b : TextBlock) (bs : BlockMap) → block_at i (set_block i b bs) ≡ b
block_at-set_block_same i b bs = rw (block_at-set_block i i b bs, (eq_ℤ_iff i i).1 refl) refl

-- A property of blocks that the new block shares with the old one holds where it held.
pub block_at-keeps :
    (f : TextBlock → Bool) (i : ℤ) (b : TextBlock) (bs : BlockMap)
    → f b ≡ f (block_at i bs)
    → (j : ℤ) → f (block_at j (set_block i b bs)) ≡ f (block_at j bs)
block_at-keeps f i b bs h j = elim (Bool-cases (eq_ℤ i j)) [
  | inl e ↦
      rw (block_at-set_block j i b bs, e) (h ∙ ap (λ k. f (block_at k bs)) ((eq_ℤ_iff i j).0 e))
  | inr e ↦ rw (block_at-set_block j i b bs, e) refl
]

-- Whether an index is in a list, and a list without it.
abbrev pub among_ℤ : ℤ → List ℤ → Bool
among_ℤ i is = any (λ j. eq_ℤ j i) is

unfoldable pub drop_ℤ : ℤ → List ℤ → List ℤ
drop_ℤ i [] = []
drop_ℤ i (j ∷ js) = let rest = drop_ℤ i js in if eq_ℤ j i then rest else j ∷ rest

pub among_ℤ-drop_ℤ :
    (i j : ℤ) (is : List ℤ) → among_ℤ j (drop_ℤ i is) ≡ (if eq_ℤ i j then false else among_ℤ j is)
unfolding drop_ℤ
among_ℤ-drop_ℤ i j [] = ground arith
among_ℤ-drop_ℤ i j (k ∷ is) =
    ground (arith, among_ℤ-drop_ℤ i j is, eq_ℤ_iff k i, eq_ℤ_iff i j, eq_ℤ_iff k j)

pub nothing_among : (is : List ℤ) → ((j : ℤ) → among_ℤ j is ≡ false) → is ≡ []
nothing_among [] h = refl
nothing_among (i ∷ is) h = ground (arith, h i, eq_ℤ_iff i i)

-- An index that is not in the map has the empty block.
pub block_at_outside :
    (j : ℤ) (bs : BlockMap)
    → among_ℤ j (ordered_block_indexes bs) ≡ false
    → block_at j bs ≡ empty_block
unfolding block_at ordered_block_indexes
block_at_outside j [] h = refl
block_at_outside j ((i, b) ∷ bs) h = ground (arith, block_at_outside j bs)

pub shut_if :
    (u : Bool) (b c : TextBlock)
    → b.is_open ≡ false
    → (if u then b else c).is_open ≡ (c.is_open && not u)
shut_if true b c h = ground arith
shut_if false b c h = ground arith

pub shut_already : (u v : Bool) → (u ≡ true → v ≡ false) → v ≡ (v && not u)
shut_already true v h = rw (h refl) refl
shut_already false v h = ground arith
