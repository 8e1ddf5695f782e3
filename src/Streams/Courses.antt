-- ===== src/Streams/Courses.antt =====
-- How far an upstream has come with its stream: which indexes it is done with, and whether it has
-- ended the whole.
use token_gate.Base.{
  ◌≡◌, sym, ap, ◌∙◌, inl, inr, Bool, true, false, not, ◌||◌, List, [], ◌∷◌, arith, Bool-cases, ℤ,
  eq_ℤ,
}
use token_gate.Streams.{TextBlock, BlockMap, block_at, set_block}
use token_gate.Streams.Blocks.{eq_ℤ_iff, block_at-set_block, among_ℤ}

pub record Course : Type 0 where
  pub finished : List ℤ
  pub complete : Bool

abbrev pub first_course : Course
first_course = record { finished = []; complete = false }

-- The upstream has no more text for the block at an index.
abbrev pub is_gone : Course → ℤ → Bool
is_gone u j = u.complete || among_ℤ j u.finished

-- A block that is started, for which there may be text, is open.
abbrev pub is_live : Bool → TextBlock → Bool
is_live gone b = gone || (not b.started || b.is_open)

abbrev pub Live : (ℤ → Bool) → BlockMap → Type 0
Live gone bs = (j : ℤ) → is_live (gone j) (block_at j bs) ≡ true

pub Live-set_block :
    (gone : ℤ → Bool) (i : ℤ) (b : TextBlock) (bs : BlockMap)
    → is_live (gone i) b ≡ true
    → Live gone bs
    → Live gone (set_block i b bs)
Live-set_block gone i b bs h k j = elim (Bool-cases (eq_ℤ i j)) [
  | inl e ↦
      rw (block_at-set_block j i b bs, e)
        (ap (λ x. is_live (gone x) b) (sym ((eq_ℤ_iff i j).0 e)) ∙ h)
  | inr e ↦ rw (block_at-set_block j i b bs, e) (k j)
]

pub Live-more :
    (gone more : ℤ → Bool) (bs : BlockMap)
    → ((j : ℤ) → gone j ≡ true → more j ≡ true)
    → Live gone bs
    → Live more bs
Live-more gone more bs h k j = ground (arith, h j, k j)

pub opened_is_live : (g : Bool) (b : TextBlock) → b.is_open ≡ true → is_live g b ≡ true
opened_is_live g b h = ground (arith, h)

pub open_if_live :
    (g : Bool) (b : TextBlock)
    → is_live g b ≡ true
    → g ≡ false
    → b.started ≡ true
    → b.is_open ≡ true
open_if_live g b h k l = ground (arith, h, k, l)

pub gone_is_live : (g : Bool) (b : TextBlock) → g ≡ true → is_live g b ≡ true
gone_is_live g b h = ground (arith, h)

pub is_gone-finished :
    (u : Course) (i j : ℤ)
    → is_gone u j ≡ true
    → is_gone (record u { finished = i ∷ u.finished }) j ≡ true
is_gone-finished u i j h = ground (arith, h)

pub is_gone-itself :
    (u : Course) (i : ℤ) → is_gone (record u { finished = i ∷ u.finished }) i ≡ true
is_gone-itself u i = ground (arith, eq_ℤ_iff i i)
