-- ===== src/Usage/Redaction.antt =====
-- No secret stands in the headers that a log keeps.
use token_gate.Base.{
  ℕ, ◌+◌, ◌≤◌, ◌≡◌, refl, ap, ◌↔◌, ◌⊎◌, inl, inr, Bool, true, false, ◌||◌, List, [], ◌∷◌, map,
  arith, Bool-cases, All, Has,
}
use token_gate.HttpHeader.{Header}
use token_gate.Text.{Text, codes, text_eq, trim_space, lower_rune, to_lower}
use token_gate.Usage.{is_secret, redacted_headers}

-- A character that is a letter or a dash of a word in lower case, or its upper case: the letters are
-- those of ASCII, and the two others that have a lower case in ASCII.
abbrev pub Letter : ℕ → ℕ → Type 0
Letter c d =
    (c ≡ d)
    ⊎ (((b'A' ≤ c) × (c ≤ b'Z') × (d ≡ c + 32))
        ⊎ (((c ≡ 0x130) × (d ≡ b'i')) ⊎ ((c ≡ 0x212a) × (d ≡ b'k'))))

-- A text is a word, whatever the case of its letters.
abbrev pub Spells : Text → Text → Type 0
Spells [] [] = Unit
Spells (c ∷ s) (d ∷ w) = Letter c d × Spells s w
Spells _ _ = ⊥

-- The key of a header with a credential, whatever the case of its letters and the blanks around it.
unfoldable pub Secret : Text → Type 0
unfolding trim_space
Secret key =
    Spells (trim_space key) (codes "authorization")
    ⊎ (Spells (trim_space key) (codes "api-key")
        ⊎ (Spells (trim_space key) (codes "x-api-key") ⊎ Spells (trim_space key) (codes "cookie")))

-- No letter of a word is in upper case.
abbrev IsLower : Text → Type 0
IsLower w = All (λ d. lower_rune d ≡ d) w

Letter-iff : (c d : ℕ) → lower_rune d ≡ d → (lower_rune c ≡ d) ↔ Letter c d
unfolding lower_rune
Letter-iff c d h = (λ k. ground (arith, h, k), λ k. ground (arith, h, k))

Spells-iff : (s w : Text) → IsLower w → (text_eq (to_lower s) w ≡ true) ↔ Spells s w
unfolding to_lower text_eq
Spells-iff [] [] l = ground arith
Spells-iff [] (d ∷ w) l = ground arith
Spells-iff (c ∷ s) [] l = ground arith
Spells-iff (c ∷ s) (d ∷ w) (l, ls) = ground (arith, Letter-iff c d l, Spells-iff s w ls)

any_of_four :
    (a b c d : Bool) {P Q R S : Type 0}
    → (a ≡ true) ↔ P
    → (b ≡ true) ↔ Q
    → (c ≡ true) ↔ R
    → (d ≡ true) ↔ S
    → ((a || (b || (c || d))) ≡ true) ↔ (P ⊎ (Q ⊎ (R ⊎ S)))
any_of_four a b c d f g h k = ground (arith, f, g, h, k)

-- The test of the code.
is_secret_iff : (key : Text) → (is_secret key ≡ true) ↔ Secret key
unfolding is_secret Secret
is_secret_iff key =
    let s = trim_space key in
    any_of_four (text_eq (to_lower s) (codes "authorization"))
      (text_eq (to_lower s) (codes "api-key")) (text_eq (to_lower s) (codes "x-api-key"))
      (text_eq (to_lower s) (codes "cookie")) (Spells-iff s (codes "authorization") (ground arith))
      (Spells-iff s (codes "api-key") (ground arith))
      (Spells-iff s (codes "x-api-key") (ground arith))
      (Spells-iff s (codes "cookie") (ground arith))

-- Which entries may stand in a log of these headers.
pub data Shown : Header → Text → List Text → Type 0 where
  hidden : {h : Header} {key : Text} → Secret key → Shown h key (codes "[redacted]" ∷ [])
  as_sent :
      {h : Header} {key : Text} {vs : List Text}
      → (Secret key → ⊥)
      → Has (key, vs) h
      → Shown h key vs

Shown-more :
    (h : Header) (e : Text × List Text) (key : Text) (vs : List Text)
    → Shown h key vs
    → Shown (e ∷ h) key vs
Shown-more h e key vs (hidden s) = hidden s
Shown-more h e key vs (as_sent s m) = as_sent s (inr m)

every_entry_more :
    (h : Header) (e : Text × List Text) (l : Header)
    → All (λ (x : Text × List Text). Shown h x.0 x.1) l
    → All (λ (x : Text × List Text). Shown (e ∷ h) x.0 x.1) l
every_entry_more h e [] k = tt
every_entry_more h e (x ∷ l) (k, ks) = (Shown-more h e x.0 x.1 k, every_entry_more h e l ks)

plain_key : (key : Text) → is_secret key ≡ false → Secret key → ⊥
plain_key key e s = ground (arith, e, (is_secret_iff key).1 s)

-- Every entry that is logged is one of a secret key, with its values hidden, or one of the headers,
-- with a key that is not secret; and no key is lost. A key is secret if, less the blanks around it
-- and whatever the case of its letters, it is authorization, api-key, x-api-key or cookie.
pub redacted_headers-Shown :
    (h : Header)
    → All (λ (e : Text × List Text). Shown h e.0 e.1) (redacted_headers h)
      × (map (λ (e : Text × List Text). e.0) (redacted_headers h)
          ≡ map (λ (e : Text × List Text). e.0) h)
unfolding redacted_headers
redacted_headers-Shown [] = (tt, refl)
redacted_headers-Shown ((key, vs) ∷ h) =
    let (k, q) = redacted_headers-Shown h in
    let more = every_entry_more h (key, vs) (redacted_headers h) k in
    elim (Bool-cases (is_secret key)) [
      | inl e ↦ rw e ((hidden ((is_secret_iff key).0 e), more), ap (λ ks. key ∷ ks) q)
      | inr e ↦ rw e ((as_sent (plain_key key e) (inl refl), more), ap (λ ks. key ∷ ks) q)
    ]
