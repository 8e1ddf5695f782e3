-- ===== src/Scheduler/Patterns.antt =====
-- Which models a backend supports.
-- The values that a trimmed pattern accepts.
use token_gate.Base.{
  ◌≡◌, refl, ◌↔◌, inl, inr, true, false, some, List, [], ◌∷◌, arith, Bool-cases, Option-cases,
}
use token_gate.Glob.{Term, top, read_terms, path_match}
use token_gate.Glob.Matching.{Matches, match_terms_iff}
use token_gate.Scheduler.{match_pattern}
use token_gate.Text.{Text, codes, text_eq, is_empty, trim_space, contains_any}
use token_gate.Text.Laws.{text_eq_iff}

pub data Accepts (p v : Text) : Type 0 where
  blank : p ≡ [] → Accepts p v
  lone_star : p ≡ codes "*" → Accepts p v
  exact : contains_any (codes "*?") p ≡ false → p ≡ v → Accepts p v
  glob :
      contains_any (codes "*?") p ≡ true
      → (ts : List Term) → read_terms top p ≡ some ts
      → Matches ts v
      → Accepts p v

path_match_sound :
    (p v : Text)
    → path_match p v ≡ true
    → (ts : List Term) × (read_terms top p ≡ some ts) × Matches ts v
unfolding path_match
path_match_sound p v h = elim (Option-cases (read_terms top p)) [
  | inl bad ↦ let clash : false ≡ true = rw (bad, path_match) at h in cc
  | inr (ts, good) ↦ (ts, good, (match_terms_iff ts v).0 (rw (good, path_match) at h))
]

path_match_complete :
    (p v : Text) (ts : List Term)
    → read_terms top p ≡ some ts
    → Matches ts v
    → path_match p v ≡ true
unfolding path_match
path_match_complete p v ts good m = rw (good, path_match) ((match_terms_iff ts v).1 m)

is_empty_nil : (p : Text) → is_empty p ≡ true → p ≡ []
unfolding is_empty
is_empty_nil [] h = refl
is_empty_nil (c ∷ p) h = cc

match_sound : (p v : Text) → match_pattern p v ≡ true → Accepts (trim_space p) v
unfolding match_pattern
match_sound p v h = elim (Bool-cases (is_empty (trim_space p))) [
  | inl e ↦ blank (is_empty_nil (trim_space p) e)
  | inr text ↦ elim (Bool-cases (text_eq (trim_space p) (codes "*"))) [
    | inl e ↦ lone_star ((text_eq_iff (trim_space p) (codes "*")).0 e)
    | inr other ↦ elim (Bool-cases (contains_any (codes "*?") (trim_space p))) [
      | inl wild ↦
          let (ts, good, m) = path_match_sound (trim_space p) v (ground arith) in
          glob wild ts good m
      | inr plain ↦ exact plain ((text_eq_iff (trim_space p) v).0 (ground arith))
    ]
  ]
]

match_complete : (p v : Text) → Accepts (trim_space p) v → match_pattern p v ≡ true
unfolding match_pattern is_empty
match_complete p v (blank e) = rw e
match_complete p v (lone_star e) = rw (e)
match_complete p v (exact plain e) = ground (arith, plain, (text_eq_iff (trim_space p) v).1 e)
match_complete p v (glob wild ts good m) =
    ground (arith, wild, path_match_complete (trim_space p) v ts good m)

-- A pattern of a backend accepts a model exactly when, trimmed, it is blank or `*`, or it has no
-- wildcard and is the model, or it is a well-formed pattern of `path.Match` that the model
-- matches.
pub match_pattern_iff : (p v : Text) → (match_pattern p v ≡ true) ↔ Accepts (trim_space p) v
match_pattern_iff p v = (match_sound p v, match_complete p v)
