-- ===== src/Scheduler/Selection.antt =====
-- What `SelectBackend` selects.
use token_gate.Base.{
  ◌≡◌, refl, sym, ap, ◌∙◌, ◌↔◌, inl, inr, Bool, true, false, none, some, List, [], ◌∷◌, arith,
  Bool-cases, keep, Has,
}
use token_gate.Domain.{status_normal, Backend}
use token_gate.Scheduler.{
  supports_backend_model, is_candidate, candidates, selection_of, select_backend,
}
use token_gate.Scheduler.Order.{InOrder, sort_stable-InOrder, sort_stable-Has}
use token_gate.Store.{Db}
use token_gate.Store.Backends.{list_backends, recover_expired_backends}
use token_gate.Text.{Text}
use token_gate.Text.Laws.{text_eq_iff}
use token_gate.Time.{Time}

kept :
    {A : Type 0} (p : A → Bool) (a x : A) (xs : List A)
    → p x ≡ true
    → Has a (keep p xs) ↔ (Has a xs × (p a ≡ true))
    → Has a (keep p (x ∷ xs)) ↔ (Has a (x ∷ xs) × (p a ≡ true))
kept p a x xs h (f, g) =
    rw (h, keep)
      (
        elim [ inl e ↦ (inl e, ap p e ∙ h) | inr k ↦ (inr (f k).0, (f k).1) ],
        λ (k, t). elim k [ inl e ↦ inl e | inr m ↦ inr (g (m, t)) ],
      )

dropped :
    {A : Type 0} (p : A → Bool) (a x : A) (xs : List A)
    → p x ≡ false
    → Has a (keep p xs) ↔ (Has a xs × (p a ≡ true))
    → Has a (keep p (x ∷ xs)) ↔ (Has a (x ∷ xs) × (p a ≡ true))
dropped p a x xs h (f, g) =
    rw (h, keep)
      (
        λ k. (inr (f k).0, (f k).1),
        λ (k, t). elim k [
          | inl e ↦ let clash : true ≡ false = sym t ∙ (ap p e ∙ h) in cc
          | inr m ↦ g (m, t)
        ],
      )

keep-Has :
    {A : Type 0} (p : A → Bool) (a : A) (xs : List A)
    → Has a (keep p xs) ↔ (Has a xs × (p a ≡ true))
keep-Has p a [] = (λ h. absurd h, λ h. absurd h.0)
keep-Has p a (x ∷ xs) = elim (Bool-cases (p x)) [
  | inl taken ↦ kept p a x xs taken (keep-Has p a xs)
  | inr left ↦ dropped p a x xs left (keep-Has p a xs)
]

is_candidate_iff :
    (model : Text) (b : Backend)
    → (is_candidate model b ≡ true)
      ↔ ((b.status ≡ status_normal) × (supports_backend_model b model ≡ true))
unfolding is_candidate
is_candidate_iff model b = (
  λ h. ground (arith, text_eq_iff b.status status_normal),
  λ (n, s). ground (arith, text_eq_iff b.status status_normal),
)

candidates-Has :
    (model : Text) (db : Db) (b : Backend)
    → Has b (candidates model db) ↔ (
        Has b (list_backends db)
        × ((b.status ≡ status_normal) × (supports_backend_model b model ≡ true)))
unfolding candidates
candidates-Has model db b =
    let (f, g) = sort_stable-Has b (keep (is_candidate model) (list_backends db)) in
    let (p, q) = keep-Has (is_candidate model) b (list_backends db) in
    let (s, t) = is_candidate_iff model b in
    (λ h. ((p (f h)).0, s (p (f h)).1), λ (h, k). g (q (h, t k)))

selection_of-none : (cs : List Backend) → selection_of cs ≡ none → (b : Backend) → Has b cs → ⊥
unfolding selection_of
selection_of-none [] e b h = h
selection_of-none (c ∷ cs) e b h = cc

none_of_nothing : (cs : List Backend) → ((b : Backend) → Has b cs → ⊥) → selection_of cs ≡ none
unfolding selection_of
none_of_nothing [] f = refl
none_of_nothing (c ∷ cs) f = absurd (f c (inl refl))

-- The candidates, if there are any, stand in order, highest weight first and lowest id first among
-- equal weights, and they are exactly the backends that are normal and support the model after the
-- expired ones have been recovered.
pub select_backend-some :
    (now : Time) (endpoint model : Text) (db : Db) {cs : List Backend}
    → (select_backend now endpoint model db).1 ≡ some cs
    → InOrder cs
      × ((b : Backend)
          → Has b cs ↔ (
              Has b (list_backends (recover_expired_backends now db))
              × ((b.status ≡ status_normal) × (supports_backend_model b model ≡ true))))
unfolding select_backend
select_backend-some now endpoint model db {cs} h =
    let found : candidates model (recover_expired_backends now db) ≡ cs = ground arith in
    rw (← found) (
      unfold candidates in
          sort_stable-InOrder
            (keep (is_candidate model) (list_backends (recover_expired_backends now db))),
      candidates-Has model (recover_expired_backends now db),
    )

-- `ErrNoBackendAvailable` is returned exactly when no backend is normal and supports the model
-- after the expired ones have been recovered.
pub select_backend-none :
    (now : Time) (endpoint model : Text) (db : Db)
    → ((select_backend now endpoint model db).1 ≡ none) ↔ (
        (b : Backend)
        → Has b (list_backends (recover_expired_backends now db))
        → b.status ≡ status_normal
        → supports_backend_model b model ≡ true
        → ⊥)
unfolding select_backend
select_backend-none now endpoint model db =
    let after = recover_expired_backends now db in
    (
      λ e b listed normal supports.
          selection_of-none (candidates model after) e b
            ((candidates-Has model after b).1 (listed, (normal, supports))),
      λ f. none_of_nothing (candidates model after) (λ b h.
          let (listed, (normal, supports)) = (candidates-Has model after b).0 h in
          f b listed normal supports),
    )
