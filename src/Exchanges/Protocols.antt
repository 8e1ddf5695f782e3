-- ===== src/Exchanges/Protocols.antt =====
-- Which backends a conversion of an exchange is for.
use token_gate.Base.{
  ◌≡◌, refl, ap, ◌∙◌, ◌⊎◌, inl, inr, Bool, true, false, not, ◌&&◌, [], ◌∷◌, arith, if◌then◌else◌,
  and_true,
}
use token_gate.Domain.{
  endpoint_responses, endpoint_messages, protocol_openai, protocol_anthropic, protocol_both,
  Backend, one_of, normalize_backend_protocol,
}
use token_gate.Proxy.{endpoint_for_path, effective_backend_protocol_for_path}
use token_gate.Text.{Text, codes, text_eq, trim_space, to_lower}
use token_gate.Text.Laws.{text_eq_iff}

-- The two tests of `prepare_exchange`.
abbrev pub to_open_ai : Text → Backend → Bool
to_open_ai path backend =
    text_eq (endpoint_for_path path) endpoint_messages
    && text_eq (effective_backend_protocol_for_path backend path) protocol_openai

abbrev pub to_anthropic : Text → Backend → Bool
to_anthropic path backend =
    text_eq (endpoint_for_path path) endpoint_responses
    && text_eq (effective_backend_protocol_for_path backend path) protocol_anthropic

one_of_three :
    {A : Type 0} (t u : Bool) (x y z : A)
    → ((if t then x else if u then y else z) ≡ z)
      ⊎ (((if t then x else if u then y else z) ≡ x) ⊎ ((if t then x else if u then y else z) ≡ y))
one_of_three true u x y z = inr (inl refl)
one_of_three false true x y z = inr (inr refl)
one_of_three false false x y z = inl refl

-- The protocols that a backend has after the normaliser.
pub protocol_cases :
    (p : Text)
    → (normalize_backend_protocol p ≡ protocol_openai)
      ⊎ ((normalize_backend_protocol p ≡ protocol_anthropic)
          ⊎ (normalize_backend_protocol p ≡ protocol_both))
unfolding normalize_backend_protocol
protocol_cases p =
    let v = to_lower (trim_space p) in
    one_of_three (one_of v (protocol_anthropic ∷ codes "claude" ∷ []))
      (one_of v
        (protocol_both ∷ codes "dual" ∷ codes "openai+anthropic" ∷ codes "anthropic+openai" ∷ []))
      protocol_anthropic protocol_both protocol_openai

-- The protocol of a backend for a path, where its own protocol is known.
pub effective :
    (p : Text) (backend : Backend) (path : Text)
    → normalize_backend_protocol backend.protocol ≡ p
    → effective_backend_protocol_for_path backend path ≡ (
        if not (text_eq p protocol_both)
        then p
        else if text_eq (endpoint_for_path path) endpoint_messages
        then protocol_anthropic
        else protocol_openai)
effective p backend path h = unfold effective_backend_protocol_for_path in rw h refl

never : (t : Bool) → t ≡ true → t ≡ false → ⊥
never t h k = ground (arith, h, k)

-- The protocol of a backend that has both, by the path.
effective_both :
    (t : Bool) (backend : Backend) (path : Text)
    → normalize_backend_protocol backend.protocol ≡ protocol_both
    → text_eq (endpoint_for_path path) endpoint_messages ≡ t
    → effective_backend_protocol_for_path backend path
      ≡ (if t then protocol_anthropic else protocol_openai)
unfolding text_eq
effective_both t backend path e m = effective protocol_both backend path e ∙ rw m refl

-- Two protocols that differ.
apart : (q p r : Text) → q ≡ p → text_eq p r ≡ false → text_eq q r ≡ true → ⊥
apart q p r e n h = never (text_eq q r) h (ap (λ x. text_eq x r) e ∙ n)

endpoints_apart :
    (s : Text) → text_eq s endpoint_responses ≡ true → text_eq s endpoint_messages ≡ false
endpoints_apart s h =
    ap (λ x. text_eq x endpoint_messages) ((text_eq_iff s endpoint_responses).0 h)
    ∙ (unfold text_eq in refl)

-- Which backends a conversion is for.
pub to_open_ai_protocol :
    (path : Text) (backend : Backend)
    → to_open_ai path backend ≡ true
    → normalize_backend_protocol backend.protocol ≡ protocol_openai
to_open_ai_protocol path backend h =
    let (m, o) = and_true _ _ h in
    let q = effective_backend_protocol_for_path backend path in
    elim (protocol_cases backend.protocol) [
      | inl e ↦ e
      | inr (inl e) ↦ absurd (
          apart q protocol_anthropic protocol_openai
            (unfold text_eq in effective protocol_anthropic backend path e) (unfold text_eq in refl)
            o)
      | inr (inr e) ↦ absurd (
          apart q protocol_anthropic protocol_openai (effective_both true backend path e m)
            (unfold text_eq in refl) o)
    ]

pub to_anthropic_protocol :
    (path : Text) (backend : Backend)
    → to_anthropic path backend ≡ true
    → normalize_backend_protocol backend.protocol ≡ protocol_anthropic
to_anthropic_protocol path backend h =
    let (m, o) = and_true _ _ h in
    let q = effective_backend_protocol_for_path backend path in
    elim (protocol_cases backend.protocol) [
      | inl e ↦ absurd (
          apart q protocol_openai protocol_anthropic
            (unfold text_eq in effective protocol_openai backend path e) (unfold text_eq in refl) o)
      | inr (inl e) ↦ e
      | inr (inr e) ↦ absurd (
          apart q protocol_openai protocol_anthropic
            (effective_both false backend path e (endpoints_apart (endpoint_for_path path) m))
            (unfold text_eq in refl) o)
    ]
