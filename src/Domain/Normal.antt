-- ===== src/Domain/Normal.antt =====
-- Normalisation maps onto its canonical values, and changes none of them.
use token_gate.Base.{◌≡◌, ◌⊎◌, inl, inr, [], arith}
use token_gate.Domain.{
  status_normal, status_abnormal, status_disabled, protocol_openai, protocol_anthropic,
  protocol_both, type_new_api, type_sub2api, normalize_backend_protocol, normalize_backend_type,
  normalize_backend_status,
}
use token_gate.Text.{Text, trim_space, to_lower}

abbrev pub IsProtocol : Text → Type 0
IsProtocol p = (p ≡ protocol_openai) ⊎ ((p ≡ protocol_anthropic) ⊎ (p ≡ protocol_both))

abbrev pub IsStatus : Text → Type 0
IsStatus s = (s ≡ status_normal) ⊎ ((s ≡ status_abnormal) ⊎ (s ≡ status_disabled))

pub normalize_backend_protocol-IsProtocol : (v : Text) → IsProtocol (normalize_backend_protocol v)
unfolding normalize_backend_protocol
normalize_backend_protocol-IsProtocol v = ground arith

pub normalize_backend_status-IsStatus : (v : Text) → IsStatus (normalize_backend_status v)
unfolding normalize_backend_status
normalize_backend_status-IsStatus v = ground arith

pub normalize_protocol_of_IsProtocol : (p : Text) → IsProtocol p → normalize_backend_protocol p ≡ p
unfolding normalize_backend_protocol trim_space to_lower
normalize_protocol_of_IsProtocol p (inl e) = rw e
normalize_protocol_of_IsProtocol p (inr (inl e)) = rw e
normalize_protocol_of_IsProtocol p (inr (inr e)) = rw e

pub normalize_status_of_IsStatus : (s : Text) → IsStatus s → normalize_backend_status s ≡ s
unfolding normalize_backend_status trim_space to_lower
normalize_status_of_IsStatus s (inl e) = rw e
normalize_status_of_IsStatus s (inr (inl e)) = rw e
normalize_status_of_IsStatus s (inr (inr e)) = rw e

abbrev IsType : Text → Type 0
IsType s = (s ≡ []) ⊎ ((s ≡ type_new_api) ⊎ (s ≡ type_sub2api))

normalize_backend_type-IsType : (v : Text) → IsType (normalize_backend_type v)
unfolding normalize_backend_type
normalize_backend_type-IsType v = ground arith

normalize_type_of_IsType : (s : Text) → IsType s → normalize_backend_type s ≡ s
unfolding normalize_backend_type trim_space to_lower
normalize_type_of_IsType s (inl e) = rw e
normalize_type_of_IsType s (inr (inl e)) = rw e
normalize_type_of_IsType s (inr (inr e)) = rw e

pub normalize_backend_type_idem :
    (v : Text) → normalize_backend_type (normalize_backend_type v) ≡ normalize_backend_type v
normalize_backend_type_idem v = normalize_type_of_IsType _ (normalize_backend_type-IsType v)
