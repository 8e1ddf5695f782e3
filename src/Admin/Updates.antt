-- ===== src/Admin/Updates.antt =====
-- What an update by the console does to the breaker of a backend.
use token_gate.Base.{
  ◌≡◌, refl, sym, subst, ◌↔◌, ◌⊎◌, inl, inr, Bool, true, false, not, Option, none, some, [], ◌∷◌,
  arith, if◌then◌else◌, OptionAll,
}
use token_gate.Admin.{
  BackendForm, decode_json_map, Written, wrote, panicked, with_user_id,
  console_account_json_with_user_id, with_form, with_new_status, changed_backend,
}
use token_gate.Domain.{status_normal, status_disabled, Backend, one_of}
use token_gate.Failover.Entries.{account}
use token_gate.Json.{
  Json, null_value, boolean, number, string, array, object, Object, entries_of, Codec,
}
use token_gate.Text.{Text, text_eq, is_empty, trim_space}

-- The breaker as it was, or reset together with the status.
abbrev pub Breaker : Text → Backend → Backend → Type 0
Breaker status b c =
    ((c.status ≡ b.status)
      × ((c.consecutive_failures ≡ b.consecutive_failures) × (c.recover_at ≡ b.recover_at)))
    ⊎ ((c.status ≡ status)
        × ((one_of status (status_normal ∷ status_disabled ∷ []) ≡ true)
            × ((c.consecutive_failures ≡ 0) × (c.recover_at ≡ none))))

with_new_status_by :
    (empty known same : Bool) (status : Text) (b : Backend)
    → one_of status (status_normal ∷ status_disabled ∷ []) ≡ known
    → OptionAll (Breaker status b) (
        if empty
        then some b
        else if not known
        then none
        else if same
        then some b
        else some (record b { status = status; consecutive_failures = 0; recover_at = none }))
with_new_status_by true known same status b h = inl (refl, (refl, refl))
with_new_status_by false false same status b h = tt
with_new_status_by false true true status b h = inl (refl, (refl, refl))
with_new_status_by false true false status b h = inr (refl, (h, (refl, refl)))

-- The backend that an update writes, made of the form and of the stored one, has its breaker as it
-- was, or a new status, which is normal or disabled, with no failures and no time of recovery: an
-- update by this form never makes a backend abnormal that was not.
pub changed_backend-Breaker :
    (f : BackendForm) (account : Text) (b c : Backend)
    → with_new_status f.status (changed_backend f account b) ≡ some c
    → Breaker f.status b c
unfolding with_new_status changed_backend with_form
changed_backend-Breaker f account b c h =
    let q = changed_backend f account b in
    let known = one_of f.status (status_normal ∷ status_disabled ∷ []) in
    subst (OptionAll (Breaker f.status b)) h
      (with_new_status_by (is_empty f.status) known (text_eq q.status f.status) f.status q refl)

-- Which texts are written.
abbrev IsPanic : Written → Type 0
IsPanic (wrote t) = ⊥
IsPanic panicked = Unit

abbrev IsNull : Option Json → Type 0
IsNull (some null_value) = Unit
IsNull _ = ⊥

with_user_id-some :
    (codec : Codec) (t : Bool) (id : Text) (m : Object)
    → with_user_id codec t id (some m) ≡ panicked
    → ⊥
unfolding with_user_id
with_user_id-some codec true id m h = subst IsPanic (sym h) tt
with_user_id-some codec false id m h = subst IsPanic (sym h) tt

panics_on_null :
    (codec : Codec) (t : Bool) (id : Text) (o : Option Json)
    → (with_user_id codec t id (decode_json_map o) ≡ panicked)
      ↔ ((o ≡ some null_value) × (t ≡ false))
unfolding with_user_id decode_json_map
panics_on_null codec true id (some null_value) =
    (λ h. absurd (subst IsPanic (sym h) tt), λ h. ground (arith, h.1))
panics_on_null codec false id (some null_value) = (λ h. (refl, refl), λ h. refl)
panics_on_null codec t id none =
    (λ h. absurd (with_user_id-some codec t id [] h), λ h. absurd (subst IsNull (sym (h.0)) tt))
panics_on_null codec t id (some (boolean b)) =
    (λ h. absurd (with_user_id-some codec t id [] h), λ h. absurd (subst IsNull (sym (h.0)) tt))
panics_on_null codec t id (some (number n d)) =
    (λ h. absurd (with_user_id-some codec t id [] h), λ h. absurd (subst IsNull (sym (h.0)) tt))
panics_on_null codec t id (some (string s)) =
    (λ h. absurd (with_user_id-some codec t id [] h), λ h. absurd (subst IsNull (sym (h.0)) tt))
panics_on_null codec t id (some (array vs)) =
    (λ h. absurd (with_user_id-some codec t id [] h), λ h. absurd (subst IsNull (sym (h.0)) tt))
panics_on_null codec t id (some (object m)) = (
  λ h. absurd (with_user_id-some codec t id (entries_of m) h),
  λ h. absurd (subst IsNull (sym (h.0)) tt),
)

-- The identifier of a user cannot be stored, and the handler panics, exactly where the stored
-- account is null and the identifier is not blank.
pub console_account_json_with_user_id-panicked :
    (codec : Codec) (raw user_id : Text)
    → (console_account_json_with_user_id codec raw user_id ≡ panicked)
      ↔ ((codec.unmarshal raw ≡ some null_value) × (is_empty (trim_space user_id) ≡ false))
unfolding console_account_json_with_user_id
console_account_json_with_user_id-panicked codec raw user_id =
    panics_on_null codec (is_empty (trim_space user_id)) (trim_space user_id) (codec.unmarshal raw)
