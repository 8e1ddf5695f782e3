-- ===== src/Store/Backends/Recovery.antt =====
-- Which backends `RecoverExpiredBackends` recovers. SQLite compares the texts of the times.
use token_gate.Base.{
  ◌<◌, ◌≡◌, refl, sym, ap, ◌∙◌, ◌≢◌, true, false, not, none, some, arith, if◌then◌else◌,
}
use token_gate.Domain.{status_normal, status_abnormal, Backend}
use token_gate.Store.Backends.{is_due, recover_row}
use token_gate.Text.{text_eq, is_empty, text_lt}
use token_gate.Text.Laws.{text_eq_iff}
use token_gate.Time.{Time, IsValid, seconds_of, before, format_time}
use token_gate.Time.Order.{
  text_lt_asymm, text_lt_of_seconds_lt, text_lt_of_whole_second, before_of_nanos_lt,
}

format_time-ne_nil : (t : Time) → is_empty (format_time t) ≡ false
unfolding format_time is_empty
format_time-ne_nil t = refl

abbrev pub recovered : Time → Backend → Backend
recovered now b = record b {
  status = status_normal;
  consecutive_failures = 0;
  recover_at = none;
  updated_at = now;
}

is_due-some : (now r : Time) → is_due now (some r) ≡ not (text_lt (format_time now) (format_time r))
unfolding is_due
is_due-some now r = rw (format_time-ne_nil r)

recover_row_abnormal :
    (now r : Time) (b : Backend)
    → b.status ≡ status_abnormal
    → b.recover_at ≡ some r
    → recover_row now b
      ≡ (if not (text_lt (format_time now) (format_time r)) then recovered now b else b)
unfolding recover_row text_eq
recover_row_abnormal now r b abnormal at =
    let due : is_due now b.recover_at ≡ not (text_lt (format_time now) (format_time r)) =
      ap (is_due now) at ∙ is_due-some now r in
    let named : text_eq b.status status_abnormal ≡ true =
      (text_eq_iff b.status status_abnormal).1 abnormal in
    rw (due, named)

module _ (now r : Time) (b : Backend) (vn : IsValid now) (vr : IsValid r) where
  -- An abnormal backend whose time of recovery lies in an earlier second than `now` is recovered;
  -- one whose time of recovery lies in a later second than `now` is left as it is.
  pub recover_row_by_seconds :
      b.status ≡ status_abnormal
      → b.recover_at ≡ some r
      → (text_lt (seconds_of r) (seconds_of now) ≡ true → recover_row now b ≡ recovered now b)
        × (text_lt (seconds_of now) (seconds_of r) ≡ true → recover_row now b ≡ b)
  recover_row_by_seconds abnormal at = (
    λ past. recover_row_abnormal now r b abnormal at ∙ rw ((text_lt_of_seconds_lt vr vn past).1),
    λ later. recover_row_abnormal now r b abnormal at ∙ rw ((text_lt_of_seconds_lt vn vr later).0),
  )

  -- A time of recovery on a whole second that passed less than a second ago is missed, though it
  -- lies before `now`; one with a fraction is taken up to a second early, at a `now` on the whole
  -- second that it follows.
  pub recover_row_within_a_second :
      b.status ≡ status_abnormal
      → b.recover_at ≡ some r
      → seconds_of r ≡ seconds_of now
      → (r.nanos ≡ 0 → 0 < now.nanos → (before r now ≡ true) × (recover_row now b ≡ b))
        × (now.nanos ≡ 0
            → 0 < r.nanos
            → (before now r ≡ true) × (recover_row now b ≡ recovered now b))
  recover_row_within_a_second abnormal at same = (
    λ whole more. (
      before_of_nanos_lt r now same (omega arith),
      recover_row_abnormal now r b abnormal at ∙ rw (text_lt_of_whole_second vr vn same whole more),
    ),
    λ whole more. (
      before_of_nanos_lt now r (sym same) (omega arith),
      recover_row_abnormal now r b abnormal at
          ∙ rw (text_lt_asymm _ _ (text_lt_of_whole_second vn vr (sym same) whole more)),
    ),
  )

-- A backend that is normal or disabled is never touched.
pub recover_row_not_abnormal :
    (now : Time) (b : Backend) → b.status ≢ status_abnormal → recover_row now b ≡ b
unfolding recover_row
recover_row_not_abnormal now b h = ground (arith, text_eq_iff b.status status_abnormal)
