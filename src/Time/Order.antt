-- ===== src/Time/Order.antt =====
-- How the texts of two times compare, which is how SQLite compares them.
use native.Mathlib.Nat.{pow-suc}
use mathlib.Core.Bool.{and-false, or-false, and-true}
use token_gate.Base.{
  ℕ, zero, suc, ◌+◌, ◌/◌, ◌%◌, ◌^◌, ◌<◌, ◌≡◌, refl, ap, ◌∙◌, true, false, ◌&&◌, ◌||◌, [], ◌∷◌, ◌++◌,
  arith, ltb, ◌==◌, length, length-append,
}
use token_gate.Text.{Text, text_eq, text_lt}
use token_gate.Text.Laws.{text_eq_iff, text_eq_refl}
use token_gate.Time.{Time, IsValid, seconds_of, fields, before, pad, fraction, stamp, format_time}

pub text_lt-append :
    (p q s t : Text)
    → length p ≡ length q
    → text_lt (p ++ s) (q ++ t) ≡ (text_lt p q || (text_eq p q && text_lt s t))
unfolding text_lt text_eq
text_lt-append [] [] s t h = refl
text_lt-append [] (b ∷ q) s t h = absurd (omega arith)
text_lt-append (a ∷ p) [] s t h = absurd (omega arith)
text_lt-append (a ∷ p) (b ∷ q) s t h = ground (arith, text_lt-append p q s t)

pub text_eq-append :
    (p q s t : Text)
    → length p ≡ length q
    → text_eq (p ++ s) (q ++ t) ≡ (text_eq p q && text_eq s t)
unfolding text_eq
text_eq-append [] [] s t h = refl
text_eq-append [] (b ∷ q) s t h = absurd (omega arith)
text_eq-append (a ∷ p) [] s t h = absurd (omega arith)
text_eq-append (a ∷ p) (b ∷ q) s t h = ground (arith, text_eq-append p q s t)

length-pad : (w n : ℕ) → length (pad w n) ≡ w
unfolding pad
length-pad zero n = refl
length-pad (suc w) n =
    omega (arith, length-append (pad w (n / 10)) ((b'0' + n % 10) ∷ []), length-pad w (n / 10))

lengths-pad : (w a b : ℕ) → length (pad w a) ≡ length (pad w b)
lengths-pad w a b = omega (arith, length-pad w a, length-pad w b)

below_div : (w n : ℕ) → n < 10 ^ suc w → n / 10 < 10 ^ w
below_div w n h = omega (arith, pow-suc 10 w)

eq_digits : (a b : ℕ) → (a / 10 == b / 10 && (48 + a % 10 == 48 + b % 10 && true)) ≡ (a == b)
eq_digits a b = ground arith

lt_digits :
    (a b : ℕ)
    → (ltb (a / 10) (b / 10)
        || (a / 10 == b / 10
            && (ltb (48 + a % 10) (48 + b % 10) || (48 + a % 10 == 48 + b % 10 && false))))
      ≡ ltb a b
lt_digits a b = ground arith

pub text_eq-pad : (w a b : ℕ) → a < 10 ^ w → b < 10 ^ w → text_eq (pad w a) (pad w b) ≡ (a == b)
unfolding pad text_eq
text_eq-pad zero a b ha hb = ground arith
text_eq-pad (suc w) a b ha hb =
    rw (text_eq-append (pad w (a / 10)) (pad w (b / 10)) _ _ (lengths-pad w (a / 10) (b / 10)))
      (rw (text_eq-pad w (a / 10) (b / 10) (below_div w a ha) (below_div w b hb)) (eq_digits a b))

pub text_lt-pad : (w a b : ℕ) → a < 10 ^ w → b < 10 ^ w → text_lt (pad w a) (pad w b) ≡ ltb a b
unfolding pad text_lt text_eq
text_lt-pad zero a b ha hb = ground arith
text_lt-pad (suc w) a b ha hb =
    rw (text_lt-append (pad w (a / 10)) (pad w (b / 10)) _ _ (lengths-pad w (a / 10) (b / 10))) (
      rw
        (
          text_lt-pad w (a / 10) (b / 10) (below_div w a ha) (below_div w b hb),
          text_eq-pad w (a / 10) (b / 10) (below_div w a ha) (below_div w b hb),
        )
        (lt_digits a b))

-- Behind a padded field and its separator.
module _ (w a b : ℕ) (ha : a < 10 ^ w) (hb : b < 10 ^ w) (c : ℕ) (p q : Text) where
  lt_field : text_lt (pad w a ++ c ∷ p) (pad w b ++ c ∷ q) ≡ (ltb a b || (a == b && text_lt p q))
  lt_field =
      rw
        (
          text_lt-append (pad w a) (pad w b) (c ∷ p) (c ∷ q) (lengths-pad w a b),
          text_lt-pad w a b ha hb,
          text_eq-pad w a b ha hb,
        )
        (unfold text_lt in ground arith)

  eq_field : text_eq (pad w a ++ c ∷ p) (pad w b ++ c ∷ q) ≡ (a == b && text_eq p q)
  eq_field =
      rw
        (
          text_eq-append (pad w a) (pad w b) (c ∷ p) (c ∷ q) (lengths-pad w a b),
          text_eq-pad w a b ha hb,
        )
        (unfold text_eq in ground arith)

module _ {s t : Time} (vs : IsValid s) (vt : IsValid t) where
  length-stamp : length (stamp s) ≡ length (stamp t)
  unfolding stamp
  length-stamp = simp (length-append, length-pad)

  text_lt-stamp : text_lt (stamp s) (stamp t) ≡ text_lt (seconds_of s) (seconds_of t)
  unfolding stamp
  text_lt-stamp =
      rw
        (
          lt_field 4 s.year t.year vs.year_lt vt.year_lt,
          lt_field 2 s.month t.month vs.month_lt vt.month_lt,
          lt_field 2 s.day t.day vs.day_lt vt.day_lt,
          lt_field 2 s.hour t.hour vs.hour_lt vt.hour_lt,
          lt_field 2 s.minute t.minute vs.minute_lt vt.minute_lt,
          text_lt-pad 2 s.second t.second vs.second_lt vt.second_lt,
        )
        (unfold text_lt in simp (and-false, or-false))

  text_eq-stamp : text_eq (stamp s) (stamp t) ≡ text_eq (seconds_of s) (seconds_of t)
  unfolding stamp
  text_eq-stamp =
      rw
        (
          eq_field 4 s.year t.year vs.year_lt vt.year_lt,
          eq_field 2 s.month t.month vs.month_lt vt.month_lt,
          eq_field 2 s.day t.day vs.day_lt vt.day_lt,
          eq_field 2 s.hour t.hour vs.hour_lt vt.hour_lt,
          eq_field 2 s.minute t.minute vs.minute_lt vt.minute_lt,
          text_eq-pad 2 s.second t.second vs.second_lt vt.second_lt,
        )
        (unfold text_eq in simp and-true)

  text_lt-format_time : text_lt (format_time s) (format_time t) ≡ (
      text_lt (seconds_of s) (seconds_of t)
      || (text_eq (seconds_of s) (seconds_of t)
          && text_lt (fraction s.nanos ++ b'Z' ∷ []) (fraction t.nanos ++ b'Z' ∷ [])))
  unfolding format_time
  text_lt-format_time =
      rw (text_lt-append (stamp s) (stamp t) _ _ length-stamp, text_lt-stamp, text_eq-stamp)

pub text_lt_asymm : (a b : Text) → text_lt a b ≡ true → text_lt b a ≡ false
unfolding text_lt
text_lt_asymm [] [] h = cc
text_lt_asymm [] (y ∷ b) h = refl
text_lt_asymm (x ∷ a) [] h = cc
text_lt_asymm (x ∷ a) (y ∷ b) h = ground (arith, text_lt_asymm a b)

pub text_lt_irrefl : (a : Text) → text_lt a a ≡ false
unfolding text_lt
text_lt_irrefl [] = refl
text_lt_irrefl (x ∷ a) = ground (arith, text_lt_irrefl a)

text_lt-ne : (a b : Text) → text_lt a b ≡ true → text_eq b a ≡ false
unfolding text_lt text_eq
text_lt-ne [] [] h = cc
text_lt-ne [] (y ∷ b) h = refl
text_lt-ne (x ∷ a) [] h = cc
text_lt-ne (x ∷ a) (y ∷ b) h = ground (arith, text_lt-ne a b)

module _ {s t : Time} (vs : IsValid s) (vt : IsValid t) where
  -- Texts of times in different seconds compare as the times do.
  pub text_lt_of_seconds_lt :
      text_lt (seconds_of s) (seconds_of t) ≡ true
      → (text_lt (format_time s) (format_time t) ≡ true)
        × (text_lt (format_time t) (format_time s) ≡ false)
  text_lt_of_seconds_lt h = (
    rw (text_lt-format_time vs vt, h),
    rw (
      text_lt-format_time vt vs,
      text_lt_asymm (seconds_of s) (seconds_of t) h,
      text_lt-ne (seconds_of s) (seconds_of t) h,
    ),
  )

  -- Within one second a time with a fraction sorts before the whole second that it follows.
  pub text_lt_of_whole_second :
      seconds_of s ≡ seconds_of t
      → s.nanos ≡ 0
      → 0 < t.nanos
      → text_lt (format_time t) (format_time s) ≡ true
  text_lt_of_whole_second e z p =
      rw
        (
          text_lt-format_time vt vs,
          e,
          z,
          text_lt_irrefl (seconds_of t),
          (text_eq_iff (seconds_of t) (seconds_of t)).1 refl,
        )
        (unfold fraction text_lt in ground arith)

-- In one second the fractions decide.
pub before_of_nanos_lt :
    (s t : Time) → seconds_of s ≡ seconds_of t → s.nanos < t.nanos → before s t ≡ true
unfolding before text_lt
before_of_nanos_lt s t e lt =
    ap (λ (p : Text). text_lt (p ++ s.nanos ∷ []) (fields t)) e
    ∙ (text_lt-append (seconds_of t) (seconds_of t) (s.nanos ∷ []) (t.nanos ∷ []) refl
        ∙ rw (text_lt_irrefl (seconds_of t), text_eq_refl (seconds_of t)) (ground arith))
