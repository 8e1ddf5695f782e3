-- ===== src/Time.antt =====
-- `time.Time` in UTC, and the texts that internal/store/store.go writes for it (`formatTime`).
-- A time is its calendar fields, so that the text is read off; years 0 to 9999.
pub mod Order
use token_gate.Base.{
  ℕ, zero, suc, ◌+◌, ◌*◌, ◌/◌, ◌%◌, ◌<◌, Bool, not, ◌&&◌, ◌||◌, Option, none, some, List, [], ◌∷◌,
  ◌++◌, ltb, ◌==◌, if◌then◌else◌,
}
use token_gate.Text.{Text, text_eq, text_lt}

pub record Time : Type 0 where
  pub year : ℕ
  pub month : ℕ
  pub day : ℕ
  pub hour : ℕ
  pub minute : ℕ
  pub second : ℕ
  pub nanos : ℕ

-- What `time.Time` guarantees of the fields, in the years that RFC 3339 can write.
pub record IsValid (t : Time) : Type 0 where
  pub year_lt : t.year < 10000
  pub month_lt : t.month < 100
  pub day_lt : t.day < 100
  pub hour_lt : t.hour < 100
  pub minute_lt : t.minute < 100
  pub second_lt : t.second < 100
  pub nanos_lt : t.nanos < 1_000_000_000

-- `time.Time{}`
abbrev pub zero_time : Time
zero_time = record { year = 1; month = 1; day = 1; hour = 0; minute = 0; second = 0; nanos = 0 }

-- The fields down to the second, and all of them.
abbrev pub seconds_of : Time → List ℕ
seconds_of t = t.year ∷ t.month ∷ t.day ∷ t.hour ∷ t.minute ∷ t.second ∷ []

abbrev pub fields : Time → List ℕ
fields t = seconds_of t ++ t.nanos ∷ []

-- `IsZero`
unfoldable pub is_zero : Time → Bool
unfolding text_eq
is_zero t = text_eq (fields t) (fields zero_time)

-- `Before`: the order of the calendar fields
unfoldable pub before : Time → Time → Bool
unfolding text_lt
before s t = text_lt (fields s) (fields t)

-- The last `w` decimal digits.
unfoldable pub pad : ℕ → ℕ → Text
pad zero n = []
pad (suc w) n = pad w (n / 10) ++ (b'0' + n % 10) ∷ []

-- One digit in front of a fraction whose trailing zeros are gone.
unfoldable pub fraction_cons : ℕ → Text → Text
fraction_cons c [] = if c == b'0' then [] else c ∷ []
fraction_cons c (d ∷ s) = c ∷ d ∷ s

unfoldable pub drop_zeros : Text → Text
drop_zeros [] = []
drop_zeros (c ∷ s) = fraction_cons c (drop_zeros s)

-- `.999999999` of `time.RFC3339Nano`: nothing at a whole second
unfoldable pub fraction : ℕ → Text
fraction n = if n == 0 then [] else b'.' ∷ drop_zeros (pad 9 n)

unfoldable pub stamp : Time → Text
stamp t =
    pad 4 t.year
    ++ (b'-'
        ∷ (pad 2 t.month
            ++ (b'-'
                ∷ (pad 2 t.day
                    ++ (b'T'
                        ∷ (pad 2 t.hour
                            ++ (b':' ∷ (pad 2 t.minute ++ (b':' ∷ pad 2 t.second)))))))))

-- `formatTime`
unfoldable pub format_time : Time → Text
unfolding stamp fraction pad drop_zeros fraction_cons
format_time t = stamp t ++ (fraction t.nanos ++ b'Z' ∷ [])

-- `formatOptionalTime`
unfoldable pub format_optional_time : Option Time → Text
format_optional_time none = []
format_optional_time (some t) = format_time t

unfoldable pub is_leap : ℕ → Bool
is_leap y = y % 4 == 0 && (not (y % 100 == 0) || y % 400 == 0)

unfoldable pub days_in_month : ℕ → ℕ → ℕ
unfolding is_leap
days_in_month y m =
    if m == 2
    then (if is_leap y then 29 else 28)
    else if m == 4 || m == 6 || m == 9 || m == 11
    then 30
    else 31

unfoldable pub next_day : Time → Time
unfolding days_in_month
next_day t =
    if ltb t.day (days_in_month t.year t.month)
    then record t { day = t.day + 1 }
    else if ltb t.month 12
    then record t { month = t.month + 1; day = 1 }
    else record t { year = t.year + 1; month = 1; day = 1 }

unfoldable pub add_days : ℕ → Time → Time
unfolding next_day
add_days zero t = t
add_days (suc n) t = add_days n (next_day t)

abbrev day_nanos : ℕ
day_nanos = 86_400_000_000_000

-- `Add` of a duration that is not negative, in nanoseconds
unfoldable pub add : Time → ℕ → Time
unfolding add_days
add t d =
    let total = ((t.hour * 60 + t.minute) * 60 + t.second) * 1_000_000_000 + t.nanos + d in
    let rest = total % day_nanos in
    let s = rest / 1_000_000_000 in
    let on = add_days (total / day_nanos) t in
    record on {
      hour = s / 3600;
      minute = s / 60 % 60;
      second = s % 60;
      nanos = rest % 1_000_000_000;
    }

-- `Truncate(time.Hour)`
unfoldable pub truncate_hour : Time → Time
truncate_hour t = record t { minute = 0; second = 0; nanos = 0 }
