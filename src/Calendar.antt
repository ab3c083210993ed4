-- ===== src/Calendar.antt =====
-- JavaScript's `Date` as the services use it, in a process whose time zone is UTC: the fields of a
-- civil date, `getTime`, and `setMonth`/`setFullYear` with their overflow into the next month.
use meterplex.Prelude.{
  ℕ, zero, suc, ◌+◌, ◌-◌, ◌*◌, ◌/◌, ◌%◌, ◌≤◌, ◌<◌, Bool, true, false, not, ◌&&◌, ◌||◌, leb, ltb,
  ◌==◌, if◌then◌else◌,
}
pub mod Advance

-- `month` counts from 0 and `day` from 1; `ms` is the time of the day.
pub record Date : Type 0 where
  pub year : ℕ
  pub month : ℕ
  pub day : ℕ
  pub ms : ℕ

abbrev pub day_ms : ℕ
day_ms = 24 * 60 * 60 * 1000

unfoldable pub is_leap : ℕ → Bool
is_leap y = y % 4 == 0 && not (y % 100 == 0) || y % 400 == 0

unfoldable pub days_in_month : ℕ → ℕ → ℕ
unfolding is_leap
days_in_month y m =
    if m == 1
    then (if is_leap y then 29 else 28)
    else if m == 3 || m == 5 || m == 8 || m == 10
    then 30
    else 31

-- The days before the first of January of year `y`.
unfoldable pub days_before_year : ℕ → ℕ
days_before_year y = 365 * y + (y + 3) / 4 + (y + 399) / 400 - (y + 99) / 100

-- The days of year `y` before month `m`.
unfoldable pub days_before_month : ℕ → ℕ → ℕ
unfolding days_in_month
days_before_month y zero = 0
days_before_month y (suc m) = days_before_month y m + days_in_month y m

-- The number of a day.
unfoldable pub day_number : Date → ℕ
unfolding days_before_year days_before_month
day_number d = days_before_year d.year + days_before_month d.year d.month + (d.day - 1)

-- `d.getTime()`, up to the constant that moves its origin to 1970: the program only compares and
-- subtracts such values, and adds durations to them.
unfoldable pub get_time : Date → ℕ
unfolding day_number
get_time d = day_number d * day_ms + d.ms

-- A day past the end of its month counts on into the next one.
unfoldable pub normalise : ℕ → ℕ → ℕ → ℕ → Date
unfolding days_in_month
normalise y m day ms =
    if leb day (days_in_month y m)
    then record { year = y; month = m; day = day; ms = ms }
    else if m == 11
    then record { year = y + 1; month = 0; day = day - days_in_month y m; ms = ms }
    else record { year = y; month = m + 1; day = day - days_in_month y m; ms = ms }

-- `d.setMonth(d.getMonth() + 1)`
unfoldable pub next_month : Date → Date
unfolding normalise
next_month d =
    if d.month == 11
    then normalise (d.year + 1) 0 d.day d.ms
    else normalise d.year (d.month + 1) d.day d.ms

-- `d.setFullYear(d.getFullYear() + 1)`
unfoldable pub next_year : Date → Date
unfolding normalise
next_year d = normalise (d.year + 1) d.month d.day d.ms

pub record IsDate (d : Date) : Type 0 where
  pub month_range : d.month < 12
  pub day_pos : 1 ≤ d.day
  pub day_range : d.day ≤ days_in_month d.year d.month
  pub ms_range : d.ms < day_ms
