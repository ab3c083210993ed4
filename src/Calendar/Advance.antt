-- ===== src/Calendar/Advance.antt =====
-- Moving a date on by a month or a year.
use native.Mathlib.Numerals.{add-one}
use meterplex.Prelude.{
  ℕ, zero, suc, ◌+◌, ◌-◌, ◌*◌, ◌≤◌, ◌<◌, ◌≡◌, refl, inl, inr, false, arith, leb, ◌==◌,
  if◌then◌else◌, Bool-cases,
}
use meterplex.Calendar.{
  Date, day_ms, is_leap, days_in_month, days_before_year, days_before_month, day_number, get_time,
  normalise, next_month, next_year, IsDate,
}

pub days_in_month_bounds : (y m : ℕ) → (28 ≤ days_in_month y m) × (days_in_month y m ≤ 31)
unfolding days_in_month
days_in_month_bounds y m = ground arith

days_before_year-suc :
    (y : ℕ) → days_before_year (y + 1) ≡ days_before_year y + (if is_leap y then 366 else 365)
unfolding days_before_year is_leap
days_before_year-suc y = ground arith

days_of_year : (y : ℕ) → days_before_month y 11 + 31 ≡ (if is_leap y then 366 else 365)
unfolding days_before_month
days_of_year y = ground arith

days_before_month-suc :
    (y m : ℕ) → days_before_month y (m + 1) ≡ days_before_month y m + days_in_month y m
unfolding days_before_month
days_before_month-suc y m = rw add-one refl

-- The year ends with the last day of December.
year_end :
    (y m : ℕ)
    → m ≡ 11
    → days_before_year (y + 1) ≡ days_before_year y + days_before_month y m + days_in_month y m
year_end y m e = rw e (
    let d : days_in_month y 11 ≡ 31 = unfold days_in_month in refl in
    omega (arith, days_before_year-suc y, days_of_year y, d))

january : (y : ℕ) → days_before_month y 0 ≡ 0
unfolding days_before_month
january y = refl

-- The day number of a date that overflows its month is what counting on gives.
normalise_number :
    (y m day ms : ℕ)
    → m < 12
    → 1 ≤ day
    → day_number (normalise y m day ms) ≡ days_before_year y + days_before_month y m + (day - 1)
normalise_number y m day ms hm hd = elim (Bool-cases (leb day (days_in_month y m))) [
  | inl fits ↦ unfold day_number normalise in rw fits refl
  | inr over ↦ elim (Bool-cases (m == 11)) [
    | inl last ↦
        unfold normalise in
        rw (over, last)
          (unfold day_number in
            omega (arith, year_end y m (ground arith), january (y + 1), big over))
    | inr inner ↦
        unfold normalise in
        rw (over, inner) (unfold day_number in omega (arith, days_before_month-suc y m, big over))
  ]
]
  where
    big : leb day (days_in_month y m) ≡ false → days_in_month y m < day
    big h = ground arith

ms-normalise : (y m day ms : ℕ) → (normalise y m day ms).ms ≡ ms
unfolding normalise
ms-normalise y m day ms = ground arith

normalise-IsDate :
    (y m day ms : ℕ) → m < 12 → 1 ≤ day → day ≤ 31 → ms < day_ms → IsDate (normalise y m day ms)
normalise-IsDate y m day ms hm hd h31 hms = elim (Bool-cases (leb day (days_in_month y m))) [
  | inl fits ↦
      unfold normalise in
      rw fits (record { month_range = hm; day_pos = hd; day_range = ground arith; ms_range = hms })
  | inr over ↦ elim (Bool-cases (m == 11)) [
    | inl last ↦
        unfold normalise in
        rw (over, last)
          (record {
            month_range = omega arith;
            day_pos = omega (arith, big over);
            day_range =
                omega (arith, (days_in_month_bounds y m).0, (days_in_month_bounds (y + 1) 0).0);
            ms_range = hms;
          })
    | inr inner ↦
        unfold normalise in
        rw (over, inner)
          (record {
            month_range = ground arith;
            day_pos = omega (arith, big over);
            day_range =
                omega (arith, (days_in_month_bounds y m).0, (days_in_month_bounds y (m + 1)).0);
            ms_range = hms;
          })
  ]
]
  where
    big : leb day (days_in_month y m) ≡ false → days_in_month y m < day
    big h = ground arith

-- A month on is as many days on as the month has that the date stands in.
pub next_month_lem :
    (d : Date)
    → IsDate d
    → IsDate (next_month d)
      × (get_time (next_month d) ≡ get_time d + days_in_month d.year d.month * day_ms)
next_month_lem d v = elim (Bool-cases (d.month == 11)) [
  | inl last ↦
      unfold next_month in
      rw last (
        normalise-IsDate (d.year + 1) 0 d.day d.ms (omega arith) v.day_pos h31 v.ms_range,
        unfold get_time in
            rw ms-normalise (
              let e : d.month ≡ 11 = ground arith in
              omega (
                arith,
                normalise_number (d.year + 1) 0 d.day d.ms (omega arith) v.day_pos,
                number d,
                year_end d.year d.month e,
                january (d.year + 1),
                v.day_pos,
              )),
      )
  | inr inner ↦
      unfold next_month in
      rw inner (
        normalise-IsDate d.year (d.month + 1) d.day d.ms (ground arith) v.day_pos h31 v.ms_range,
        unfold get_time in
            rw ms-normalise (
              omega (
                arith,
                normalise_number d.year (d.month + 1) d.day d.ms (ground arith) v.day_pos,
                number d,
                days_before_month-suc d.year d.month,
                v.day_pos,
              )),
      )
]
  where
    h31 : d.day ≤ 31
    h31 = omega (arith, v.day_range, (days_in_month_bounds d.year d.month).1)

    number :
        (d : Date)
        → day_number d ≡ days_before_year d.year + days_before_month d.year d.month + (d.day - 1)
    number d = unfold day_number in refl

-- Two years' months begin on the same day of the year, up to the leap day of the first.
days_before_month_le :
    (y z m : ℕ)
    → (days_before_month y m ≤ days_before_month z m + (if is_leap y then 1 else 0))
      × (m ≤ 1 → days_before_month y m ≤ days_before_month z m)
unfolding days_before_month
days_before_month_le y z zero = (ground arith, λ h. omega arith)
days_before_month_le y z (suc m) =
    let (ih, early) = days_before_month_le y z m in
    elim (Bool-cases (m == 1)) [
      | inl feb ↦ (rw feb (ground (arith, early (ground arith))), λ h. absurd (ground arith))
      | inr other ↦ (rw other (ground arith), λ h. rw other (ground (arith, early (omega arith))))
    ]

-- A year on is at least 365 days on.
pub next_year_lem :
    (d : Date)
    → IsDate d
    → IsDate (next_year d) × (get_time d + 365 * day_ms ≤ get_time (next_year d))
unfolding next_year get_time
next_year_lem d v = (
  normalise-IsDate (d.year + 1) d.month d.day d.ms v.month_range v.day_pos h31 v.ms_range,
  rw ms-normalise (
      unfold day_number in
      let n : day_number d
          ≡ days_before_year d.year + days_before_month d.year d.month + (d.day - 1) =
        refl in
      ground (
        arith,
        normalise_number (d.year + 1) d.month d.day d.ms v.month_range v.day_pos,
        days_before_year-suc d.year,
        (days_before_month_le d.year (d.year + 1) d.month).0,
      )),
)
  where
    h31 : d.day ≤ 31
    h31 = omega (arith, v.day_range, (days_in_month_bounds d.year d.month).1)
