-- ===== src/Calendar.antt =====
-- Python's `datetime.date` as far as the program uses it: the order of dates, the length of a month
-- (`calendar.monthrange`), `replace(day=1)`, ordinals for the difference of two dates in days, and
-- the month arithmetic of backend/app/routers/stats.py.
pub mod Order
pub mod Months
use home_trap.Prelude.{
  ℕ, zero, suc, ◌+◌, ◌-◌, ◌*◌, ◌/◌, ◌%◌, ◌≤◌, Bool, true, false, not, ◌&&◌, ◌||◌, ltb, leb, ◌==◌,
  if◌then◌else◌,
}

pub record Date : Type 0 where
  pub year : ℕ
  pub month : ℕ
  pub day : ℕ

-- A moment in UTC: its date, and the microseconds of the day.
pub record DateTime : Type 0 where
  pub day : Date
  pub microseconds : ℕ

-- `a < b`, `a <= b`, `a == b`: year, month and day are compared in turn.
abbrev pub date_ltb : Date → Date → Bool
date_ltb a b =
    ltb a.year b.year
    || (a.year == b.year && (ltb a.month b.month || (a.month == b.month && ltb a.day b.day)))

abbrev pub date_leb : Date → Date → Bool
date_leb a b = not (date_ltb b a)

abbrev pub date_eq : Date → Date → Bool
date_eq a b = a.year == b.year && (a.month == b.month && a.day == b.day)

-- The constructor `date(y, m, d)`.
abbrev pub date : ℕ → ℕ → ℕ → Date
date y m d = record { month = m; day = d; year = y }

abbrev pub is_leap : ℕ → Bool
is_leap year = (year % 4 == 0 && not (year % 100 == 0)) || year % 400 == 0

-- `monthrange(year, month)[1]`: months of 31 and of 30 days alternate, with a break after July.
unfoldable pub days_in_month : ℕ → ℕ → ℕ
days_in_month year month =
    if month == 2 then (if is_leap year then 29 else 28) else 30 + (month + month / 8) % 2

-- What the constructor `date(y, m, d)` accepts.
pub record IsDate (d : Date) : Type 0 where
  pub year_pos : 1 ≤ d.year
  pub month_pos : 1 ≤ d.month
  pub month_le : d.month ≤ 12
  pub day_pos : 1 ≤ d.day
  pub day_le : d.day ≤ days_in_month d.year d.month

-- `value.replace(day=1)`, also `_month_start` of the statistics.
unfoldable pub month_start : Date → Date
month_start d = record d { day = 1 }

-- Days of the year before the first of a month, summed month by month.
unfoldable pub days_before_month : ℕ → ℕ → ℕ
unfolding days_in_month
days_before_month year zero = 0
days_before_month year (suc zero) = 0
days_before_month year (suc (suc past)) =
    days_in_month year (suc past) + days_before_month year (suc past)

-- `date.toordinal()`
unfoldable pub to_ordinal : Date → ℕ
unfolding days_before_month
to_ordinal d =
    let full_years = d.year - 1 in
    let leap_days = full_years / 4 + full_years / 400 - full_years / 100 in
    365 * full_years + leap_days + days_before_month d.year d.month + d.day

-- `_shift_month(value, offset)` for a month counted back or on; the offset is `on - back`.
unfoldable pub shift_month : Date → ℕ → ℕ → Date
shift_month d on back =
    let month_index = d.year * 12 + d.month - 1 + on - back in
    date (month_index / 12) (month_index % 12 + 1) 1
