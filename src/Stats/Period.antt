-- ===== src/Stats/Period.antt =====
-- The period of a report of backend/app/routers/stats.py.
use home_trap.Prelude.{ℕ, ◌≡◌, ◌≤◌, ◌<◌, ◌+◌, ◌*◌, refl, arith}
use home_trap.Calendar.{Date, IsDate, month_start, shift_month}
use home_trap.Stats.{period_start}

-- For a valid date and a number of months that is at least one and below twelve for each year of the
-- date: the window that ends with the present month starts on the first of a month and has exactly
-- that many months.
pub period_start-months :
    (today : Date) (months : ℕ)
    → IsDate today
    → 1 ≤ months
    → months < today.year * 12
    → let start = period_start today months in
      (start.day ≡ 1)
      × (1 ≤ start.month)
      × (start.month ≤ 12)
      × (start.year * 12 + start.month + months ≡ today.year * 12 + today.month + 1)
unfolding period_start shift_month month_start
period_start-months today months valid low high =
    let a = valid.month_pos in
    let b = valid.month_le in (refl, omega arith, omega arith, omega arith)
