-- ===== src/Calendar/Months.antt =====
-- The lengths of months, and months shifted.
use home_trap.Prelude.{ℕ, ◌≤◌, arith}
use home_trap.Calendar.{days_in_month}

pub days_in_month_range : (y m : ℕ) → (28 ≤ days_in_month y m) × (days_in_month y m ≤ 31)
unfolding days_in_month
days_in_month_range y m = ground arith
