-- ===== src/Schedule/Upcoming.antt =====
-- `upcoming_billing` of backend/app/routers/billing.py: the schedule up to a horizon, in order.
use home_trap.Prelude.{◌+◌, ℕ, Bool, not, List, filter, leb, text_eq, text_leb, if◌then◌else◌}
use home_trap.Prelude.Sort.{sort_by}
use home_trap.Calendar.{Date, date_ltb, date_eq, to_ordinal}
use home_trap.Models.{Db}
use home_trap.Schedule.{BillingScheduleEntry, compute_billing_schedule}

abbrev pub upcoming_horizon_days : ℕ
upcoming_horizon_days = 30

-- `entry.billing_date <= today + timedelta(days=30)`
unfoldable pub within_horizon : Date → BillingScheduleEntry → Bool
unfolding to_ordinal
within_horizon today e = leb (to_ordinal e.billing_date) (to_ordinal today + upcoming_horizon_days)

-- By billing date, then name and key of the apartment.
abbrev sooner : BillingScheduleEntry → BillingScheduleEntry → Bool
sooner a b =
    if not (date_eq a.billing_date b.billing_date)
    then date_ltb a.billing_date b.billing_date
    else if not (text_eq a.apartment.name b.apartment.name)
    then text_leb a.apartment.name b.apartment.name
    else leb a.apartment.id b.apartment.id

unfoldable pub upcoming_billing : Db → Date → List BillingScheduleEntry
unfolding compute_billing_schedule sort_by within_horizon
upcoming_billing db today =
    sort_by sooner (filter (within_horizon today) (compute_billing_schedule db today))
