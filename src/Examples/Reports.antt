-- ===== src/Examples/Reports.antt =====
-- The billing schedule, the exchange rates, the dashboard and the expenses of the small rental.
use home_trap.Prelude.{
  ◌≡◌, ◌≤◌, ◌⊎◌, ◌+◌, ◌*◌, refl, inl, true, false, none, some, [], ◌∷◌, ◌&&◌, text, arith,
}
use home_trap.Prelude.Int.{pos, ◌+ℤ◌}
use home_trap.Prelude.Result.{Result, ok, err}
use home_trap.Prelude.Sort.{sort_by}
use home_trap.Calendar.{Date, IsDate, date, date_ltb, date_leb, shift_month, days_in_month}
use home_trap.Models.{Tenant, Expense, Db}
use home_trap.Schedule.{
  BillingScheduleEntry, date_for_billing_day, next_billing_date, period_for_billing_date, entry,
  compute_billing_schedule,
}
use home_trap.Schedule.Dates.{IsBillingDate, next_billing_date-least, period-shift_month}
use home_trap.Schedule.Upcoming.{upcoming_billing}
use home_trap.Schedule.Candidates.{IsCandidate}
use home_trap.Schedule.Distinct.{AreDistinct, compute_billing_schedule-AreDistinct}
use home_trap.Schedule.Entries.{compute_billing_schedule-IsCandidate}
use home_trap.Nbu.{Http, RateResult, NbuRateUnavailable, get_rate}
use home_trap.Nbu.Rates.{IsRate, get_rate-IsRate, get_rate_again}
use home_trap.Stats.{period_start, total_where, listed, of_period, is_unpaid, dashboard_stats}
use home_trap.Stats.Period.{period_start-months}
use home_trap.Stats.Dashboard.{unpaid_total, dashboard_stats_balance}
use home_trap.Expenses.{Rejection, NewExpense, create_expense}
use home_trap.Expenses.Linked.{Request, SameLinked, Request-SameLinked}
use home_trap.Examples.Data.{flat, store, february}

abbrev tenant : Tenant
tenant = record {
  id = 1;
  apartment_id = 1;
  full_name = text "Olha";
  phone = none;
  email = none;
  contract_start = date 2026 1 10;
  contract_end = none;
  billing_day = some 31;
  notes = none;
}

abbrev pub let_out : Db
let_out = record store { tenants = tenant ∷ [] }

abbrev pub today : Date
today = date 2026 3 5

today-IsDate : IsDate today
unfolding days_in_month
today-IsDate = record {
  year_pos = omega arith;
  month_pos = omega arith;
  month_le = omega arith;
  day_pos = omega arith;
  day_le = omega arith;
}

-- The invoice of January is missing.
abbrev pub missed : BillingScheduleEntry
missed = entry [] today flat tenant (date 2026 2 28)

is_missed : compute_billing_schedule let_out today ≡ missed ∷ []
unfolding compute_billing_schedule
is_missed = refl

compute_billing_schedule-IsCandidate_example :
    IsCandidate let_out today missed
    × (((missed.is_overdue ≡ true)
          × (date_ltb missed.billing_date today ≡ true)
          × (missed.invoice_exists ≡ false))
        ⊎ (date_leb today missed.billing_date ≡ true))
unfolding compute_billing_schedule
compute_billing_schedule-IsCandidate_example =
    compute_billing_schedule-IsCandidate let_out today missed (inl refl)

-- A second tenant of the apartment, for whom the schedule has no entry.
abbrev shared : Db
shared = record store {
  tenants = tenant ∷ record tenant { id = 2; contract_start = date 2026 1 5 } ∷ [];
}

only_first : compute_billing_schedule shared today ≡ missed ∷ []
unfolding compute_billing_schedule
only_first = refl

compute_billing_schedule-AreDistinct_example : AreDistinct (compute_billing_schedule shared today)
compute_billing_schedule-AreDistinct_example = compute_billing_schedule-AreDistinct shared today

next_billing_date-least_example :
    IsBillingDate 3 (next_billing_date today 3)
    × (date_leb today (next_billing_date today 3) ≡ true)
    × (date_leb (next_billing_date today 3) (date_for_billing_day 2026 7 3) ≡ true)
unfolding date_for_billing_day
next_billing_date-least_example =
    next_billing_date-least today 3 2026 7 today-IsDate (omega arith) (omega arith) refl

period-shift_month_example : period_for_billing_date today ≡ shift_month today 0 1
period-shift_month_example = period-shift_month today today-IsDate

-- A service that answers 41.5 for every day, and one that never answers.
abbrev pub answers : Http
answers day currency = some (pos 41500000)

abbrev silent : Http
silent day currency = none

abbrev result_or : {A : Type 0} → A → Result NbuRateUnavailable A → A
result_or d (ok a) = a
result_or d (err e) = d

abbrev dummy : RateResult
dummy = record {
  requested_date = today;
  rate_date = today;
  currency = [];
  rate = pos 0;
  is_fallback = true;
}

abbrev fetched : RateResult × Db
fetched = result_or (dummy, store) (get_rate answers none store february (text "USD"))

was_fetched : get_rate answers none store february (text "USD") ≡ ok fetched
unfolding get_rate
was_fetched = refl

abbrev fallen_back : RateResult × Db
fallen_back = result_or (dummy, store) (get_rate silent none fetched.1 today (text "USD"))

has_fallen_back : get_rate silent none fetched.1 today (text "USD") ≡ ok fallen_back
unfolding get_rate sort_by
has_fallen_back = refl

get_rate-IsRate_example : IsRate fetched.1 fallen_back.1 today (text "USD") fallen_back.0
get_rate-IsRate_example =
    get_rate-IsRate silent none fetched.1 today (text "USD") fallen_back.0 fallen_back.1
      has_fallen_back

get_rate_again_example :
    get_rate silent none fetched.1 february (text "USD") ≡ ok (fetched.0, fetched.1)
unfolding get_rate
get_rate_again_example =
    get_rate_again answers silent none none store february (text "USD") fetched.0 fetched.1
      was_fetched refl

period_start-months_example :
    ((period_start today 12).day ≡ 1)
    × (1 ≤ (period_start today 12).month)
    × ((period_start today 12).month ≤ 12)
    × ((period_start today 12).year * 12 + (period_start today 12).month + 12 ≡ 2026 * 12 + 3 + 1)
period_start-months_example = period_start-months today 12 today-IsDate (omega arith) (omega arith)

dashboard_stats_balance_example :
    ((dashboard_stats store today).charged
      ≡ (dashboard_stats store today).paid
        +ℤ total_where
            (λ i. of_period (dashboard_stats store today).period i && is_unpaid i)
            (listed store))
    × ((dashboard_stats store today).outstanding
        ≡ unpaid_total (dashboard_stats store today).attention)
dashboard_stats_balance_example = dashboard_stats_balance store today

abbrev repair : NewExpense
repair = record {
  apartment_id = some 1;
  day = today;
  category = text "repair";
  amount = pos 15000;
  currency = text "UAH";
  notes = none;
}

abbrev no_expense : Expense
no_expense = record {
  id = 0;
  apartment_id = none;
  invoice_line_id = none;
  day = today;
  category = [];
  amount = pos 0;
  currency = [];
  notes = none;
}

abbrev expense_or : Result Rejection (Expense × Db) → Expense × Db
expense_or (ok a) = a
expense_or (err e) = (no_expense, store)

abbrev repaired : Expense × Db
repaired = expense_or (create_expense store repair)

was_created : create_expense store repair ≡ ok repaired
unfolding create_expense
was_created = refl

Request-SameLinked_example : SameLinked store.expenses repaired.1.expenses
Request-SameLinked_example =
    Request-SameLinked store repaired.1 (λ a b m. absurd m)
      (Request.create repair repaired.0 repaired.1 was_created)

-- The missed billing is on the list.
is_upcoming : upcoming_billing let_out today ≡ missed ∷ []
unfolding upcoming_billing
is_upcoming = refl
