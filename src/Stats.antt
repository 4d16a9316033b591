-- ===== src/Stats.antt =====
-- backend/app/routers/stats.py: the period of a report and the dashboard; the three reports are in child
-- modules.
pub mod Period
pub mod Dashboard
pub mod Tally
pub mod Pnl
pub mod Income
pub mod Consumption
use home_trap.Prelude.{
  ℕ, ◌+◌, ◌-◌, ◌*◌, Bool, true, false, not, ◌&&◌, ◌||◌, Option, none, some, List, [], ◌∷◌, map,
  Text, ltb, leb, ◌==◌, is_some, filter, find?, if◌then◌else◌,
}
use home_trap.Prelude.Int.{ℤ, pos, ◌+ℤ◌, sum}
use home_trap.Prelude.Sort.{sort_by}
use home_trap.Prelude.Result.{Result, ok, err, ◌>>=◌, ◌>>◌, raise_if}
use home_trap.Calendar.{Date, date_ltb, date_leb, date_eq, month_start, shift_month}
use home_trap.Models.{InvoiceStatus, status_eq, Apartment, Invoice, Db}

-- The details of the `HTTPException`s with status 422.
pub data Unprocessable : Type 0 where
  modes_combined dates_apart not_first_day from_after_to : Unprocessable

unfoldable pub period_start : Date → ℕ → Date
unfolding shift_month month_start
period_start today months = shift_month (month_start today) 1 months

abbrev is_first_day : Option Date → Bool
is_first_day none = false
is_first_day (some d) = d.day == 1

abbrev exceeds : Option Date → Option Date → Bool
exceeds (some d) (some e) = date_ltb e d
exceeds d e = false

abbrev default_months : Option ℕ → ℕ
default_months none = 12
default_months (some n) = n

-- The three modes, once the arguments have passed the checks.
unfoldable pub chosen_period :
    Date → Option ℕ → Option Date → Option Date → Bool → Option Date × Date × Option ℕ
unfolding period_start month_start
chosen_period today months date_from date_to true = (none, month_start today, none)
chosen_period today months (some d) (some e) false = (some d, e, none)
chosen_period today months date_from date_to false =
    let effective_months = default_months months in
    (some (period_start today effective_months), month_start today, some effective_months)

unfoldable pub resolve_period :
    Date
    → Option ℕ
    → Option Date
    → Option Date
    → Bool
    → Result Unprocessable (Option Date × Date × Option ℕ)
unfolding chosen_period
resolve_period today months date_from date_to all_time = do
  let has_dates = is_some date_from || is_some date_to
  raise_if (is_some months && (has_dates || all_time)) Unprocessable.modes_combined
  raise_if (all_time && has_dates) Unprocessable.modes_combined
  raise_if
      ((is_some date_from && not (is_some date_to)) || (is_some date_to && not (is_some date_from)))
      Unprocessable.dates_apart
  raise_if (is_some date_from && (not (is_first_day date_from) || not (is_first_day date_to)))
      Unprocessable.not_first_day
  raise_if (exceeds date_from date_to) Unprocessable.from_after_to
  ok (chosen_period today months date_from date_to all_time)

-- `ORDER BY period, id`
abbrev pub invoice_leb : Invoice → Invoice → Bool
invoice_leb a b = if date_eq a.period b.period then leb a.id b.id else date_ltb a.period b.period

unfoldable pub listed : Db → List Invoice
unfolding sort_by
listed db = sort_by invoice_leb db.invoices

abbrev pub is_charged : Invoice → Bool
is_charged i = status_eq i.status InvoiceStatus.issued || status_eq i.status InvoiceStatus.paid

abbrev pub is_unpaid : Invoice → Bool
is_unpaid i = status_eq i.status InvoiceStatus.issued

abbrev pub is_paid : Invoice → Bool
is_paid i = status_eq i.status InvoiceStatus.paid

abbrev pub of_period : Date → Invoice → Bool
of_period period i = date_eq i.period period

abbrev pub grand_total_of : Invoice → ℤ
grand_total_of i = i.grand_total

-- `sum(item.grand_total for item in invoices if ...)`
unfoldable pub total_where : (Invoice → Bool) → List Invoice → ℤ
total_where p invoices = sum (map grand_total_of (filter p invoices))

pub data Reason : Type 0 where
  unpaid draft : Reason

-- An entry of `needs_attention`; the other fields are the invoice's.
pub record Attention : Type 0 where
  pub invoice : Invoice
  pub reason : Reason

abbrev pub reason_for : Date → Invoice → Option Reason
reason_for current_period i =
    if status_eq i.status InvoiceStatus.issued
    then some Reason.unpaid
    else if status_eq i.status InvoiceStatus.draft && date_leb i.period current_period
    then some Reason.draft
    else none

abbrev attend : Invoice → Option Reason → List Attention → List Attention
attend i none rest = rest
attend i (some r) rest = record { invoice = i; reason = r } ∷ rest

unfoldable pub needs_attention : Date → List Invoice → List Attention
needs_attention current_period [] = []
needs_attention current_period (i ∷ invoices) =
    attend i (reason_for current_period i) (needs_attention current_period invoices)

pub record DashboardStats : Type 0 where
  pub period : Date
  pub charged : ℤ
  pub paid : ℤ
  pub outstanding : ℤ
  pub attention : List Attention

unfoldable pub dashboard_stats : Db → Date → DashboardStats
unfolding month_start listed total_where needs_attention
dashboard_stats db today =
    let current_period = month_start today in
    let invoices = listed db in
    record {
      period = current_period;
      charged = total_where (λ i. of_period current_period i && is_charged i) invoices;
      paid = total_where (λ i. of_period current_period i && is_paid i) invoices;
      outstanding = total_where is_unpaid invoices;
      attention = needs_attention current_period invoices;
    }
