-- ===== src/Schedule.antt =====
-- backend/app/services/billing_schedule.py: on which days which tenants are billed, and which invoices
-- are overdue. Sending the reminders and creating drafts from them are not modelled.
pub mod Dates
pub mod Candidates
pub mod Entries
pub mod Distinct
pub mod Upcoming
use home_trap.Prelude.{
  ℕ, suc, zero, ◌+◌, ◌-◌, min, ◌≡◌, Bool, true, false, not, ◌&&◌, ◌||◌, Option, none, some, List,
  [], ◌∷◌, ◌++◌, map, Text, text_leb, text_eq, ltb, leb, ◌==◌, is_some, any, filter, if◌then◌else◌,
}
use home_trap.Prelude.Sort.{sort_by, first_by}
use home_trap.Calendar.{Date, date, date_ltb, date_leb, date_eq, days_in_month, month_start}
use home_trap.Models.{InvoiceStatus, Apartment, Tenant, Invoice, Db}

unfoldable pub date_for_billing_day : ℕ → ℕ → ℕ → Date
unfolding days_in_month
date_for_billing_day year month billing_day =
    date year month (min billing_day (days_in_month year month))

unfoldable pub period_for_billing_date : Date → Date
period_for_billing_date billing_date =
    if billing_date.month == 1
    then date (billing_date.year - 1) 12 1
    else date billing_date.year (billing_date.month - 1) 1

unfoldable pub next_billing_date : Date → ℕ → Date
unfolding date_for_billing_day
next_billing_date today billing_day =
    let candidate = date_for_billing_day today.year today.month billing_day in
    if date_leb today candidate
    then candidate
    else if today.month == 12
    then date_for_billing_day (today.year + 1) 1 billing_day
    else date_for_billing_day today.year (today.month + 1) billing_day

unfoldable pub previous_billing_date : Date → ℕ → Date
unfolding date_for_billing_day
previous_billing_date today billing_day =
    if today.month == 1
    then date_for_billing_day (today.year - 1) 12 billing_day
    else date_for_billing_day today.year (today.month - 1) billing_day

-- A set display `{a, b, c}` of dates.
abbrev pub date_set : List Date → List Date
date_set [] = []
date_set (d ∷ ds) = let rest = date_set ds in if any (date_eq d) rest then rest else d ∷ rest

abbrev pub starts_by : Date → Option Date → Bool
starts_by period none = true
starts_by period (some end_period) = date_leb period end_period

-- The period of a billing date lies within the months of the contract.
abbrev pub in_contract : Tenant → Date → Bool
in_contract tenant billing_date =
    date_leb (month_start tenant.contract_start) (period_for_billing_date billing_date)
    && starts_by (period_for_billing_date billing_date)
        (elim tenant.contract_end [ none ↦ none | some e ↦ some (month_start e) ])

unfoldable pub dates_around : ℕ → Date → List Date
unfolding previous_billing_date next_billing_date date_for_billing_day
dates_around billing_day today =
    let current = date_for_billing_day today.year today.month billing_day in
    date_set
      (previous_billing_date today billing_day ∷ current ∷ next_billing_date today billing_day ∷ [])

unfoldable pub billing_dates : Tenant → ℕ → Date → List Date
unfolding dates_around period_for_billing_date month_start sort_by
billing_dates tenant billing_day today =
    sort_by date_leb (filter (in_contract tenant) (dates_around billing_day today))

pub record BillingScheduleEntry : Type 0 where
  pub apartment : Apartment
  pub tenant : Tenant
  pub billing_day : ℕ
  pub billing_date : Date
  pub period : Date
  pub invoice_exists : Bool
  pub invoice_status : Option InvoiceStatus
  pub is_overdue : Bool

abbrev pub ends_by : Option Date → Date → Bool
ends_by none earliest = true
ends_by (some e) earliest = date_leb earliest e

-- The conditions of the query: an active apartment with a contract that has begun and has not ended
-- before the period that is billed now.
abbrev pub is_billable : Date → Apartment × Tenant → Bool
is_billable today (apartment, tenant) =
    tenant.apartment_id == apartment.id
    && (apartment.is_active
        && (date_leb tenant.contract_start today
            && ends_by tenant.contract_end (period_for_billing_date today)))

abbrev pub pairs : List Apartment → List Tenant → List (Apartment × Tenant)
pairs [] tenants = []
pairs (a ∷ apartments) tenants = map (λ (t : Tenant). (a, t)) tenants ++ pairs apartments tenants

-- `ORDER BY name, apartment id, contract_start DESC, tenant id DESC`
abbrev row_leb : Apartment × Tenant → Apartment × Tenant → Bool
row_leb (a, t) (b, u) =
    if not (text_eq a.name b.name)
    then text_leb a.name b.name
    else if not (a.id == b.id)
    then ltb a.id b.id
    else if not (date_eq t.contract_start u.contract_start)
    then date_ltb u.contract_start t.contract_start
    else leb u.id t.id

-- `seen_apartments`: of the rows of an apartment the first one counts.
unfoldable pub first_rows : List ℕ → List (Apartment × Tenant) → List (Apartment × Tenant)
first_rows seen [] = []
first_rows seen ((apartment, tenant) ∷ rows) =
    let others = first_rows seen rows in
    let rest = first_rows (apartment.id ∷ seen) rows in
    if any (λ (i : ℕ). i == apartment.id) seen then others else (apartment, tenant) ∷ rest

-- `tenant.billing_day or tenant.contract_start.day`
abbrev pub billing_day_of : Tenant → ℕ
billing_day_of tenant = elim tenant.billing_day [
  | none ↦ tenant.contract_start.day
  | some day ↦ if day == 0 then tenant.contract_start.day else day
]

-- `invoice_by_apartment_period.get(...)`: a later invoice overwrites an earlier one of the same key,
-- of which the unique constraint allows none.
unfoldable pub invoice_at : List Invoice → ℕ → Date → Option Invoice
invoice_at [] apartment_id period = none
invoice_at (invoice ∷ invoices) apartment_id period =
    let later = invoice_at invoices apartment_id period in
    elim later [
      | some i ↦ some i
      | none ↦
          if invoice.apartment_id == apartment_id && date_eq invoice.period period
          then some invoice
          else none
    ]

abbrev status_of : Option Invoice → Option InvoiceStatus
status_of none = none
status_of (some i) = some i.status

unfoldable pub entry : List Invoice → Date → Apartment → Tenant → Date → BillingScheduleEntry
unfolding period_for_billing_date invoice_at
entry invoices today apartment tenant billing_date =
    let period = period_for_billing_date billing_date in
    let invoice = invoice_at invoices apartment.id period in
    record {
      apartment = apartment;
      tenant = tenant;
      billing_day = billing_day_of tenant;
      billing_date = billing_date;
      period = period;
      invoice_exists = is_some invoice;
      invoice_status = status_of invoice;
      is_overdue = date_ltb billing_date today && not (is_some invoice);
    }

-- The entries of one row; a row without any is left out, which no caller can tell.
unfoldable pub row_entries : List Invoice → Date → Apartment × Tenant → List BillingScheduleEntry
unfolding entry billing_dates
row_entries invoices today (apartment, tenant) =
    map (entry invoices today apartment tenant) (billing_dates tenant (billing_day_of tenant) today)

unfoldable pub compute_billing_schedule_candidates : Db → Date → List (List BillingScheduleEntry)
unfolding first_rows row_entries sort_by period_for_billing_date
compute_billing_schedule_candidates db today =
    let rows = sort_by row_leb (filter (is_billable today) (pairs db.apartments db.tenants)) in
    map (row_entries db.invoices today) (first_rows [] rows)

abbrev pub is_upcoming : Date → BillingScheduleEntry → Bool
is_upcoming today e = date_leb today e.billing_date

abbrev pub first_upcoming : Date → List BillingScheduleEntry → Option BillingScheduleEntry
first_upcoming today candidates =
    first_by (λ (a b : BillingScheduleEntry). date_leb a.billing_date b.billing_date)
      (filter (is_upcoming today) candidates)

abbrev pub last_missed : List BillingScheduleEntry → Option BillingScheduleEntry
last_missed candidates =
    first_by (λ (a b : BillingScheduleEntry). date_leb b.billing_date a.billing_date)
      (filter (λ (e : BillingScheduleEntry). e.is_overdue) candidates)

-- The entry that the loop of `compute_billing_schedule` appends for an apartment, if any.
unfoldable pub scheduled : Date → List BillingScheduleEntry → Option BillingScheduleEntry
unfolding sort_by
scheduled today candidates = elim (last_missed candidates) [
  | some e ↦ some e
  | none ↦ first_upcoming today candidates
]

abbrev pub collect_some : {A B : Type 0} → (A → Option B) → List A → List B
collect_some f [] = []
collect_some f (x ∷ xs) =
    let rest = collect_some f xs in elim (f x) [ none ↦ rest | some y ↦ y ∷ rest ]

unfoldable pub compute_billing_schedule : Db → Date → List BillingScheduleEntry
unfolding compute_billing_schedule_candidates scheduled
compute_billing_schedule db today =
    collect_some (scheduled today) (compute_billing_schedule_candidates db today)

unfoldable pub compute_reminder_schedule : Db → Date → List BillingScheduleEntry
unfolding compute_billing_schedule_candidates sort_by
compute_reminder_schedule db today =
    collect_some (first_upcoming today) (compute_billing_schedule_candidates db today)
