-- ===== src/Stats/Income.antt =====
-- `income_stats` of backend/app/routers/stats.py. `share` is the Decimal quotient
-- `top_amount * 100 / utilities`, rounded to cents.
pub mod Balance
use home_trap.Prelude.{
  ℕ, Bool, true, false, not, ◌&&◌, Option, none, some, List, [], ◌∷◌, map, Text, text_eq, text_leb,
  ◌==◌, filter, if◌then◌else◌,
}
use home_trap.Prelude.Int.{ℤ, pos, ◌+ℤ◌, ltb_ℤ}
use home_trap.Prelude.Sort.{sort_by, first_by}
use home_trap.Prelude.Result.{Result, ok, err, ◌>>=◌, ◌>>◌, raise_if}
use home_trap.Calendar.{Date, date_leb, date_ltb, date_eq}
use home_trap.Models.{InvoiceLine, Invoice, Db}
use home_trap.Billing.Recalculate.{is_adjustment}
use home_trap.Stats.{resolve_period, listed, is_charged}
use home_trap.Stats.Tally.{add_at}
use home_trap.Stats.Pnl.{PnlError, is_known, is_income}

pub record IncomePoint : Type 0 where
  pub period : Date
  pub rent : ℤ
  pub utilities : ℤ
  pub adjustments : ℤ
  pub total : ℤ

-- `totals`
pub record IncomeTotals : Type 0 where
  pub rent : ℤ
  pub utilities : ℤ
  pub adjustments : ℤ
  pub total : ℤ

pub record TopService : Type 0 where
  pub name : Text
  pub share_percent : ℤ
  pub peak_period : Option Date

pub record IncomeStats : Type 0 where
  pub values : List IncomePoint
  pub totals : IncomeTotals
  pub top_service : Option TopService

abbrev pub new_point : Date → IncomePoint
new_point period = record {
  period = period;
  rent = pos 0;
  utilities = pos 0;
  adjustments = pos 0;
  total = pos 0;
}

abbrev pub add_to_point : Invoice → IncomePoint → IncomePoint
add_to_point i p = record p {
  rent = p.rent +ℤ i.rent_amount_uah;
  utilities = p.utilities +ℤ i.utilities_total;
  adjustments = p.adjustments +ℤ i.adjustments_total;
  total = p.total +ℤ i.grand_total;
}

-- `monthly.setdefault(invoice.period, …)` and the additions to the point.
unfoldable pub add_invoice : Invoice → List IncomePoint → List IncomePoint
add_invoice i [] = add_to_point i (new_point i.period) ∷ []
add_invoice i (p ∷ ps) =
    let rest = add_invoice i ps in
    if date_eq p.period i.period then add_to_point i p ∷ ps else p ∷ rest

unfoldable pub add_invoices : List Invoice → List IncomePoint → List IncomePoint
unfolding add_invoice
add_invoices [] ps = ps
add_invoices (i ∷ invoices) ps = add_invoices invoices (add_invoice i ps)

abbrev pub no_totals : IncomeTotals
no_totals = record { rent = pos 0; utilities = pos 0; adjustments = pos 0; total = pos 0 }

unfoldable pub add_totals : List Invoice → IncomeTotals → IncomeTotals
add_totals [] t = t
add_totals (i ∷ invoices) t = add_totals invoices (record t {
  rent = t.rent +ℤ i.rent_amount_uah;
  utilities = t.utilities +ℤ i.utilities_total;
  adjustments = t.adjustments +ℤ i.adjustments_total;
  total = t.total +ℤ i.grand_total;
})

-- `service_monthly.setdefault(name, {})` and the addition to the month.
unfoldable pub add_monthly :
    Text → Date → ℤ → List (Text × List (Date × ℤ)) → List (Text × List (Date × ℤ))
unfolding add_at
add_monthly name period a [] = (name, add_at date_eq period a []) ∷ []
add_monthly name period a ((n, d) ∷ rest) =
    let later = add_monthly name period a rest in
    if text_eq n name then (n, add_at date_eq period a d) ∷ rest else (n, d) ∷ later

-- `service_totals` and `service_monthly`
pub record ServiceSums : Type 0 where
  pub totals : List (Text × ℤ)
  pub monthly : List (Text × List (Date × ℤ))

abbrev pub no_services : ServiceSums
no_services = record { totals = []; monthly = [] }

abbrev pub add_line : Date → InvoiceLine → ServiceSums → ServiceSums
add_line period l s = record {
  totals = add_at text_eq l.service_name l.amount s.totals;
  monthly = add_monthly l.service_name period l.amount s.monthly;
}

unfoldable pub add_lines : Date → List InvoiceLine → ServiceSums → ServiceSums
unfolding add_at add_monthly
add_lines period [] s = s
add_lines period (l ∷ lines) s =
    add_lines period lines (if is_adjustment l then s else add_line period l s)

unfoldable pub add_services : List Invoice → ServiceSums → ServiceSums
unfolding add_lines
add_services [] s = s
add_services (i ∷ invoices) s = add_services invoices (add_lines i.period i.lines s)

-- The orders by `(-item[1], item[0])`.
abbrev larger_total : Text × ℤ → Text × ℤ → Bool
larger_total (n, a) (m, b) = if ltb_ℤ b a then true else if ltb_ℤ a b then false else text_leb n m

abbrev larger_month : Date × ℤ → Date × ℤ → Bool
larger_month (n, a) (m, b) = if ltb_ℤ b a then true else if ltb_ℤ a b then false else date_leb n m

unfoldable pub months_for : Text → List (Text × List (Date × ℤ)) → List (Date × ℤ)
months_for name [] = []
months_for name ((n, d) ∷ rest) =
    let later = months_for name rest in if text_eq n name then d else later

abbrev peak : Option (Date × ℤ) → Option Date
peak none = none
peak (some (period, a)) = some period

module _ (share : ℤ → ℤ → ℤ) where
  unfoldable pub top_service : IncomeTotals → ServiceSums → Option TopService
  unfolding months_for sort_by
  top_service t s =
      if ltb_ℤ (pos 0) t.utilities
      then (elim (first_by larger_total s.totals) [
        | none ↦ none
        | some (name, amount) ↦ some (record {
          name = name;
          share_percent = share amount t.utilities;
          peak_period = peak (first_by larger_month (months_for name s.monthly));
        })
      ])
      else none

  -- From the query on.
  unfoldable pub income_report : Db → Date → Option ℕ → Option Date → Date → IncomeStats
  unfolding listed add_invoices add_totals add_services top_service
  income_report db today apartment_id period_start period_end =
      let invoices = filter (is_income today apartment_id period_start period_end) (listed db) in
      let totals = add_totals invoices no_totals in
      record {
        values = add_invoices invoices [];
        totals = totals;
        top_service = top_service totals (add_services invoices no_services);
      }

  unfoldable pub income_stats :
      Db
      → Date
      → Option ℕ
      → Option ℕ
      → Option Date
      → Option Date
      → Bool
      → Result PnlError IncomeStats
  unfolding resolve_period income_report
  income_stats db today apartment_id months date_from date_to all_time = do
    raise_if (not (is_known db apartment_id)) PnlError.apartment_not_found
    let period = resolve_period today months date_from date_to all_time
    elim period [
      | err e ↦ err (PnlError.unprocessable e)
      | ok (period_start, period_end, response_months) ↦
          ok (income_report db today apartment_id period_start period_end)
    ]
