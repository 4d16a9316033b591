-- ===== src/Stats/Consumption.antt =====
-- `consumption_stats` of backend/app/routers/stats.py. `average` is the Decimal quotient of a sum and a
-- number, rounded to thousandths.
pub mod Series
use home_trap.Prelude.{
  ℕ, Bool, true, false, not, ◌&&◌, Option, none, some, List, [], ◌∷◌, ◌++◌, map, Text, ltb, leb,
  ◌==◌, opt_eq, filter, length, if◌then◌else◌,
}
use home_trap.Prelude.Int.{ℤ, pos, ◌+ℤ◌, ltb_ℤ, sum}
use home_trap.Prelude.Sort.{sort_by}
use home_trap.Prelude.Result.{Result, ok, err, ◌>>=◌, ◌>>◌, raise_if}
use home_trap.Calendar.{Date, date_leb}
use home_trap.Models.{InvoiceLineKind, InvoiceLine, Invoice, Service, Db}
use home_trap.Billing.Recalculate.{is_metered}
use home_trap.Stats.{resolve_period, is_charged}
use home_trap.Stats.Pnl.{PnlError, is_known, not_before}

pub record ConsumptionPoint : Type 0 where
  pub period : Date
  pub consumed : ℤ
  pub cost : ℤ

-- A row of the query.
pub record ConsumptionRow : Type 0 where
  pub service : Service
  pub value : ConsumptionPoint

pub record ServiceSeries : Type 0 where
  pub service : Service
  pub values : List ConsumptionPoint

pub record Summary : Type 0 where
  pub avg : ℤ
  pub min : ℤ
  pub max : ℤ

-- `ORDER BY Service.sort_order, Service.id`
abbrev before_service : Service → Service → Bool
before_service a b =
    if ltb_ℤ a.sort_order b.sort_order
    then true
    else if ltb_ℤ b.sort_order a.sort_order
    then false
    else leb a.id b.id

abbrev consider :
    Bool → Service → Date → InvoiceLine → Option ℤ → List ConsumptionRow → List ConsumptionRow
consider false service period l consumed rest = rest
consider true service period l none rest = rest
consider true service period l (some c) rest =
    record { service = service; value = record { period = period; consumed = c; cost = l.amount } }
    ∷ rest

unfoldable pub rows_of_lines : Service → Date → List InvoiceLine → List ConsumptionRow
rows_of_lines service period [] = []
rows_of_lines service period (l ∷ lines) =
    consider (opt_eq l.service_id (some service.id) && is_metered l) service period l l.consumed
      (rows_of_lines service period lines)

unfoldable pub rows_of_invoices : Service → List Invoice → List ConsumptionRow
unfolding rows_of_lines
rows_of_invoices service [] = []
rows_of_invoices service (i ∷ invoices) =
    rows_of_lines service i.period i.lines ++ rows_of_invoices service invoices

unfoldable pub rows_of_services : List Service → List Invoice → List ConsumptionRow
unfolding rows_of_invoices
rows_of_services [] invoices = []
rows_of_services (s ∷ services) invoices =
    rows_of_invoices s invoices ++ rows_of_services services invoices

abbrev is_counted : Option Date → Date → Invoice → Bool
is_counted period_start period_end i =
    is_charged i && (date_leb i.period period_end && not_before period_start i.period)

abbrev period_leb : Invoice → Invoice → Bool
period_leb a b = date_leb a.period b.period

unfoldable pub consumption_rows : Db → ℕ → Option Date → Date → List ConsumptionRow
unfolding rows_of_services sort_by
consumption_rows db apartment_id period_start period_end =
    rows_of_services
      (sort_by before_service
        (filter (λ (s : Service). s.apartment_id == apartment_id) db.services))
      (sort_by period_leb (filter (is_counted period_start period_end) db.invoices))

-- `series.setdefault(service_id, …)` and the new value at its end.
unfoldable pub add_row : ConsumptionRow → List ServiceSeries → List ServiceSeries
add_row r [] = record { service = r.service; values = r.value ∷ [] } ∷ []
add_row r (s ∷ series) =
    let rest = add_row r series in
    if s.service.id == r.service.id
    then record s { values = s.values ++ r.value ∷ [] } ∷ series
    else s ∷ rest

unfoldable pub collect_rows : List ConsumptionRow → List ServiceSeries → List ServiceSeries
unfolding add_row
collect_rows [] series = series
collect_rows (r ∷ rows) series = collect_rows rows (add_row r series)

abbrev pub lesser : ℤ → ℤ → ℤ
lesser a b = if ltb_ℤ b a then b else a

abbrev pub greater : ℤ → ℤ → ℤ
greater a b = if ltb_ℤ a b then b else a

-- `min` and `max` of a list that is not empty.
unfoldable pub min_of : ℤ → List ℤ → ℤ
min_of a [] = a
min_of a (b ∷ bs) = min_of (lesser a b) bs

unfoldable pub max_of : ℤ → List ℤ → ℤ
max_of a [] = a
max_of a (b ∷ bs) = max_of (greater a b) bs

abbrev pub consumed_of : List ConsumptionPoint → List ℤ
consumed_of points = map (λ p. p.consumed) points

module _ (average : ℤ → ℕ → ℤ) where
  -- The series always holds a value.
  unfoldable pub summary : List ConsumptionPoint → Option Summary
  unfolding min_of max_of
  summary [] = none
  summary (p ∷ points) =
      let consumed_values = p.consumed ∷ consumed_of points in
      some (record {
        avg = average (sum consumed_values) (length consumed_values);
        min = min_of p.consumed (consumed_of points);
        max = max_of p.consumed (consumed_of points);
      })

  unfoldable pub consumption_report :
      Db → ℕ → Option Date → Date → List (ServiceSeries × Option Summary)
  unfolding consumption_rows collect_rows summary
  consumption_report db apartment_id period_start period_end =
      map (λ s. (s, summary s.values))
        (collect_rows (consumption_rows db apartment_id period_start period_end) [])

  unfoldable pub consumption_stats :
      Db
      → Date
      → ℕ
      → Option ℕ
      → Option Date
      → Option Date
      → Bool
      → Result PnlError (List (ServiceSeries × Option Summary))
  unfolding resolve_period consumption_report
  consumption_stats db today apartment_id months date_from date_to all_time = do
    raise_if (not (is_known db (some apartment_id))) PnlError.apartment_not_found
    let period = resolve_period today months date_from date_to all_time
    elim period [
      | err e ↦ err (PnlError.unprocessable e)
      | ok (period_start, period_end, response_months) ↦
          ok (consumption_report db apartment_id period_start period_end)
    ]
