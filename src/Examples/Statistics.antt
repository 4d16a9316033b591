-- ===== src/Examples/Statistics.antt =====
-- The reports on the small rental with one paid invoice and two expenses.
use home_trap.Prelude.{
  ℕ, ◌+◌, ◌≡◌, refl, Option, none, some, List, [], ◌∷◌, map, Text, text, length, filter, All,
}
use home_trap.Prelude.Int.{ℤ, pos, ◌+ℤ◌, ◌-ℤ◌, ◌*ℤ◌, sum}
use home_trap.Calendar.{Date, date}
use home_trap.Money.{money}
use home_trap.Models.{InvoiceStatus, InvoiceLineKind, InvoiceLine, Invoice, Expense, Db}
use home_trap.Billing.Recalculate.Totals.{IsSettled}
use home_trap.Stats.{listed}
use home_trap.Stats.Tally.{amounts}
use home_trap.Stats.Pnl.{PnlPoint, PnlStats, income_rows, reported_expenses, pnl_report}
use home_trap.Stats.Pnl.Balance.{converted, pnl_report-balance}
use home_trap.Stats.Pnl.{is_income}
use home_trap.Stats.Income.{IncomePoint, IncomeStats, add_services, no_services, income_report}
use home_trap.Stats.Income.Balance.{income_report-balance}
use home_trap.Stats.Consumption.{ServiceSeries, Summary, consumption_rows, consumption_report}
use home_trap.Stats.Consumption.Series.{
  values_for, points_for, Summarised, consumption_report-values,
}
use home_trap.Examples.Data.{store, january, now}

abbrev water_line : InvoiceLine
water_line = record {
  id = 1;
  service_id = some 7;
  service_name = text "Water";
  service_kind = InvoiceLineKind.metered;
  prev_reading = some (pos 100000);
  curr_reading = some (pos 110000);
  consumed = some (pos 10000);
  tariff_value = pos 3050000;
  amount = pos 30500;
}

abbrev paid_invoice : Invoice
paid_invoice = record {
  id = 1;
  apartment_id = 1;
  period = january;
  status = InvoiceStatus.paid;
  issued_at = some now;
  paid_at = some now;
  exchange_rate = pos 41500000;
  rent_amount_usd = pos 50000;
  rent_amount_uah = pos 2075000;
  utilities_total = pos 30500;
  adjustments_total = pos 0;
  grand_total = pos 2105500;
  lines = water_line ∷ [];
}

abbrev repair : Expense
repair = record {
  id = 1;
  apartment_id = some 1;
  invoice_line_id = none;
  day = date 2026 1 20;
  category = text "repair";
  amount = pos 15000;
  currency = text "UAH";
  notes = none;
}

abbrev tools : Expense
tools = record repair { id = 2; currency = text "EUR"; amount = pos 2000 }

abbrev pub books : Db
books = record store { invoices = paid_invoice ∷ []; expenses = repair ∷ tools ∷ [] }

abbrev today : Date
today = date 2026 2 3

abbrev same_text : Text → Text
same_text t = t

abbrev some_percent : ℤ → ℤ → ℤ
some_percent a b = a

abbrev some_average : ℤ → ℕ → ℤ
some_average a n = a

abbrev pnl : PnlStats
pnl = pnl_report same_text some_percent books today none none january

pnl_net : (pnl.net ≡ pos 2060000) × (pnl.unconverted_count ≡ 1)
unfolding pnl_report ◌+ℤ◌ ◌-ℤ◌
pnl_net = (refl, refl)

pnl_report-balance_example :
    (pnl.income ≡ sum (amounts (income_rows books today none none january)))
    × (pnl.expenses_total
        ≡ sum (
            map
              (λ c. c.1)
              (converted same_text some_percent books (reported_expenses books none none january))))
    × (sum (amounts pnl.expenses_by_category) ≡ pnl.expenses_total)
    × (pnl.net ≡ sum (map (λ (v : PnlPoint). v.net) pnl.values))
    × (pnl.unconverted_count
          + length
              (converted same_text some_percent books (reported_expenses books none none january))
        ≡ length (reported_expenses books none none january))
pnl_report-balance_example = pnl_report-balance same_text some_percent books today none none january

books-IsSettled : All IsSettled books.invoices
unfolding money ◌+ℤ◌ ◌*ℤ◌
books-IsSettled = (record { rent = refl; utilities = refl; adjustments = refl; grand = refl }, tt)

abbrev income : IncomeStats
income = income_report some_percent books today none none january

abbrev reported : List Invoice
reported = filter (is_income today none none january) (listed books)

income_report-balance_example :
    (sum (map (λ (p : IncomePoint). p.rent) income.values) ≡ income.totals.rent)
    × (sum (map (λ (p : IncomePoint). p.utilities) income.values) ≡ income.totals.utilities)
    × (sum (map (λ (p : IncomePoint). p.adjustments) income.values) ≡ income.totals.adjustments)
    × (sum (map (λ (p : IncomePoint). p.total) income.values) ≡ income.totals.total)
    × (income.totals.rent ≡ sum (map (λ (i : Invoice). i.rent_amount_uah) reported))
    × (income.totals.utilities ≡ sum (map (λ (i : Invoice). i.utilities_total) reported))
    × (income.totals.adjustments ≡ sum (map (λ (i : Invoice). i.adjustments_total) reported))
    × (income.totals.total ≡ sum (map (λ (i : Invoice). i.grand_total) reported))
    × (income.totals.total
        ≡ income.totals.rent +ℤ income.totals.utilities +ℤ income.totals.adjustments)
    × (sum (amounts (add_services reported no_services).totals) ≡ income.totals.utilities)
income_report-balance_example =
    income_report-balance some_percent books today none none january books-IsSettled

consumption_report-values_example :
    (values_for 7 (
        map
          (λ (s : ServiceSeries × Option Summary). s.0)
          (consumption_report some_average books 1 none january))
      ≡ points_for 7 (consumption_rows books 1 none january))
    × All
        (λ (s : ServiceSeries × Option Summary). Summarised s.1 s.0.values)
        (consumption_report some_average books 1 none january)
consumption_report-values_example = consumption_report-values some_average books 1 none january 7

water_values :
    values_for 7 (
      map
        (λ (s : ServiceSeries × Option Summary). s.0)
        (consumption_report some_average books 1 none january))
    ≡ record { period = january; consumed = pos 10000; cost = pos 30500 } ∷ []
unfolding consumption_report values_for
water_values = refl
