-- ===== src/Stats/Pnl.antt =====
-- `pnl_stats` of backend/app/routers/stats.py. `upper` is Python's `str.upper`; `percent` is the Decimal
-- quotient `net * 100 / income_total`, rounded by `money`.
pub mod Balance
use home_trap.Prelude.{
  ℕ, suc, not, ◌+◌, Bool, true, false, ◌&&◌, ◌||◌, Option, none, some, List, [], ◌∷◌, ◌++◌, map,
  Text, text, text_eq, ◌==◌, opt_eq, filter, any, is_some, if◌then◌else◌,
}
use home_trap.Prelude.Int.{ℤ, pos, ◌+ℤ◌, ◌-ℤ◌, ◌*ℤ◌, ltb_ℤ, sum}
use home_trap.Prelude.Sort.{sort_by}
use home_trap.Prelude.Result.{Result, ok, err, ◌>>=◌, ◌>>◌, raise_if}
use home_trap.Calendar.{Date, date_ltb, date_leb, date_eq, month_start, shift_month}
use home_trap.Models.{InvoiceStatus, InvoiceLine, Apartment, Invoice, Expense, Db}
use home_trap.Money.{money}
use home_trap.Nbu.{default_currency, get_stored_rate}
use home_trap.Stats.{Unprocessable, resolve_period, is_charged}
use home_trap.Stats.Tally.{tally, amount_at, distinct, keys, amounts, add_at}

-- The two statuses of a refusal.
pub data PnlError : Type 0 where
  apartment_not_found : PnlError
  unprocessable : Unprocessable → PnlError

-- `_require_apartment`, where an apartment is asked for.
abbrev pub is_known : Db → Option ℕ → Bool
is_known db none = true
is_known db (some i) = any (λ (a : Apartment). a.id == i) db.apartments

-- `Invoice.period >= period_start`, where there is one.
abbrev pub not_before : Option Date → Date → Bool
not_before none d = true
not_before (some start) d = date_leb start d

abbrev pub within_scope : Option ℕ → Option ℕ → Bool
within_scope none apartment_id = true
within_scope (some i) apartment_id = opt_eq apartment_id (some i)

abbrev pub is_income : Date → Option ℕ → Option Date → Date → Invoice → Bool
is_income today apartment_id period_start period_end i =
    is_charged i
    && (date_leb i.period (month_start today)
        && (date_leb i.period period_end
            && (not_before period_start i.period
                && within_scope apartment_id (some i.apartment_id))))

abbrev income_row : Invoice → Date × ℤ
income_row i = (i.period, i.rent_amount_uah)

unfoldable pub income_rows : Db → Date → Option ℕ → Option Date → Date → List (Date × ℤ)
income_rows db today apartment_id period_start period_end =
    map income_row (filter (is_income today apartment_id period_start period_end) db.invoices)

abbrev is_line : Option ℕ → InvoiceLine → Bool
is_line line_id l = opt_eq line_id (some l.id)

-- The expense has no line, or the line of an invoice that is issued or paid.
abbrev pub is_effective : Db → Expense → Bool
is_effective db e = elim e.invoice_line_id [
  | none ↦ true
  | some id ↦ any (λ (i : Invoice). is_charged i && any (is_line (some id)) i.lines) db.invoices
]

abbrev pub is_reported : Db → Option ℕ → Option Date → Date → Expense → Bool
is_reported db apartment_id period_start period_end e =
    date_ltb e.day (shift_month period_end 1 0)
    && (is_effective db e
        && (not_before period_start e.day && within_scope apartment_id e.apartment_id))

unfoldable pub reported_expenses : Db → Option ℕ → Option Date → Date → List Expense
unfolding shift_month
reported_expenses db apartment_id period_start period_end =
    filter (is_reported db apartment_id period_start period_end) db.expenses

-- The sums of the loop over the expenses.
pub record ExpenseSums : Type 0 where
  pub monthly : List (Date × ℤ)
  pub by_category : List (Text × ℤ)
  pub unconverted_count : ℕ
  pub by_currency : List (Text × ℤ)

abbrev pub no_expenses : ExpenseSums
no_expenses = record { monthly = []; by_category = []; unconverted_count = 0; by_currency = [] }

pub record PnlPoint : Type 0 where
  pub period : Date
  pub income : ℤ
  pub expenses : ℤ
  pub net : ℤ

pub record PnlStats : Type 0 where
  pub values : List PnlPoint
  pub income : ℤ
  pub expenses_total : ℤ
  pub expenses_by_category : List (Text × ℤ)
  pub net : ℤ
  pub margin_percent : Option ℤ
  pub unconverted_count : ℕ
  pub unconverted_by_currency : List (Text × ℤ)

-- `expense.amount * rate`, where there is a rate.
abbrev converted_at : ℤ → Option ℤ → Option ℤ
converted_at amount none = none
converted_at amount (some rate) = some (money 8 (amount *ℤ rate))

abbrev pub point : List (Date × ℤ) → List (Date × ℤ) → Date → PnlPoint
point income_monthly expenses_monthly period =
    let income = amount_at date_eq period income_monthly in
    let expenses = amount_at date_eq period expenses_monthly in
    record { period = period; income = income; expenses = expenses; net = income -ℤ expenses }

module _ (upper : Text → Text) (percent : ℤ → ℤ → ℤ) where
  unfoldable pub amount_uah : Db → Expense → Option ℤ
  unfolding money
  amount_uah db e =
      let currency = upper e.currency in
      if text_eq currency (text "UAH")
      then some e.amount
      else if text_eq currency default_currency
      then converted_at e.amount (get_stored_rate db e.day default_currency)
      else none

  abbrev pub add_expense : Expense → Option ℤ → ExpenseSums → ExpenseSums
  add_expense e none s = record s {
    unconverted_count = s.unconverted_count + 1;
    by_currency = add_at text_eq (upper e.currency) e.amount s.by_currency;
  }
  add_expense e (some amount) s = record s {
    monthly = add_at date_eq (month_start e.day) amount s.monthly;
    by_category = add_at text_eq e.category amount s.by_category;
  }

  unfoldable pub sum_expenses : Db → List Expense → ExpenseSums → ExpenseSums
  unfolding amount_uah add_at month_start
  sum_expenses db [] s = s
  sum_expenses db (e ∷ es) s = sum_expenses db es (add_expense e (amount_uah db e) s)

  -- From the two queries on.
  unfoldable pub pnl_report : Db → Date → Option ℕ → Option Date → Date → PnlStats
  unfolding income_rows reported_expenses sum_expenses tally distinct sort_by amount_at
  pnl_report db today apartment_id period_start period_end =
      let income_monthly =
        tally date_eq (income_rows db today apartment_id period_start period_end) [] in
      let sums =
        sum_expenses db (reported_expenses db apartment_id period_start period_end) no_expenses in
      let periods =
        sort_by date_leb (distinct date_eq (keys income_monthly ++ keys sums.monthly)) in
      let values = map (point income_monthly sums.monthly) periods in
      let income_total = sum (map (λ (v : PnlPoint). v.income) values) in
      let expenses_total = sum (map (λ (v : PnlPoint). v.expenses) values) in
      let net = income_total -ℤ expenses_total in
      record {
        values = values;
        income = income_total;
        expenses_total = expenses_total;
        expenses_by_category = sums.by_category;
        net = net;
        margin_percent =
            if ltb_ℤ (pos 0) income_total then some (percent net income_total) else none;
        unconverted_count = sums.unconverted_count;
        unconverted_by_currency = sums.by_currency;
      }

  unfoldable pub pnl_stats :
      Db → Date → Option ℕ → Option ℕ → Option Date → Option Date → Bool → Result PnlError PnlStats
  unfolding resolve_period pnl_report
  pnl_stats db today apartment_id months date_from date_to all_time = do
    raise_if (not (is_known db apartment_id)) PnlError.apartment_not_found
    let period = resolve_period today months date_from date_to all_time
    elim period [
      | err e ↦ err (PnlError.unprocessable e)
      | ok (period_start, period_end, response_months) ↦
          ok (pnl_report db today apartment_id period_start period_end)
    ]
