-- ===== src/Stats/Pnl/Balance.antt =====
-- The totals of the report on profit and loss of backend/app/routers/stats.py against its rows.
use home_trap.Prelude.{
  ℕ, ◌+◌, ◌≡◌, refl, sym, ap, ◌∙◌, Option, none, some, List, [], ◌∷◌, ◌++◌, map, Text, text_eq,
  length, arith,
}
use home_trap.Prelude.Int.{ℤ, ◌+ℤ◌, ◌-ℤ◌, sum, int_laws, zero-+ℤ}
use home_trap.Prelude.Sort.{sort_by}
use home_trap.Calendar.{Date, date_leb, date_eq, month_start}
use home_trap.Calendar.Order.{date_eq→eq, date_eq_refl}
use home_trap.Models.{Expense, Db}
use home_trap.Stats.Tally.{tally, amount_at, distinct, keys, amounts, amounts-tally}
use home_trap.Stats.Tally.Keys.{sum-keys_left, sum-keys_right}
use home_trap.Stats.Pnl.{
  PnlPoint, ExpenseSums, no_expenses, point, income_rows, reported_expenses, amount_uah,
  add_expense, sum_expenses, pnl_report,
}

abbrev with_amount : Expense → Option ℤ → List (Expense × ℤ) → List (Expense × ℤ)
with_amount e none rest = rest
with_amount e (some a) rest = (e, a) ∷ rest

abbrev by_month : List (Expense × ℤ) → List (Date × ℤ)
by_month rows = map (λ r. (month_start r.0.day, r.1)) rows

abbrev by_category : List (Expense × ℤ) → List (Text × ℤ)
by_category rows = map (λ r. (r.0.category, r.1)) rows

sum-by_month :
    (rows : List (Expense × ℤ)) → sum (amounts (by_month rows)) ≡ sum (map (λ r. r.1) rows)
sum-by_month [] = refl
sum-by_month ((e, a) ∷ rows) = ap (λ x. a +ℤ x) (sum-by_month rows)

sum-by_category :
    (rows : List (Expense × ℤ)) → sum (amounts (by_category rows)) ≡ sum (map (λ r. r.1) rows)
sum-by_category [] = refl
sum-by_category ((e, a) ∷ rows) = ap (λ x. a +ℤ x) (sum-by_category rows)

module _ (upper : Text → Text) (percent : ℤ → ℤ → ℤ) where
  -- The expenses that can be converted, with their amounts in hryvnias.
  unfoldable pub converted : Db → List Expense → List (Expense × ℤ)
  converted db [] = []
  converted db (e ∷ es) = with_amount e (amount_uah upper percent db e) (converted db es)

  -- What the loop over the expenses leaves.
  abbrev Summed : Db → List Expense → ExpenseSums → ExpenseSums → Type 0
  Summed db es s r =
      (r.monthly ≡ tally date_eq (by_month (converted db es)) s.monthly)
      × (r.by_category ≡ tally text_eq (by_category (converted db es)) s.by_category)
      × (r.unconverted_count + length (converted db es) ≡ s.unconverted_count + length es)

  no_round : (db : Db) (s : ExpenseSums) → sum_expenses upper percent db [] s ≡ s
  unfolding sum_expenses
  no_round db s = refl

  one_round :
      (db : Db) (e : Expense) (es : List Expense) (s : ExpenseSums)
      → sum_expenses upper percent db (e ∷ es) s
        ≡ sum_expenses upper percent db es
            (add_expense upper percent e (amount_uah upper percent db e) s)
  unfolding sum_expenses
  one_round db e es s = refl

  sum_expenses-Summed :
      (db : Db) (es : List Expense) (s : ExpenseSums)
      → Summed db es s (sum_expenses upper percent db es s)
  unfolding converted tally
  sum_expenses-Summed db [] s = rw (no_round db s) (refl, refl, refl)
  sum_expenses-Summed db (e ∷ es) s =
      next_expense (λ s'. sum_expenses-Summed db es s') (amount_uah upper percent db e) refl
    where
      next_expense :
          ((s' : ExpenseSums) → Summed db es s' (sum_expenses upper percent db es s'))
          → (o : Option ℤ) → amount_uah upper percent db e ≡ o
          → Summed db (e ∷ es) s (sum_expenses upper percent db (e ∷ es) s)
      next_expense ih none h =
          rw (one_round db e es s, h)
            (let (m, b, c) = ih (add_expense upper percent e none s) in
              (m, b, let c' = c in omega arith))
      next_expense ih (some a) h =
          rw (one_round db e es s, h)
            (let (m, b, c) = ih (add_expense upper percent e (some a) s) in
              (m, b, let c' = c in omega arith))

  incomes :
      (a b : List (Date × ℤ)) (ps : List Date)
      → sum (map (λ (v : PnlPoint). v.income) (map (point a b) ps))
        ≡ sum (map (λ p. amount_at date_eq p a) ps)
  incomes a b [] = refl
  incomes a b (p ∷ ps) = ap (λ x. amount_at date_eq p a +ℤ x) (incomes a b ps)

  expenses :
      (a b : List (Date × ℤ)) (ps : List Date)
      → sum (map (λ (v : PnlPoint). v.expenses) (map (point a b) ps))
        ≡ sum (map (λ p. amount_at date_eq p b) ps)
  expenses a b [] = refl
  expenses a b (p ∷ ps) = ap (λ x. amount_at date_eq p b +ℤ x) (expenses a b ps)

  nets :
      (a b : List (Date × ℤ)) (ps : List Date)
      → sum (map (λ (v : PnlPoint). v.net) (map (point a b) ps))
        ≡ sum (map (λ (v : PnlPoint). v.income) (map (point a b) ps))
          -ℤ sum (map (λ (v : PnlPoint). v.expenses) (map (point a b) ps))
  nets a b [] = omega int_laws
  nets a b (p ∷ ps) = rw (nets a b ps) (omega int_laws)

  -- The months of a report.
  abbrev months_of : List (Date × ℤ) → List (Date × ℤ) → List Date
  months_of rents costs =
      sort_by date_leb
        (distinct date_eq (keys (tally date_eq rents []) ++ keys (tally date_eq costs [])))

-- In the report on profit and loss of any scope and period, the income is the sum of the rents of the
-- invoices in it; the expenses are the sum of the amounts of its expenses that can be converted, and
-- so is the sum over the categories; the net amount is the sum of the months' net amounts; and each
-- expense is either converted or counted as unconverted.
pub pnl_report-balance :
    (upper : Text → Text) (percent : ℤ → ℤ → ℤ) (db : Db) (today : Date) (apartment_id : Option ℕ)
    (period_start : Option Date) (period_end : Date)
    → let r = pnl_report upper percent db today apartment_id period_start period_end in
      let expenses_in = reported_expenses db apartment_id period_start period_end in
      let rows = converted upper percent db expenses_in in
      (r.income ≡ sum (amounts (income_rows db today apartment_id period_start period_end)))
      × (r.expenses_total ≡ sum (map (λ c. c.1) rows))
      × (sum (amounts r.expenses_by_category) ≡ r.expenses_total)
      × (r.net ≡ sum (map (λ (v : PnlPoint). v.net) r.values))
      × (r.unconverted_count + length rows ≡ length expenses_in)
unfolding pnl_report tally
pnl_report-balance upper percent db today apartment_id period_start period_end =
    let rents = income_rows db today apartment_id period_start period_end in
    let es = reported_expenses db apartment_id period_start period_end in
    let rows = converted upper percent db es in
    let (m, b, c) = sum_expenses-Summed upper percent db es no_expenses in
    let costs = by_month rows in
    let a1 = tally date_eq rents [] in
    let a2 = tally date_eq costs [] in
    let ps = months_of upper percent rents costs in
    let total_income : sum (map (λ (v : PnlPoint). v.income) (map (point a1 a2) ps))
        ≡ sum (amounts rents) =
      incomes upper percent a1 a2 ps
      ∙ sum-keys_left date_eq date_eq→eq date_eq_refl date_leb rents costs in
    let total_expenses : sum (map (λ (v : PnlPoint). v.expenses) (map (point a1 a2) ps))
        ≡ sum (map (λ x. x.1) rows) =
      expenses upper percent a1 a2 ps
      ∙ sum-keys_right date_eq date_eq→eq date_eq_refl date_leb costs rents
      ∙ sum-by_month rows in
    let categories : sum (amounts (tally text_eq (by_category rows) []))
        ≡ sum (map (λ x. x.1) rows) =
      amounts-tally text_eq (by_category rows) [] ∙ zero-+ℤ _ ∙ sum-by_category rows in
    rw (m, b)
      (
        total_income,
        total_expenses,
        categories ∙ sym total_expenses,
        sym (nets upper percent a1 a2 ps),
        omega arith,
      )
