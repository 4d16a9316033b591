-- ===== src/Expenses.antt =====
-- backend/app/routers/expenses.py: expenses that are entered by hand. Those linked to an invoice line
-- belong to the invoice.
pub mod Linked
use home_trap.Prelude.{
  ℕ, Bool, true, false, not, ◌&&◌, ◌||◌, Option, none, some, List, [], ◌∷◌, ◌++◌, Text, ltb, leb,
  ◌==◌, is_some, opt_eq, filter, find?, update_where, if◌then◌else◌,
}
use home_trap.Prelude.Int.{ℤ}
use home_trap.Prelude.Sort.{sort_by}
use home_trap.Prelude.Result.{Result, ok, err, ◌>>=◌, ◌>>◌, raise_if, or_raise}
use home_trap.Calendar.{Date, date_ltb, date_leb, date_eq}
use home_trap.Models.{Apartment, Expense, Db, next_key}

pub data Rejection : Type 0 where
  apartment_not_found expense_not_found invoice_linked : Rejection

-- `ExpenseCreate`
pub record NewExpense : Type 0 where
  pub apartment_id : Option ℕ
  pub day : Date
  pub category : Text
  pub amount : ℤ
  pub currency : Text
  pub notes : Option Text

-- `ExpenseUpdate` with `exclude_unset`: `none` is a field that the request leaves out. A `null` for a
-- column that must hold a value is refused by the database, and is left out here.
pub record Updates : Type 0 where
  pub apartment_id : Option (Option ℕ)
  pub day : Option Date
  pub category : Option Text
  pub amount : Option ℤ
  pub currency : Option Text
  pub notes : Option (Option Text)

unfoldable pub get_apartment : Db → ℕ → Result Rejection Apartment
get_apartment db apartment_id =
    or_raise (find? (λ (a : Apartment). a.id == apartment_id) db.apartments)
      Rejection.apartment_not_found

abbrev pub is_expense : ℕ → Expense → Bool
is_expense expense_id e = e.id == expense_id

unfoldable pub get_expense : Db → ℕ → Result Rejection Expense
get_expense db expense_id =
    or_raise (find? (is_expense expense_id) db.expenses) Rejection.expense_not_found

unfoldable pub ensure_expense_is_editable : Expense → Result Rejection (Unit {0})
ensure_expense_is_editable e = raise_if (is_some e.invoice_line_id) Rejection.invoice_linked

-- The check of an apartment that the request names.
unfoldable pub check_apartment : Db → Option ℕ → Result Rejection (Unit {0})
unfolding get_apartment
check_apartment db none = ok tt
check_apartment db (some apartment_id) = get_apartment db apartment_id >>= λ _. ok tt

unfoldable pub create_expense : Db → NewExpense → Result Rejection (Expense × Db)
unfolding check_apartment
create_expense db payload = do
  check_apartment db payload.apartment_id
  let expense : Expense = record {
    id = next_key (λ (e : Expense). e.id) db.expenses;
    apartment_id = payload.apartment_id;
    invoice_line_id = none;
    day = payload.day;
    category = payload.category;
    amount = payload.amount;
    currency = payload.currency;
    notes = payload.notes;
  }
  ok (expense, record db { expenses = db.expenses ++ expense ∷ [] })

-- `setattr` of a field that the request gives.
abbrev set_field : {A : Type 0} → Option A → A → A
set_field none old = old
set_field (some new) old = new

unfoldable pub write_updates : Updates → Expense → Expense
write_updates u e = record e {
  apartment_id = set_field u.apartment_id e.apartment_id;
  day = set_field u.day e.day;
  category = set_field u.category e.category;
  amount = set_field u.amount e.amount;
  currency = set_field u.currency e.currency;
  notes = set_field u.notes e.notes;
}

abbrev pub named_apartment : Option (Option ℕ) → Option ℕ
named_apartment none = none
named_apartment (some a) = a

unfoldable pub update_expense : Db → ℕ → Updates → Result Rejection (Expense × Db)
unfolding get_expense ensure_expense_is_editable check_apartment write_updates
update_expense db expense_id updates = do
  expense ← get_expense db expense_id
  ensure_expense_is_editable expense
  check_apartment db (named_apartment updates.apartment_id)
  let expense' = write_updates updates expense
  ok (
    expense',
    record db { expenses = update_where (is_expense expense_id) (λ _. expense') db.expenses },
  )

unfoldable pub delete_expense : Db → ℕ → Result Rejection Db
unfolding get_expense ensure_expense_is_editable
delete_expense db expense_id = do
  expense ← get_expense db expense_id
  ensure_expense_is_editable expense
  ok (record db { expenses = filter (λ (e : Expense). not (is_expense expense_id e)) db.expenses })

abbrev listed_before : Expense → Expense → Bool
listed_before a b = if date_eq a.day b.day then leb b.id a.id else date_ltb b.day a.day

abbrev from_date : Option Date → Expense → Bool
from_date none e = true
from_date (some d) e = date_leb d e.day

abbrev to_date : Option Date → Expense → Bool
to_date none e = true
to_date (some d) e = date_leb e.day d

abbrev of_apartment : Option ℕ → Expense → Bool
of_apartment none e = true
of_apartment (some a) e = opt_eq e.apartment_id (some a)

unfoldable pub list_expenses : Db → Option ℕ → Option Date → Option Date → List Expense
unfolding sort_by
list_expenses db apartment_id date_from date_to = sort_by listed_before (
    filter (λ e. of_apartment apartment_id e && (from_date date_from e && to_date date_to e))
      db.expenses)
