-- ===== src/Billing/Adjustments.antt =====
-- `_sync_adjustments` and `_sync_adjustment_expense` of backend/app/services/billing.py.
pub mod Strip
pub mod Expenses
use home_trap.Prelude.{
  ℕ, suc, ◌+◌, Bool, true, false, not, ◌&&◌, ◌||◌, Option, none, some, List, [], ◌∷◌, ◌++◌, map,
  leb, ◌==◌, opt_eq, is_some, Text, text, text_eq, filter, any, find?, update_where, if◌then◌else◌,
}
use home_trap.Prelude.Int.{ℤ, pos, leb_ℤ, abs}
use home_trap.Prelude.Sort.{first_by}
use home_trap.Prelude.Result.{Result, ok, err, ◌>>=◌, ◌>>◌, raise_if, or_raise}
use home_trap.Calendar.{Date}
use home_trap.Money.{money}
use home_trap.Models.{InvoiceLineKind, InvoiceLine, Invoice, Expense, next_key, expense_categories}
use home_trap.Billing.{
  Fault, label_required, not_negative, category_required, invalid_category, duplicate_ids,
  unknown_adjustment,
}
use home_trap.Billing.Recalculate.{is_adjustment}
use Strip.{strip}

-- `AdjustmentData`; `amount` has scale 2, and a category of the enumeration is its value.
pub record Adjustment : Type 0 where
  pub id : Option ℕ
  pub label : Text
  pub amount : ℤ
  pub record_as_expense : Bool
  pub category : Option Text

-- What the call changes: the invoice in hand and the table of expenses. `next_line` is the key
-- that the next new line gets.
pub record Workspace : Type 0 where
  pub invoice : Invoice
  pub expenses : List Expense
  pub next_line : ℕ

-- `line.expense`
abbrev pub of_line : ℕ → Expense → Bool
of_line line_id e = opt_eq e.invoice_line_id (some line_id)

abbrev pub new_expense : Workspace → InvoiceLine → Text → Expense
new_expense ws line category = record {
  id = next_key (λ (e : Expense). e.id) ws.expenses;
  apartment_id = some ws.invoice.apartment_id;
  invoice_line_id = some line.id;
  day = ws.invoice.period;
  category = category;
  amount = money 2 (abs line.amount);
  currency = text "UAH";
  notes = none;
}

abbrev renewed_expense : Workspace → InvoiceLine → Text → Expense → Expense
renewed_expense ws line category e = record e {
  apartment_id = some ws.invoice.apartment_id;
  day = ws.invoice.period;
  category = category;
  amount = money 2 (abs line.amount);
  currency = text "UAH";
}

-- The rest of the function once the expense of the line is known; `e.id` names its row.
unfoldable pub write_expense : Workspace → InvoiceLine → Option Expense → Text → Workspace
write_expense ws line none category = record ws {
  expenses = ws.expenses ++ new_expense ws line category ∷ [];
}
write_expense ws line (some e) category = record ws {
  expenses =
      update_where (λ (x : Expense). x.id == e.id) (renewed_expense ws line category) ws.expenses;
}

unfoldable pub drop_expense : Workspace → Option Expense → Workspace
drop_expense ws none = ws
drop_expense ws (some e) = record ws {
  expenses = filter (λ (x : Expense). not (x.id == e.id)) ws.expenses;
}

-- `_sync_adjustment_expense`
unfoldable pub sync_adjustment_expense :
    Workspace → InvoiceLine → Bool → Option Text → Result Fault Workspace
unfolding write_expense drop_expense
sync_adjustment_expense ws line false category =
    ok (drop_expense ws (find? (of_line line.id) ws.expenses))
sync_adjustment_expense ws line true none = err category_required
sync_adjustment_expense ws line true (some category) =
    ok (write_expense ws line (find? (of_line line.id) ws.expenses) category)

abbrev is_known_category : Option Text → Bool
is_known_category none = true
is_known_category (some category) = any (text_eq category) expense_categories

abbrev named : Option Text → Text
named none = []
named (some category) = category

-- One round of the first loop: the item that goes into `normalized`.
unfoldable pub normalize : Adjustment → Result Fault Adjustment
unfolding strip
normalize item = do
  let label = strip item.label
  let amount = money 2 item.amount
  raise_if (text_eq label []) label_required
  raise_if (item.record_as_expense && leb_ℤ (pos 0) amount) not_negative
  raise_if (item.record_as_expense && not (is_some item.category)) category_required
  raise_if (not (is_known_category item.category)) (invalid_category (named item.category))
  ok (record item { label = label; amount = amount })

unfoldable pub normalize_all : List Adjustment → Result Fault (List Adjustment)
unfolding normalize
normalize_all [] = ok []
normalize_all (item ∷ items) = do
  first ← normalize item
  rest ← normalize_all items
  ok (first ∷ rest)

-- `[line_id for line_id, *_ in normalized if line_id is not None]`
abbrev pub requested : List Adjustment → List ℕ
requested [] = []
requested (item ∷ items) = elim item.id [
  | none ↦ requested items
  | some line_id ↦ line_id ∷ requested items
]

abbrev pub contains : List ℕ → ℕ → Bool
contains xs x = any (λ y. y == x) xs

-- `len(ids) != len(set(ids))`
abbrev pub has_duplicates : List ℕ → Bool
has_duplicates [] = false
has_duplicates (x ∷ xs) = contains xs x || has_duplicates xs

-- `min(unknown_ids)`, if there are any.
abbrev pub least_unknown : List ℕ → List ℕ → Option ℕ
least_unknown asked known = first_by leb (filter (λ x. not (contains known x)) asked)

abbrev pub raise_unknown : Option ℕ → (ℕ → Fault) → Result Fault (Unit {0})
raise_unknown none fault = ok tt
raise_unknown (some x) fault = err (fault x)

abbrev pub line_ids : List InvoiceLine → List ℕ
line_ids lines = map (λ (l : InvoiceLine). l.id) lines

abbrev pub new_line : ℕ → Adjustment → InvoiceLine
new_line line_id item = record {
  id = line_id;
  service_id = none;
  service_name = item.label;
  service_kind = InvoiceLineKind.adjustment;
  prev_reading = none;
  curr_reading = none;
  consumed = none;
  tariff_value = pos 0;
  amount = item.amount;
}

abbrev pub relabel : Adjustment → InvoiceLine → InvoiceLine
relabel item line = record line { service_name = item.label; amount = item.amount }

abbrev pub has_line_id : ℕ → InvoiceLine → Bool
has_line_id line_id line = line.id == line_id

abbrev pub append_line : Workspace → InvoiceLine → Workspace
append_line ws line = record ws {
  invoice = record ws.invoice { lines = ws.invoice.lines ++ line ∷ [] };
  next_line = ws.next_line + 1;
}

abbrev pub relabel_line : Workspace → ℕ → Adjustment → Workspace
relabel_line ws line_id item = record ws {
  invoice = record ws.invoice {
    lines = update_where (has_line_id line_id) (relabel item) ws.invoice.lines;
  };
}

-- One round of the loop over `normalized`. The ids have been checked against `existing`, so the
-- raise for a missing one is never reached.
unfoldable pub sync_item : Workspace → Adjustment → Option ℕ → Result Fault Workspace
unfolding sync_adjustment_expense
sync_item ws item none =
    let line = new_line ws.next_line item in
    sync_adjustment_expense (append_line ws line) line item.record_as_expense item.category
sync_item ws item (some line_id) = do
  line ←
      or_raise (find? (has_line_id line_id) (filter is_adjustment ws.invoice.lines))
        (unknown_adjustment line_id)
  sync_adjustment_expense (relabel_line ws line_id item) (relabel item line) item.record_as_expense
      item.category

unfoldable pub sync_items : Workspace → List Adjustment → Result Fault Workspace
unfolding sync_item
sync_items ws [] = ok ws
sync_items ws (item ∷ items) = do ws' ← sync_item ws item item.id; sync_items ws' items

abbrev pub linked_to : List ℕ → Expense → Bool
linked_to ids e = elim e.invoice_line_id [ none ↦ false | some line_id ↦ contains ids line_id ]

-- The last loop: a line that leaves the invoice is deleted, and its expense with it
-- (`ON DELETE CASCADE`).
unfoldable pub remove_lines : Workspace → List ℕ → Workspace
remove_lines ws removed = record ws {
  invoice = record ws.invoice {
    lines = filter (λ (l : InvoiceLine). not (contains removed l.id)) ws.invoice.lines;
  };
  expenses = filter (λ e. not (linked_to removed e)) ws.expenses;
}

-- `_sync_adjustments`
unfoldable pub sync_adjustments : Workspace → List Adjustment → Result Fault Workspace
unfolding normalize_all sync_items remove_lines
sync_adjustments ws adjustments = do
  let existing = line_ids (filter is_adjustment ws.invoice.lines)
  items ← normalize_all adjustments
  let asked = requested items
  raise_if (has_duplicates asked) duplicate_ids
  raise_unknown (least_unknown asked existing) unknown_adjustment
  ws' ← sync_items ws items
  ok (remove_lines ws' (filter (λ x. not (contains asked x)) existing))
