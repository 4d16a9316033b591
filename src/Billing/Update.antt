-- ===== src/Billing/Update.antt =====
-- `update_draft`, `delete_draft` and `list_invoices` of backend/app/services/billing.py.
use home_trap.Prelude.{
  ℕ, Bool, true, false, not, ◌&&◌, Option, none, some, List, [], ◌∷◌, map, ◌==◌, ltb, filter, find?,
  update_where, if◌then◌else◌,
}
use home_trap.Prelude.Int.{ℤ}
use home_trap.Prelude.Sort.{sort_by}
use home_trap.Prelude.Result.{Result, ok, ◌>>=◌, ◌>>◌, raise_if, or_raise}
use home_trap.Calendar.{Date, date_ltb, date_eq}
use home_trap.Models.{InvoiceStatus, status_eq, InvoiceLine, Invoice, Db, next_key}
use home_trap.Billing.{
  Fault, unknown_line, not_metered, not_editable, not_deletable, validate_invoice_chronology,
  get_invoice, locked_invoice,
}
use home_trap.Billing.Recalculate.{is_metered, recalculate}
use home_trap.Billing.Draft.{all_lines}
use home_trap.Billing.Adjustments.{
  Adjustment, Workspace, has_line_id, least_unknown, raise_unknown, line_ids, linked_to,
  sync_adjustments,
}

-- `readings`, a dict in insertion order: a line's id and its new reading.
abbrev pub Readings : Type 0
Readings = List (ℕ × Option ℤ)

abbrev pub reading_ids : Readings → List ℕ
reading_ids readings = map (λ (r : ℕ × Option ℤ). r.0) readings

abbrev write_reading : ℕ → Option ℤ → InvoiceLine → InvoiceLine
write_reading line_id current l = if l.id == line_id then record l { curr_reading = current } else l

-- The loop over the readings.
unfoldable pub apply_readings : List InvoiceLine → Readings → Result Fault (List InvoiceLine)
apply_readings lines [] = ok lines
apply_readings lines ((line_id, current) ∷ readings) = do
  line ← or_raise (find? (has_line_id line_id) lines) (unknown_line line_id)
  raise_if (not (is_metered line)) (not_metered line_id)
  apply_readings (map (write_reading line_id current) lines) readings

abbrev pub with_rate : Invoice → Option ℤ → Invoice
with_rate invoice none = invoice
with_rate invoice (some exchange_rate) = record invoice { exchange_rate = exchange_rate }

abbrev pub apply_adjustments : Workspace → Option (List Adjustment) → Result Fault Workspace
apply_adjustments ws none = ok ws
apply_adjustments ws (some adjustments) = sync_adjustments ws adjustments

abbrev pub has_invoice_id : ℕ → Invoice → Bool
has_invoice_id invoice_id i = i.id == invoice_id

-- The row of the invoice as the session writes it back.
abbrev pub store_invoice : Db → Invoice → Db
store_invoice db invoice = record db {
  invoices = update_where (has_invoice_id invoice.id) (λ _. invoice) db.invoices;
}

abbrev pub workspace : Db → Invoice → Workspace
workspace db invoice = record {
  invoice = invoice;
  expenses = db.expenses;
  next_line = next_key (λ (l : InvoiceLine). l.id) (all_lines db.invoices);
}

unfoldable pub update_draft :
    Db → ℕ → Option ℤ → Readings → Option (List Adjustment) → Result Fault (Invoice × Db)
unfolding locked_invoice validate_invoice_chronology sync_adjustments get_invoice apply_readings
update_draft db invoice_id exchange_rate readings adjustments = do
  invoice ← locked_invoice db invoice_id
  raise_if (not (status_eq invoice.status InvoiceStatus.draft)) not_editable
  validate_invoice_chronology db invoice.apartment_id invoice.period false
  raise_unknown (least_unknown (reading_ids readings) (line_ids invoice.lines)) unknown_line
  lines ← apply_readings invoice.lines readings
  let invoice' = record (with_rate invoice exchange_rate) { lines = lines }
  ws ← apply_adjustments (workspace db invoice') adjustments
  let db' = store_invoice (record db { expenses = ws.expenses }) (recalculate ws.invoice)
  found ← get_invoice db' invoice.id
  ok (found, db')

-- The lines of a deleted invoice and their expenses go with it (`ON DELETE CASCADE`).
unfoldable pub delete_draft : Db → ℕ → Result Fault Db
unfolding locked_invoice
delete_draft db invoice_id = do
  invoice ← locked_invoice db invoice_id
  raise_if (not (status_eq invoice.status InvoiceStatus.draft)) not_deletable
  ok (record db {
    invoices =
        filter (λ (i : Invoice). not (i.id == invoice.id && status_eq i.status InvoiceStatus.draft))
          db.invoices;
    expenses = filter (λ e. not (linked_to (line_ids invoice.lines) e)) db.expenses;
  })

-- `ORDER BY period DESC, id DESC`
abbrev pub newer_invoice : Invoice → Invoice → Bool
newer_invoice a b =
    if date_ltb b.period a.period
    then true
    else if date_ltb a.period b.period
    then false
    else not (ltb a.id b.id)

abbrev matches : {A : Type 0} → Option A → (A → Bool) → Bool
matches none test = true
matches (some a) test = test a

unfoldable pub list_invoices : Db → Option ℕ → Option InvoiceStatus → Option Date → List Invoice
unfolding sort_by
list_invoices db apartment_id invoice_status period = sort_by newer_invoice (
    filter
      (λ (i : Invoice).
        matches apartment_id (λ a. i.apartment_id == a)
        && (matches invoice_status (status_eq i.status) && matches period (date_eq i.period)))
      db.invoices)
