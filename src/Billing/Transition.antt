-- ===== src/Billing/Transition.antt =====
-- `transition_invoice` of backend/app/services/billing.py.
pub mod Machine
use home_trap.Prelude.{ℕ, Bool, false, not, ◌&&◌, Option, none, some, Text, find?, is_some}
use home_trap.Prelude.Result.{Result, ok, err, ◌>>=◌, ◌>>◌, raise_if}
use home_trap.Calendar.{DateTime}
use home_trap.Models.{InvoiceStatus, InvoiceLine, Invoice, Db}
use home_trap.Billing.{
  Fault, missing_reading, cannot_transition, validate_invoice_chronology, get_invoice,
  locked_invoice,
}
use home_trap.Billing.Recalculate.{is_metered, recalculate}
use home_trap.Billing.Update.{store_invoice}

-- The texts that `action` is compared with; `other` is any other text.
pub data Action : Type 0 where
  issue revert_to_draft mark_paid unmark_paid : Action
  other : Text → Action

abbrev pub lacks_reading : InvoiceLine → Bool
lacks_reading line = is_metered line && not (is_some line.curr_reading)

abbrev pub raise_missing : Option InvoiceLine → Result Fault (Unit {0})
raise_missing none = ok tt
raise_missing (some line) = err (missing_reading line.service_name)

-- The chain of `if` and `elif`, on the action and the status of the invoice.
unfoldable pub transition : Db → DateTime → Action → InvoiceStatus → Invoice → Result Fault Invoice
unfolding validate_invoice_chronology
transition db now Action.issue InvoiceStatus.draft invoice = do
  raise_missing (find? lacks_reading invoice.lines)
  ok (record (recalculate invoice) { status = InvoiceStatus.issued; issued_at = some now })
transition db now Action.revert_to_draft InvoiceStatus.issued invoice = do
  validate_invoice_chronology db invoice.apartment_id invoice.period false
  ok (record invoice { status = InvoiceStatus.draft; issued_at = none })
transition db now Action.mark_paid InvoiceStatus.issued invoice =
    ok (record invoice { status = InvoiceStatus.paid; paid_at = some now })
transition db now Action.unmark_paid InvoiceStatus.paid invoice =
    ok (record invoice { status = InvoiceStatus.issued; paid_at = none })
transition db now action status invoice = err (cannot_transition invoice.status)

unfoldable pub transition_invoice : Db → DateTime → ℕ → Action → Result Fault (Invoice × Db)
unfolding locked_invoice transition get_invoice
transition_invoice db now invoice_id action = do
  invoice ← locked_invoice db invoice_id
  invoice' ← transition db now action invoice.status invoice
  let db' = store_invoice db invoice'
  found ← get_invoice db' invoice.id
  ok (found, db')
