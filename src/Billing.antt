-- ===== src/Billing.antt =====
-- backend/app/services/billing.py: the faults that it raises, the checks that its operations share,
-- and the tariff query of backend/app/db.py. The operations are in the modules below.
pub mod Tariffs
pub mod Recalculate
pub mod Draft
pub mod Adjustments
pub mod Update
pub mod Transition
pub mod Chronology
pub mod Lifecycle
use home_trap.Prelude.{
  ℕ, Bool, true, false, not, ◌&&◌, Option, none, some, List, Text, ◌==◌, find?, any, if◌then◌else◌,
}
use home_trap.Prelude.Result.{Result, ok, err, ◌>>=◌, ◌>>◌, raise_if, or_raise}
use home_trap.Calendar.{Date, date_ltb}
use home_trap.Models.{InvoiceStatus, status_eq, Invoice, Apartment, Db}

-- One constructor for each message; the class of each is `fault_class` in the file Invoices.
pub data Fault : Type 0 where
  apartment_not_found invoice_not_found : Fault
  period_not_first_day : Fault
  no_tariff : ℕ → Date → Fault
  label_required not_negative category_required duplicate_ids : Fault
  invalid_category : Text → Fault
  unknown_adjustment unknown_line not_metered : ℕ → Fault
  not_editable not_deletable : Fault
  missing_reading : Text → Fault
  cannot_transition : InvoiceStatus → Fault
  later_invoice earlier_draft : Fault
  integrity_error : Fault

-- The invoices of one apartment whose period lies after, or before, a given one.
abbrev pub is_later : ℕ → Date → Invoice → Bool
is_later apartment_id period i = i.apartment_id == apartment_id && date_ltb period i.period

abbrev pub is_earlier_draft : ℕ → Date → Invoice → Bool
is_earlier_draft apartment_id period i =
    i.apartment_id == apartment_id
    && (date_ltb i.period period && status_eq i.status InvoiceStatus.draft)

-- `validate_invoice_chronology`; no caller passes `reject_later=False`.
unfoldable pub validate_invoice_chronology : Db → ℕ → Date → Bool → Result Fault (Unit {0})
validate_invoice_chronology db apartment_id period reject_earlier_draft = do
  raise_if (any (is_later apartment_id period) db.invoices) later_invoice
  raise_if (reject_earlier_draft && any (is_earlier_draft apartment_id period) db.invoices)
      earlier_draft

-- `serialize_invoice_mutations`: the update of the apartment's row to itself finds no row.
unfoldable pub serialize_invoice_mutations : Db → ℕ → Result Fault (Unit {0})
serialize_invoice_mutations db apartment_id =
    raise_if (not (any (λ (a : Apartment). a.id == apartment_id) db.apartments)) apartment_not_found

-- `get_invoice`
unfoldable pub get_invoice : Db → ℕ → Result Fault Invoice
get_invoice db invoice_id =
    or_raise (find? (λ (i : Invoice). i.id == invoice_id) db.invoices) invoice_not_found

-- `_locked_invoice`: the row is read again under the write lock.
unfoldable pub locked_invoice : Db → ℕ → Result Fault Invoice
unfolding serialize_invoice_mutations get_invoice
locked_invoice db invoice_id = do
  invoice ← get_invoice db invoice_id
  serialize_invoice_mutations db invoice.apartment_id
  get_invoice db invoice_id
